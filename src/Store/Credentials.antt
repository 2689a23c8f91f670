-- ===== src/Store/Credentials.antt =====
-- internal/storage/sqlite/password_credential_repository.go. The `password_credentials` table has the
-- primary key `user_id`.
pub mod Change
use go_mediaarchive.Base.{
  Bool, true, false, not, Option, none, some, List, [], ◌∷◌, if◌then◌else◌, any, find, map,
}
use go_mediaarchive.Go.Text.{Text, text_eq}
use go_mediaarchive.Go.Time.{Time}
use go_mediaarchive.Go.Failure.{Result, ok, err, credential_not_found}
use go_mediaarchive.Go.Action.{Action, ◌>>=◌, ◌>>◌}
use go_mediaarchive.Identity.Username.{Platform}
use go_mediaarchive.Credential.{PasswordCredential}
use go_mediaarchive.Audit.{Event}
use go_mediaarchive.Store.Tables.{Database, World, SessionRow}
use go_mediaarchive.Store.Statements.{query, exec, transaction}
use go_mediaarchive.Store.Events.{insert_optional_event}
use go_mediaarchive.Store.Sessions.Rows.{coalesce}

abbrev pub one_credential : Option PasswordCredential → Result PasswordCredential
one_credential none = err (credential_not_found ∷ [])
one_credential (some c) = ok c

-- `FindByUserID`
unfoldable pub find_credential : Text → Action World PasswordCredential
find_credential user_id =
    query (λ db. one_credential (find (λ c. text_eq c.user_id user_id) db.credentials))

-- UPDATE password_credentials SET password_hash = ?, updated_at = ? WHERE user_id = ?
abbrev pub changed_credential : PasswordCredential → PasswordCredential → PasswordCredential
changed_credential new row =
    if text_eq row.user_id new.user_id
    then record row { password_hash = new.password_hash; updated_at = new.updated_at }
    else row

-- The update, and the test that it changed one row.
unfoldable pub change_credential : PasswordCredential → Database → Result Database
change_credential new db =
    if any (λ c. text_eq c.user_id new.user_id) db.credentials
    then ok (record db { credentials = map (changed_credential new) db.credentials })
    else err (credential_not_found ∷ [])

-- UPDATE sessions SET revoked_at = COALESCE(revoked_at, ?) WHERE user_id = ?
abbrev pub ended_row : Text → Time → SessionRow → SessionRow
ended_row user_id now row =
    if text_eq row.user_id user_id
    then record row { revoked_at = coalesce row.revoked_at now }
    else row

unfoldable pub end_sessions : Text → Time → Database → Database
end_sessions user_id now db = record db { sessions = map (ended_row user_id now) db.sessions }

-- `changePasswordAndRevokeSessions`
unfoldable pub change_password :
    Platform → PasswordCredential → Option Event → Action World (Unit {0})
change_password g new event = transaction (do
  exec (change_credential new)
  exec (λ db. ok (end_sessions new.user_id new.updated_at db))
  insert_optional_event g event)
