-- ===== src/Store/Enrollments.antt =====
-- internal/storage/sqlite/password_enrollment_repository.go. The `password_enrollments` table has the
-- primary key `user_id` and unique token hashes, and its rows refer to `users`. The test of its schema
-- that `expires_at` follows `created_at`, which compares them as texts, is left out.
pub mod Consumption
pub mod Finality
use go_mediaarchive.Base.{
  Bool, true, false, not, ◌&&◌, ◌||◌, Option, none, some, List, [], ◌∷◌, if◌then◌else◌, any, find,
  keep, map,
}
use go_mediaarchive.Go.Text.{Text, text_eq}
use go_mediaarchive.Go.Time.{Time, is_zero, before, to_utc}
use go_mediaarchive.Go.Failure.{
  Result, ok, err, user_not_found, enrollment_not_found, credential_exists, driver,
}
use go_mediaarchive.Go.Action.{Action, fail_if, ◌>>=◌, ◌>>◌}
use go_mediaarchive.Identity.Username.{Platform}
use go_mediaarchive.Credential.{PasswordCredential, PasswordEnrollment}
use go_mediaarchive.Audit.{Event}
use go_mediaarchive.Store.Tables.{Database, World}
use go_mediaarchive.Store.Statements.{query, exec, transaction}
use go_mediaarchive.Store.Events.{insert_optional_event}

abbrev pub has_user : Text → Database → Bool
has_user id db = any (λ u. text_eq u.id id) db.users

abbrev pub has_credential : Text → Database → Bool
has_credential id db = any (λ c. text_eq c.user_id id) db.credentials

-- `passwordCredentialExists`, and the test on it.
unfoldable pub refuse_credential : Text → Database → Result (Unit {0})
refuse_credential id db = if has_credential id db then err (credential_exists ∷ []) else ok tt

-- `SELECT EXISTS … users`, and the test on it.
unfoldable pub require_user : Text → Database → Result (Unit {0})
require_user id db = if has_user id db then ok tt else err (user_not_found ∷ [])

-- A row of another user has the token hash.
abbrev pub takes_hash : PasswordEnrollment → PasswordEnrollment → Bool
takes_hash new r = text_eq r.token_hash new.token_hash && not (text_eq r.user_id new.user_id)

-- INSERT INTO password_enrollments … ON CONFLICT(user_id) DO UPDATE
unfoldable pub put_enrollment : PasswordEnrollment → Database → Result Database
put_enrollment new db =
    if any (takes_hash new) db.enrollments || not (has_user new.user_id db)
    then err (driver ∷ [])
    else if any (λ r. text_eq r.user_id new.user_id) db.enrollments
    then ok (record db {
      enrollments = map (λ r. if text_eq r.user_id new.user_id then new else r) db.enrollments;
    })
    else ok (record db { enrollments = new ∷ db.enrollments })

-- `saveForCredentiallessUser`
unfoldable pub save_enrollment :
    Platform → PasswordEnrollment → Option Event → Action World (Unit {0})
save_enrollment g enrollment event = transaction (do
  query (require_user enrollment.user_id)
  query (refuse_credential enrollment.user_id)
  exec (put_enrollment enrollment)
  insert_optional_event g event)

abbrev pub one_enrollment : Option PasswordEnrollment → Result PasswordEnrollment
one_enrollment none = err (enrollment_not_found ∷ [])
one_enrollment (some e) = ok e

-- `FindByTokenHash`
unfoldable pub find_enrollment : Text → Action World PasswordEnrollment
find_enrollment hash =
    query (λ db. one_enrollment (find (λ r. text_eq r.token_hash hash) db.enrollments))

-- INSERT INTO password_credentials
unfoldable pub add_credential : PasswordCredential → Database → Result Database
add_credential c db =
    if has_credential c.user_id db || not (has_user c.user_id db)
    then err (driver ∷ [])
    else ok (record db { credentials = c ∷ db.credentials })

-- DELETE FROM password_enrollments WHERE token_hash = ?, and the test on the number of rows.
unfoldable pub remove_enrollment : Text → Database → Result Database
remove_enrollment hash db =
    if any (λ r. text_eq r.token_hash hash) db.enrollments
    then ok (record db { enrollments = keep (λ r. not (text_eq r.token_hash hash)) db.enrollments })
    else err (enrollment_not_found ∷ [])

-- The transaction of `createCredentialAndConsume` from the enrollment on. A credential of another user
-- is an error that no caller tells apart.
unfoldable pub consume_row :
    Platform
    → Text
    → PasswordCredential
    → Time
    → Option Event
    → PasswordEnrollment
    → Action World (Unit {0})
consume_row g hash credential now event row = do
  fail_if (is_zero now || not (before (to_utc now) row.expires_at)) (enrollment_not_found ∷ [])
  fail_if (not (text_eq credential.user_id row.user_id)) []
  query (refuse_credential row.user_id)
  exec (add_credential credential)
  exec (remove_enrollment hash)
  insert_optional_event g event

-- `createCredentialAndConsume`
unfoldable pub consume_enrollment :
    Platform → Text → PasswordCredential → Time → Option Event → Action World (Unit {0})
consume_enrollment g hash credential now event =
    transaction (do row ← find_enrollment hash; consume_row g hash credential now event row)
