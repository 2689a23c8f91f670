-- ===== src/Store/Sessions.antt =====
-- internal/storage/sqlite/session_repository.go. The `sessions` table has the primary key `token_hash`,
-- and its rows refer to `users`.
pub mod Rows
pub mod Effects
pub mod Revocation
use go_mediaarchive.Base.{
  ℕ, Bool, true, false, not, ◌&&◌, Option, none, some, List, [], ◌∷◌, if◌then◌else◌, any, find, map,
}
use go_mediaarchive.Go.Text.{Text, text_eq}
use go_mediaarchive.Go.Time.{Time, to_utc}
use go_mediaarchive.Go.Failure.{Result, ok, err, session_not_found}
use go_mediaarchive.Go.Action.{Action, pure, ◌>>=◌, ◌>>◌}
use go_mediaarchive.Identity.Username.{Platform}
use go_mediaarchive.Session.{Session}
use go_mediaarchive.Audit.{Event}
use go_mediaarchive.Store.Tables.{Database, World, SessionRow}
use go_mediaarchive.Store.Statements.{query, exec, statement, transaction, transaction_or_return}
use go_mediaarchive.Store.Events.{insert_audit_event}
use Rows.{add_session, stored_session, touch_rows, revoke_rows, revoke_first, has_open_session}

-- `insertSession`
unfoldable pub insert_session : Session → Action World (Unit {0})
insert_session s = exec (add_session s)

-- `CreateWithAudit`
unfoldable pub create_session_with_audit : Platform → Session → Event → Action World (Unit {0})
unfolding insert_session
create_session_with_audit g s event = transaction (do insert_session s; insert_audit_event g event)

-- `FindByTokenHash`
unfoldable pub find_by_token_hash : Text → Action World Session
find_by_token_hash hash =
    query (λ db. stored_session (find (λ r. text_eq r.token_hash hash) db.sessions))

-- `Touch`
unfoldable pub touch : Text → Time → Action World (Unit {0})
touch hash now = exec (touch_rows hash (to_utc now))

-- `Revoke`
unfoldable pub revoke : Text → Time → Action World (Unit {0})
revoke hash now = exec (λ db. ok (revoke_rows hash (to_utc now) db))

unfoldable pub record_revocation : Platform → Event → Bool → Action World Bool
record_revocation g event false = pure false
record_revocation g event true = do insert_audit_event g event; pure true

-- UPDATE sessions SET revoked_at for an open session, with the number of rows as a Boolean.
unfoldable pub revoke_open : Text → Time → Action World Bool
revoke_open hash now = do
  was_open ← (λ w. (ok (has_open_session hash w.db), w))
  exec (λ db. ok (revoke_first hash now db))
  pure was_open

-- `RevokeWithAudit`
unfoldable pub revoke_with_audit : Platform → Text → Time → Event → Action World Bool
unfolding revoke_open record_revocation
revoke_with_audit g hash now event =
    transaction_or_return
      (do affected ← revoke_open hash (to_utc now); record_revocation g event affected)
