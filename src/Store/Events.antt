-- ===== src/Store/Events.antt =====
-- internal/storage/sqlite/audit_repository.go: the append-only table of audit events.
use go_mediaarchive.Base.{Option, none, some, [], ◌∷◌, if◌then◌else◌, any}
use go_mediaarchive.Go.Text.{text_eq}
use go_mediaarchive.Go.Failure.{Result, ok, err, event_conflict, driver}
use go_mediaarchive.Go.Action.{Action, pure, ◌>>=◌, lift}
use go_mediaarchive.Identity.Username.{Platform}
use go_mediaarchive.Audit.{Event, new_event}
use go_mediaarchive.Store.Tables.{Database, World}
use go_mediaarchive.Store.Statements.{exec}

-- The row of an event, under the primary key `id`. Empty texts are stored as NULL and read back empty.
unfoldable pub add_event : Event → Database → Result Database
add_event event db =
    if any (λ x. text_eq x.id event.id) db.events
    then err (event_conflict ∷ driver ∷ [])
    else ok (record db { events = event ∷ db.events })

-- `insertAuditEvent`, and `AuditRepository.Append`.
unfoldable pub insert_audit_event : Platform → Event → Action World (Unit {0})
unfolding exec add_event
insert_audit_event g candidate = do event ← lift (new_event g candidate); exec (add_event event)

-- `if event != nil { insertAuditEvent }`
unfoldable pub insert_optional_event : Platform → Option Event → Action World (Unit {0})
insert_optional_event g none = pure tt
insert_optional_event g (some event) = insert_audit_event g event
