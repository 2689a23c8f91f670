-- ===== src/Services/Events.antt =====
-- The audit events of the services: `newUserEvent` and its likes in the other packages.
pub mod Keeps
pub mod Failures
pub mod Files
use go_mediaarchive.Base.{Option, none, some, List, [], ◌∷◌}
use go_mediaarchive.Go.Text.{Text}
use go_mediaarchive.Go.Time.{Time, to_utc}
use go_mediaarchive.Go.Failure.{Result, ok, err, Error}
use go_mediaarchive.Go.Action.{Action, lift, fail, ◌>>=◌, ◌>>◌}
use go_mediaarchive.Identity.Username.{Platform, Role, viewer, editor, admin, other}
use go_mediaarchive.Identity.User.{User}
use go_mediaarchive.Audit.Kinds.{EventType, Outcome, TargetType, Reason}
use go_mediaarchive.Audit.{Event, new_event}
use go_mediaarchive.Store.Tables.{World}
use go_mediaarchive.Store.Events.{insert_audit_event}

-- `string(actor.Role)`: `none` is the empty text.
abbrev pub role_text : Role → Option Role
role_text viewer = some viewer
role_text editor = some editor
role_text admin = some admin
role_text (other []) = none
role_text (other (c ∷ s)) = some (other (c ∷ s))

-- The next ID of the generator of event IDs.
unfoldable pub next_event_id : Action World Text
next_event_id w = elim w.event_ids [
  | [] ↦ (ok [], w)
  | id ∷ rest ↦ (ok id, record w { event_ids = rest })
]

-- An event of an actor about a target, with a fresh ID.
unfoldable pub new_actor_event :
    Platform
    → User
    → EventType
    → Outcome
    → TargetType
    → Text
    → Text
    → Reason
    → Time
    → Action World Event
new_actor_event g actor type outcome target_type target_id target_name reason occurred_at = do
  id ← next_event_id
  lift (
      new_event g (record {
        id = id;
        occurred_at = to_utc occurred_at;
        type = type;
        outcome = outcome;
        actor_id = actor.id;
        actor_username = actor.username;
        actor_role = role_text actor.role;
        target_type = target_type;
        target_id = target_id;
        target_name = target_name;
        reason = reason;
        range = none;
      }))

-- An event is appended, and the operation's own error returned.
unfoldable pub append_and_fail :
    {A : Type 0} → Platform → Action World Event → Error → Action World A
append_and_fail g make operation_err = do
  event ← make
  insert_audit_event g event
  fail operation_err
