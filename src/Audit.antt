-- ===== src/Audit.antt =====
-- internal/audit/event.go: immutable security events and `NewEvent`.
pub mod Kinds
use go_mediaarchive.Base.{
  ℕ, Bool, true, false, not, ◌&&◌, ◌||◌, Option, none, some, List, [], ◌∷◌, ltb, leb, ◌==◌,
  if◌then◌else◌, length, any,
}
use go_mediaarchive.Go.Text.{Text, text_eq, trim_space, is_control}
use go_mediaarchive.Go.Time.{Time, is_zero}
use go_mediaarchive.Go.Chain.{◌>>=◌, ◌>>◌}
use go_mediaarchive.Go.Failure.{
  Result, ok, err, invalid_event_id, invalid_audit_timestamp, invalid_event_type, invalid_outcome,
  invalid_actor, invalid_target, invalid_reason, invalid_range,
}
use go_mediaarchive.Identity.Username.{
  Platform, Role, viewer, editor, admin, other, canonical_uuid, valid_role,
}
use Kinds.{
  EventType, Outcome, TargetType, Reason, valid_type, valid_outcome, valid_target_type,
  valid_reason, success, no_reason, is_success, is_no_reason,
}

-- Offsets of a partial read; they are never negative where the program makes one.
pub record ByteRange : Type 0 where
  pub start : ℕ
  pub end : ℕ
  pub total : ℕ

-- `ActorRole` is a string; `none` is the empty one.
pub record Event : Type 0 where
  pub id : Text
  pub occurred_at : Time
  pub type : EventType
  pub outcome : Outcome
  pub actor_id : Text
  pub actor_username : Text
  pub actor_role : Option Role
  pub target_type : TargetType
  pub target_id : Text
  pub target_name : Text
  pub reason : Reason
  pub range : Option ByteRange

-- `containsUnsafeText`
unfoldable pub contains_unsafe_text : Text → Bool
unfolding is_control
contains_unsafe_text = any is_control

-- `validateSnapshot`
unfoldable pub valid_snapshot : Text → Bool
unfolding contains_unsafe_text
valid_snapshot value = not (
    not (text_eq value (trim_space value))
    || text_eq value []
    || ltb 200 (length value)
    || contains_unsafe_text value)

-- The switch on the actor's role.
abbrev pub known_role : Option Role → Bool
known_role none = false
known_role (some r) = valid_role r

abbrev pub has_role : Option Role → Bool
has_role none = false
has_role (some _) = true

-- `validateActor`
unfoldable pub validate_actor : Platform → Event → Result (Unit {0})
validate_actor g e =
    if text_eq e.actor_id []
    then (if not (text_eq e.actor_username []) || has_role e.actor_role
        then err (invalid_actor ∷ [])
        else ok tt)
    else if not (canonical_uuid g e.actor_id)
    then err (invalid_actor ∷ [])
    else if not (valid_snapshot e.actor_username)
    then err (invalid_actor ∷ [])
    else if known_role e.actor_role
    then ok tt
    else err (invalid_actor ∷ [])

-- `validateTarget`
unfoldable pub validate_target : Event → Result (Unit {0})
validate_target e =
    if not (valid_target_type e.target_type)
    then err (invalid_target ∷ [])
    else if ltb 200 (length e.target_id) || contains_unsafe_text e.target_id
    then err (invalid_target ∷ [])
    else if not (text_eq e.target_name []) && not (valid_snapshot e.target_name)
    then err (invalid_target ∷ [])
    else ok tt

valid_range : Option ByteRange → Bool
valid_range none = true
valid_range (some r) = not (ltb r.end r.start || leb r.total r.end)

abbrev require : Bool → Result (Unit {0}) → Result (Unit {0})
require true e = ok tt
require false e = e

-- `NewEvent`
unfoldable pub new_event : Platform → Event → Result Event
unfolding valid_range
new_event g e = do
  require (canonical_uuid g e.id) (err (invalid_event_id ∷ []))
  require (not (is_zero e.occurred_at || not e.occurred_at.utc))
      (err (invalid_audit_timestamp ∷ []))
  require (valid_type e.type) (err (invalid_event_type ∷ []))
  require (valid_outcome e.outcome) (err (invalid_outcome ∷ []))
  validate_actor g e
  validate_target e
  require (is_no_reason e.reason || valid_reason e.reason) (err (invalid_reason ∷ []))
  require (not (is_success e.outcome && not (is_no_reason e.reason))) (err (invalid_reason ∷ []))
  require (valid_range e.range) (err (invalid_range ∷ []))
  ok e
