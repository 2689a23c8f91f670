-- ===== src/Audit/Kinds.antt =====
-- internal/audit/event.go: the string types of an event. `other` is any text but the constants.
use go_mediaarchive.Base.{Bool, true, false}
use go_mediaarchive.Go.Text.{Text}

pub data EventType : Type 0 where
  session_created session_create_denied session_revoked : EventType
  user_created user_updated user_activated user_deactivated user_deleted : EventType
  password_enrollment_issued password_enrollment_completed password_changed : EventType
  media_uploaded media_deleted media_grant_replaced media_grant_revoked : EventType
  media_content_read audit_events_listed : EventType
  other : Text → EventType

unfoldable pub valid_type : EventType → Bool
valid_type (EventType.other _) = false
valid_type _ = true

pub data Outcome : Type 0 where
  success denied failure : Outcome
  other : Text → Outcome

unfoldable pub valid_outcome : Outcome → Bool
valid_outcome (Outcome.other _) = false
valid_outcome _ = true

-- `outcome == OutcomeSuccess`
abbrev pub is_success : Outcome → Bool
is_success success = true
is_success _ = false

pub data TargetType : Type 0 where
  session_target user_target media_target grant_target audit_target : TargetType
  other : Text → TargetType

unfoldable pub valid_target_type : TargetType → Bool
valid_target_type (TargetType.other _) = false
valid_target_type _ = true

-- `no_reason` is the empty text.
pub data Reason : Type 0 where
  no_reason : Reason
  bad_credentials inactive_user missing_authentication insufficient_role : Reason
  unknown_target missing_permission missing_content_location missing_managed_file : Reason
  bad_range invalid_input invalid_enrollment resource_conflict : Reason
  self_lockout self_deletion last_administrator user_owns_media : Reason
  rate_limited operation_failure : Reason
  other : Text → Reason

unfoldable pub valid_reason : Reason → Bool
valid_reason no_reason = false
valid_reason (Reason.other _) = false
valid_reason _ = true

-- `reason == ""`
abbrev pub is_no_reason : Reason → Bool
is_no_reason no_reason = true
is_no_reason _ = false
