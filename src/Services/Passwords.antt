-- ===== src/Services/Passwords.antt =====
-- internal/application/passwords: service.go, which issues and completes enrollments, and
-- change_service.go; and the policy of internal/password/policy.go.
pub mod Changes
pub mod Replacement
use go_mediaarchive.Base.{
  ℕ, Bool, true, false, not, ◌||◌, Option, none, some, List, [], ◌∷◌, if◌then◌else◌, ltb, length,
}
use go_mediaarchive.Go.Text.{Text, text_eq}
use go_mediaarchive.Go.Time.{Time, Duration}
use go_mediaarchive.Go.Failure.{
  Result, ok, err, Error, is, invalid_user_id, user_not_found, enrollment_not_found,
  credential_exists, invalid_enrollment, invalid_password, invalid_current_password,
  password_unchanged,
}
use go_mediaarchive.Go.Action.{Action, pure, fail, lift, catch, ◌>>=◌, ◌>>◌}
use go_mediaarchive.Identity.Username.{Platform, other, canonical_uuid}
use go_mediaarchive.Identity.User.{User}
use go_mediaarchive.Credential.{
  PasswordCredential, PasswordEnrollment, new_password_credential, with_password_hash,
  new_password_enrollment, enrollment_valid_at,
}
use go_mediaarchive.Audit.Kinds.{EventType, Outcome, TargetType, Reason}
use go_mediaarchive.Audit.{Event}
use go_mediaarchive.Store.Tables.{World}
use go_mediaarchive.Store.Events.{insert_audit_event}
use go_mediaarchive.Store.Users.{find_user_by_id}
use go_mediaarchive.Store.Credentials.{find_credential, change_password}
use go_mediaarchive.Store.Enrollments.{find_enrollment, save_enrollment, consume_enrollment}
use go_mediaarchive.Services.Events.{new_actor_event, append_and_fail}
use go_mediaarchive.Session.{zero_time}

-- The hasher of passwords, the runes that `unicode/utf8` reads in a password, and
-- `credential.HashEnrollmentToken`.
pub record Hasher : Type 0 where
  pub runes : Text → Option Text
  pub hash : Text → Result Text
  pub verify : Text → Text → Result Bool
  pub hash_token : Text → Text

-- `password.Validate`: it counts the runes of valid UTF-8.
unfoldable pub validate_password : Option Text → Result (Unit {0})
validate_password none = err (invalid_password ∷ [])
validate_password (some runes) =
    if ltb (length runes) 15 || ltb 1024 (length runes) then err (invalid_password ∷ []) else ok tt

-- `identity.User{ID: id}`
abbrev pub user_of : Text → User
user_of id = record {
  id = id;
  username = [];
  display_name = [];
  role = other [];
  active = false;
  created_at = zero_time;
  updated_at = zero_time;
}

-- `safeEnrollmentTarget`
unfoldable pub safe_enrollment_target : Platform → Text → User
safe_enrollment_target g id = if canonical_uuid g id then user_of id else user_of []

-- `newEnrollmentIssueEvent`
unfoldable pub new_issue_event :
    Platform → User → User → Outcome → Reason → Time → Action World Event
new_issue_event g actor target outcome reason now =
    new_actor_event g actor EventType.password_enrollment_issued outcome TargetType.user_target
      target.id target.username reason now

-- `recordEnrollmentIssueDenial`
unfoldable pub deny_issue :
    {A : Type 0} → Platform → User → User → Reason → Time → Error → Action World A
deny_issue g actor target reason now operation_err =
    append_and_fail g (new_issue_event g actor target Outcome.denied reason now) operation_err

-- `enrollmentIssueDenialReason`; `none` is the empty reason.
unfoldable pub issue_denial_reason : Error → Option Reason
issue_denial_reason e =
    if is invalid_user_id e
    then some Reason.invalid_input
    else if is user_not_found e
    then some Reason.unknown_target
    else none

-- What `IssueEnrollment` does with the error of the lookup.
unfoldable pub deny_lookup :
    Platform → User → Text → Time → Option Reason → Error → Action World PasswordEnrollment
deny_lookup g actor id now (some reason) e =
    deny_issue g actor (safe_enrollment_target g id) reason now e
deny_lookup g actor id now none e = fail e

-- What `IssueEnrollment` does with the error of the save.
unfoldable pub deny_save :
    Platform → User → User → Time → Bool → Error → Action World PasswordEnrollment
deny_save g actor user now true e = deny_issue g actor user Reason.resource_conflict now e
deny_save g actor user now false e = fail e

-- `IssueEnrollment` from the user on; `generated` is what the generator of tokens returns.
unfoldable pub issue_for :
    Platform
    → User
    → Duration
    → Time
    → Result (Text × Text)
    → User
    → Action World PasswordEnrollment
issue_for g actor lifetime now generated user = do
  pair ← lift generated
  enrollment ← lift (new_password_enrollment g user.id pair.1 now lifetime)
  event ← new_issue_event g actor user Outcome.success Reason.no_reason now
  catch (save_enrollment g enrollment (some event))
      (λ e. deny_save g actor user now (is credential_exists e) e) (λ _. pure enrollment)

-- `IssueEnrollment`; the token and the end of the enrollment's time are what it returns.
unfoldable pub issue_enrollment :
    Platform
    → User
    → Duration
    → Text
    → Time
    → Result (Text × Text)
    → Action World PasswordEnrollment
issue_enrollment g actor lifetime user_id now generated =
    if not (canonical_uuid g user_id)
    then deny_issue g actor (safe_enrollment_target g user_id) Reason.invalid_input now
        (invalid_user_id ∷ [])
    else catch (find_user_by_id user_id)
        (λ e. deny_lookup g actor user_id now (issue_denial_reason e) e)
        (issue_for g actor lifetime now generated)

-- `newEnrollmentCompletionEvent`: it names no actor.
unfoldable pub new_completion_event : Platform → User → Outcome → Reason → Time → Action World Event
new_completion_event g target outcome reason now =
    new_actor_event g (user_of []) EventType.password_enrollment_completed outcome
      TargetType.user_target target.id target.username reason now

-- `recordEnrollmentCompletionDenial`
unfoldable pub deny_completion : Platform → User → Reason → Time → Error → Action World (Unit {0})
deny_completion g target reason now operation_err =
    append_and_fail g (new_completion_event g target Outcome.denied reason now) operation_err

-- `RecordLimitedEnrollmentCompletion`
unfoldable pub record_limited_completion : Platform → Time → Action World (Unit {0})
record_limited_completion g now = do
  event ← new_completion_event g (user_of []) Outcome.denied Reason.rate_limited now
  insert_audit_event g event

-- An enrollment that is unknown, over or used is the same error to the caller; others are returned.
unfoldable pub deny_enrollment : Platform → User → Time → Bool → Error → Action World (Unit {0})
deny_enrollment g target now true e =
    deny_completion g target Reason.invalid_enrollment now (invalid_enrollment ∷ [])
deny_enrollment g target now false e = fail e

-- `CompleteEnrollment` from the accepted password on.
unfoldable pub enroll :
    Platform → Hasher → Text → Text → Time → PasswordEnrollment → Action World (Unit {0})
enroll g h token password now enrollment = do
  encoded ← lift (h.hash password)
  credential ← lift (new_password_credential g enrollment.user_id encoded now)
  user ← find_user_by_id enrollment.user_id
  event ← new_completion_event g user Outcome.success Reason.no_reason now
  catch (consume_enrollment g (h.hash_token token) credential now (some event))
      (λ e. deny_enrollment g user now (is enrollment_not_found e || is credential_exists e) e)
      (λ _. pure tt)

-- `CompleteEnrollment` from the enrollment on.
unfoldable pub complete_found :
    Platform → Hasher → Text → Text → Time → PasswordEnrollment → Action World (Unit {0})
complete_found g h token password now enrollment =
    let target = safe_enrollment_target g enrollment.user_id in
    if not (enrollment_valid_at enrollment now)
    then deny_completion g target Reason.invalid_enrollment now (invalid_enrollment ∷ [])
    else catch (lift (validate_password (h.runes password)))
        (λ e. deny_completion g target Reason.invalid_input now e)
        (λ _. enroll g h token password now enrollment)

-- `CompleteEnrollment`
unfoldable pub complete_enrollment :
    Platform → Hasher → Text → Text → Time → Action World (Unit {0})
complete_enrollment g h token password now =
    catch (find_enrollment (h.hash_token token))
      (λ e. deny_enrollment g (user_of []) now (is enrollment_not_found e) e)
      (complete_found g h token password now)

-- `newPasswordChangeEvent`
unfoldable pub new_change_event : Platform → User → Outcome → Reason → Time → Action World Event
new_change_event g actor outcome reason now =
    new_actor_event g actor EventType.password_changed outcome TargetType.user_target actor.id
      actor.username reason now

-- `recordPasswordChangeDenial`
unfoldable pub deny_change : Platform → User → Reason → Time → Error → Action World (Unit {0})
deny_change g actor reason now operation_err =
    append_and_fail g (new_change_event g actor Outcome.denied reason now) operation_err

-- `ChangePassword` from the accepted passwords on.
unfoldable pub replace_password :
    Platform → Hasher → User → Text → Time → PasswordCredential → Action World (Unit {0})
replace_password g h actor new now stored = do
  encoded ← lift (h.hash new)
  updated ← lift (with_password_hash stored encoded now)
  event ← new_change_event g actor Outcome.success Reason.no_reason now
  change_password g updated (some event)

-- `ChangePassword` from the verdict on the current password on.
unfoldable pub change_verified :
    Platform
    → Hasher
    → User
    → Text
    → Text
    → Time
    → PasswordCredential
    → Bool
    → Action World (Unit {0})
change_verified g h actor current new now stored matches =
    if not matches
    then deny_change g actor Reason.bad_credentials now (invalid_current_password ∷ [])
    else catch (lift (validate_password (h.runes new)))
        (λ e. deny_change g actor Reason.invalid_input now e)
        (λ _.
          if text_eq current new
          then deny_change g actor Reason.resource_conflict now (password_unchanged ∷ [])
          else replace_password g h actor new now stored)

-- `ChangePassword`
unfoldable pub change_own_password :
    Platform → Hasher → User → Text → Text → Time → Action World (Unit {0})
change_own_password g h actor current new now = do
  stored ← find_credential actor.id
  matches ← lift (h.verify current stored.password_hash)
  change_verified g h actor current new now stored matches
