-- ===== src/Services/Users.antt =====
-- internal/application/users/service.go: the user service.
pub mod Activation
pub mod Changes
pub mod Failures
pub mod Removal
use go_mediaarchive.Base.{
  Bool, true, false, not, ◌&&◌, ◌||◌, Option, none, some, List, [], ◌∷◌, if◌then◌else◌,
}
use go_mediaarchive.Go.Text.{Text, text_eq}
use go_mediaarchive.Go.Time.{Time}
use go_mediaarchive.Go.Failure.{
  Result, ok, err, Error, is, invalid_user_id, user_not_found, user_conflict, last_administrator,
  user_owns_media, self_lockout, self_deletion,
}
use go_mediaarchive.Go.Action.{Action, pure, fail, lift, catch, ◌>>=◌, ◌>>◌}
use go_mediaarchive.Identity.Username.{
  Platform, Role, is_admin, other, canonical_uuid, normalize_username,
}
use go_mediaarchive.Identity.User.{User, new_user, update_details, set_active}
use go_mediaarchive.Limiter.Bucket.{zero_time}
use go_mediaarchive.Audit.Kinds.{EventType, Outcome, TargetType, Reason}
use go_mediaarchive.Audit.{Event}
use go_mediaarchive.Store.Tables.{World}
use go_mediaarchive.Store.Users.{
  EventFactory, create_with_audit, find_user_by_id, find_user_by_username, update_preserving,
  delete_preserving,
}
use go_mediaarchive.Services.Events.{new_actor_event, append_and_fail}

-- `CreateUserInput` and `UpdateUserInput`
pub record UserInput : Type 0 where
  pub username : Text
  pub display_name : Text
  pub role : Role

-- `safeUserTarget`
unfoldable pub safe_user_target : Platform → Text → Text → User
safe_user_target g id username = record {
  id = if canonical_uuid g id then id else [];
  username = elim (normalize_username g username) [ ok n ↦ n | err _ ↦ [] ];
  display_name = [];
  role = other [];
  active = false;
  created_at = zero_time;
  updated_at = zero_time;
}

-- `newUserEvent`
unfoldable pub new_user_event :
    Platform → User → User → EventType → Outcome → Reason → Time → Action World Event
new_user_event g actor target type outcome reason occurred_at =
    new_actor_event g actor type outcome TargetType.user_target target.id target.username reason
      occurred_at

-- `recordDeniedChange`
unfoldable pub record_denied_change :
    {A : Type 0} → Platform → User → EventType → User → Reason → Time → Error → Action World A
record_denied_change g actor type target reason now operation_err =
    append_and_fail g (new_user_event g actor target type Outcome.denied reason now) operation_err

-- `userChangeDenialReason`; `no_reason` is the empty reason.
unfoldable pub user_change_denial_reason : Error → Reason
user_change_denial_reason e =
    if is user_conflict e
    then Reason.resource_conflict
    else if is last_administrator e
    then Reason.last_administrator
    else Reason.no_reason

-- `userDeletionDenialReason`
unfoldable pub user_deletion_denial_reason : Error → Reason
user_deletion_denial_reason e =
    if is user_not_found e
    then Reason.unknown_target
    else if is last_administrator e
    then Reason.last_administrator
    else if is user_owns_media e
    then Reason.user_owns_media
    else Reason.no_reason

-- `if reason != ""` a denial is recorded; else the error is returned.
unfoldable pub deny_or_fail :
    {A : Type 0} → Platform → User → EventType → User → Reason → Time → Error → Action World A
deny_or_fail g actor type target Reason.no_reason now e = fail e
deny_or_fail g actor type target reason now e =
    record_denied_change g actor type target reason now e

-- The end of `CreateUser`, from the validated user on.
unfoldable pub persist_created : Platform → User → User → Time → Action World User
persist_created g actor user now = do
  event ←
      new_user_event g actor user EventType.user_created Outcome.success Reason.no_reason
        user.created_at
  catch (create_with_audit g user event)
      (λ e.
        if is user_conflict e
        then record_denied_change g actor EventType.user_created user Reason.resource_conflict now e
        else fail e)
      (λ _. pure user)

-- `CreateUser`
unfoldable pub create_user : Platform → User → Text → UserInput → Time → Action World User
create_user g actor user_id input now =
    elim (new_user g user_id input.username input.display_name input.role now) [
      | err e ↦
          record_denied_change g actor EventType.user_created
            (safe_user_target g user_id input.username) Reason.invalid_input now e
      | ok user ↦ persist_created g actor user now
    ]

-- `UserByID`
unfoldable pub user_by_id : Text → Action World User
user_by_id = find_user_by_id

-- `UserByUsername`
unfoldable pub user_by_username : Platform → Text → Action World User
user_by_username g username = do
  normalized ← lift (normalize_username g username)
  find_user_by_username g normalized

-- The end of `UpdateUser` and of `SetUserActive`, from the new state of the user on.
unfoldable pub persist_updated :
    Platform → User → EventType → User → User → Time → Action World User
persist_updated g actor type existing updated now = do
  event ← new_user_event g actor updated type Outcome.success Reason.no_reason updated.updated_at
  catch (update_preserving g updated (some event))
      (λ e. deny_or_fail g actor type existing (user_change_denial_reason e) now e)
      (λ _. pure updated)

-- `UpdateUser` from the row that it found.
unfoldable pub update_existing : Platform → User → User → UserInput → Time → Action World User
update_existing g actor existing input now =
    elim (update_details g existing input.username input.display_name input.role now) [
      | err e ↦
          record_denied_change g actor EventType.user_updated existing Reason.invalid_input now e
      | ok updated ↦
          if text_eq actor.id existing.id && is_admin existing.role && not (is_admin updated.role)
          then record_denied_change g actor EventType.user_updated existing Reason.self_lockout now
              (self_lockout ∷ [])
          else persist_updated g actor EventType.user_updated existing updated now
    ]

-- The lookup that `UpdateUser` and `SetUserActive` begin with, and what they do with an error of it.
unfoldable pub with_user :
    Platform
    → User
    → EventType
    → Text
    → Text
    → Time
    → (User → Action World User)
    → Action World User
with_user g actor type id username now continue =
    if not (canonical_uuid g id)
    then record_denied_change g actor type (safe_user_target g id username) Reason.invalid_input now
        (invalid_user_id ∷ [])
    else catch (find_user_by_id id)
        (λ e.
          if is user_not_found e
          then record_denied_change g actor type (safe_user_target g id username)
              Reason.unknown_target now e
          else fail e)
        continue

-- `UpdateUser`
unfoldable pub update_user_service : Platform → User → Text → UserInput → Time → Action World User
update_user_service g actor id input now =
    with_user g actor EventType.user_updated id input.username now
      (λ existing. update_existing g actor existing input now)

abbrev pub activation_type : Bool → EventType
activation_type true = EventType.user_activated
activation_type false = EventType.user_deactivated

abbrev pub same_bool : Bool → Bool → Bool
same_bool true b = b
same_bool false b = not b

-- `SetUserActive` from the row that it found.
unfoldable pub activate_existing : Platform → User → User → Bool → Time → Action World User
activate_existing g actor existing active now =
    if text_eq actor.id existing.id && is_admin existing.role && not active
    then record_denied_change g actor (activation_type active) existing Reason.self_lockout now
        (self_lockout ∷ [])
    else if same_bool existing.active active
    then pure existing
    else elim (set_active existing active now) [
      | err e ↦
          record_denied_change g actor (activation_type active) existing Reason.invalid_input now e
      | ok updated ↦ persist_updated g actor (activation_type active) existing updated now
    ]

-- `SetUserActive`
unfoldable pub set_user_active : Platform → User → Text → Bool → Time → Action World User
set_user_active g actor id active now =
    with_user g actor (activation_type active) id [] now
      (λ existing. activate_existing g actor existing active now)

abbrev pub selected_or : User → Option User → User
selected_or target none = target
selected_or target (some u) = u

-- The factory that `DeleteUser` passes on: it also assigns the variable `target`.
unfoldable pub deletion_event : Platform → User → Time → EventFactory
deletion_event g actor now selected w =
    new_user_event g actor selected EventType.user_deleted Outcome.success Reason.no_reason now
      (record w { selected = some selected })

-- What `DeleteUser` does with an error, with the value that `target` has then.
unfoldable pub deny_deletion : Platform → User → User → Time → Error → Action World (Unit {0})
deny_deletion g actor target now e w =
    deny_or_fail g actor EventType.user_deleted (selected_or target w.selected)
      (user_deletion_denial_reason e) now e w

-- `DeleteUser`
unfoldable pub delete_user : Platform → User → Text → Time → Action World (Unit {0})
delete_user g actor id now world =
    if not (canonical_uuid g id)
    then record_denied_change g actor EventType.user_deleted (safe_user_target g id [])
        Reason.invalid_input now (invalid_user_id ∷ []) world
    else if text_eq actor.id id
    then record_denied_change g actor EventType.user_deleted actor Reason.self_deletion now
        (self_deletion ∷ []) world
    else catch (delete_preserving g id (some (deletion_event g actor now)))
        (deny_deletion g actor (safe_user_target g id []) now) (λ _. pure tt)
        (record world { selected = none })
