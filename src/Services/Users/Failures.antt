-- ===== src/Services/Users/Failures.antt =====
-- internal/application/users/service.go: a request that fails leaves the records as they were.
use go_mediaarchive.Base.{
  ◌≡◌, refl, inl, inr, Bool, Bool-cases, true, false, if◌then◌else◌, not, ◌&&◌, none, some, [], ◌∷◌,
  arith,
}
use go_mediaarchive.Go.Text.{Text, text_eq}
use go_mediaarchive.Go.Time.{Time}
use go_mediaarchive.Go.Failure.{
  err, Error, is, invalid_user_id, user_not_found, user_conflict, self_lockout, self_deletion,
}
use go_mediaarchive.Go.Action.{Action, pure, fail}
use go_mediaarchive.Identity.Username.{Platform, is_admin, canonical_uuid}
use go_mediaarchive.Identity.User.{User, new_user, update_details, set_active}
use go_mediaarchive.Audit.Kinds.{EventType, Outcome, TargetType, Reason}
use go_mediaarchive.Store.Tables.{World}
use go_mediaarchive.Store.Statements.{query}
use go_mediaarchive.Store.Statements.Atomicity.{statement_keeps}
use go_mediaarchive.Store.Statements.Rollback.{KeepsTables, transaction-RollsBack}
use go_mediaarchive.Store.Users.{
  find_user_by_id, create_with_audit, update_preserving, delete_preserving,
}
use go_mediaarchive.Services.Events.Keeps.{new_actor_event-db}
use go_mediaarchive.Services.Events.Failures.{
  IsLogged, Logs, unlogged, append_and_fail-Logs, LeavesRows, Logs-LeavesRows,
  catch-LeavesRows_last, catch-LeavesRows_first, >>=-LeavesRows, validated-LeavesRows,
}
use go_mediaarchive.Services.Users.{
  UserInput, safe_user_target, new_user_event, record_denied_change, user_change_denial_reason,
  user_deletion_denial_reason, deny_or_fail, persist_created, create_user, persist_updated,
  update_existing, with_user, update_user_service, activation_type, same_bool, activate_existing,
  set_user_active, selected_or, deletion_event, deny_deletion, delete_user,
}

record_denied_change-Logs :
    (A : Type 0) (g : Platform) (actor : User) (t : EventType) (target : User) (r : Reason)
    (now : Time) (e : Error)
    → Logs (record_denied_change {A = A} g actor t target r now e)
unfolding record_denied_change new_user_event
record_denied_change-Logs A g actor t target r now e = append_and_fail-Logs A g _ e (
    new_actor_event-db g actor t Outcome.denied TargetType.user_target target.id target.username r
      now)

denied-LeavesRows :
    (A : Type 0) (g : Platform) (actor : User) (t : EventType) (target : User) (r : Reason)
    (now : Time) (e : Error)
    → LeavesRows (record_denied_change {A = A} g actor t target r now e)
denied-LeavesRows A g actor t target r now e =
    Logs-LeavesRows (record_denied_change g actor t target r now e)
      (record_denied_change-Logs A g actor t target r now e)

deny_or_fail-Logs :
    (A : Type 0) (g : Platform) (actor : User) (t : EventType) (target : User) (r : Reason)
    (now : Time) (e : Error)
    → Logs (deny_or_fail {A = A} g actor t target r now e)
unfolding deny_or_fail
deny_or_fail-Logs A g actor t target r now e w =
    ground (arith, record_denied_change-Logs A g actor t target r now e w)

find_user_by_id-KeepsTables : (id : Text) → KeepsTables (find_user_by_id id)
unfolding find_user_by_id query
find_user_by_id-KeepsTables id w = ground (arith, statement_keeps w)

if_denied-Logs :
    (A : Type 0) (b : Bool) (g : Platform) (actor : User) (t : EventType) (target : User)
    (r : Reason) (now : Time) (e : Error)
    → Logs {A = A} (if b then record_denied_change g actor t target r now e else fail e)
if_denied-Logs A true g actor t target r now e =
    record_denied_change-Logs A g actor t target r now e
if_denied-Logs A false g actor t target r now e = λ w. unlogged w.db w.db refl

persist_created-LeavesRows :
    (g : Platform) (actor user : User) (now : Time) → LeavesRows (persist_created g actor user now)
unfolding persist_created new_user_event create_with_audit
persist_created-LeavesRows g actor user now =
    >>=-LeavesRows _ _
      (new_actor_event-db g actor EventType.user_created Outcome.success TargetType.user_target
        user.id user.username Reason.no_reason user.created_at)
      (λ event. catch-LeavesRows_last _ _ user (transaction-RollsBack _) (λ e.
        if_denied-Logs User (is user_conflict e) g actor EventType.user_created user
          Reason.resource_conflict now e))

persist_updated-LeavesRows :
    (g : Platform) (actor : User) (t : EventType) (existing updated : User) (now : Time)
    → LeavesRows (persist_updated g actor t existing updated now)
unfolding persist_updated new_user_event update_preserving
persist_updated-LeavesRows g actor t existing updated now =
    >>=-LeavesRows _ _
      (new_actor_event-db g actor t Outcome.success TargetType.user_target updated.id
        updated.username Reason.no_reason updated.updated_at)
      (λ event.
        catch-LeavesRows_last _ _ updated (transaction-RollsBack _)
          (λ e. deny_or_fail-Logs User g actor t existing (user_change_denial_reason e) now e))

-- A guard that denies the call.
guarded-LeavesRows :
    (A : Type 0) (b : Bool) (g : Platform) (actor : User) (t : EventType) (target : User)
    (r : Reason) (now : Time) (e : Error) (m : Action World A)
    → LeavesRows m
    → LeavesRows (if b then record_denied_change g actor t target r now e else m)
guarded-LeavesRows A true g actor t target r now e m h =
    denied-LeavesRows A g actor t target r now e
guarded-LeavesRows A false g actor t target r now e m h = h

create_user-LeavesRows :
    (g : Platform) (actor : User) (id : Text) (input : UserInput) (now : Time)
    → LeavesRows (create_user g actor id input now)
unfolding create_user
create_user-LeavesRows g actor id input now =
    validated-LeavesRows User (new_user g id input.username input.display_name input.role now) _ _
      (record_denied_change-Logs User g actor EventType.user_created
        (safe_user_target g id input.username) Reason.invalid_input now)
      (λ user. persist_created-LeavesRows g actor user now)

update_existing-LeavesRows :
    (g : Platform) (actor existing : User) (input : UserInput) (now : Time)
    → LeavesRows (update_existing g actor existing input now)
unfolding update_existing
update_existing-LeavesRows g actor existing input now =
    validated-LeavesRows User
      (update_details g existing input.username input.display_name input.role now) _ _
      (record_denied_change-Logs User g actor EventType.user_updated existing Reason.invalid_input
        now)
      (λ updated.
        guarded-LeavesRows User
          (text_eq actor.id existing.id && is_admin existing.role && not (is_admin updated.role)) g
          actor EventType.user_updated existing Reason.self_lockout now (self_lockout ∷ []) _
          (persist_updated-LeavesRows g actor EventType.user_updated existing updated now))

unless-LeavesRows :
    (b : Bool) (u : User) (m : Action World User)
    → LeavesRows m
    → LeavesRows (if b then pure u else m)
unless-LeavesRows true u m h = λ w e v k. ground (arith, k)
unless-LeavesRows false u m h = h

activate_existing-LeavesRows :
    (g : Platform) (actor existing : User) (active : Bool) (now : Time)
    → LeavesRows (activate_existing g actor existing active now)
unfolding activate_existing
activate_existing-LeavesRows g actor existing active now =
    guarded-LeavesRows User (text_eq actor.id existing.id && is_admin existing.role && not active) g
      actor (activation_type active) existing Reason.self_lockout now (self_lockout ∷ []) _
      (unless-LeavesRows (same_bool existing.active active) existing _ (
        validated-LeavesRows User (set_active existing active now) _ _
          (record_denied_change-Logs User g actor (activation_type active) existing
            Reason.invalid_input now)
          (λ updated.
            persist_updated-LeavesRows g actor (activation_type active) existing updated now)))

with_user-LeavesRows :
    (g : Platform) (actor : User) (t : EventType) (id username : Text) (now : Time)
    (continue : User → Action World User)
    → ((existing : User) → LeavesRows (continue existing))
    → LeavesRows (with_user g actor t id username now continue)
unfolding with_user
with_user-LeavesRows g actor t id username now continue rest =
    guarded-LeavesRows User _ g actor t (safe_user_target g id username) Reason.invalid_input now
      (invalid_user_id ∷ []) _
      (catch-LeavesRows_first (find_user_by_id id) _ continue (find_user_by_id-KeepsTables id)
        (λ e.
          if_denied-Logs User (is user_not_found e) g actor t (safe_user_target g id username)
            Reason.unknown_target now e)
        rest)

delete_user-LeavesRows :
    (g : Platform) (actor : User) (id : Text) (now : Time) → LeavesRows (delete_user g actor id now)
unfolding delete_user deny_deletion delete_preserving
delete_user-LeavesRows g actor id now w =
    let removal =
      catch-LeavesRows_last (delete_preserving g id (some (deletion_event g actor now)))
        (deny_deletion g actor (safe_user_target g id []) now) tt (transaction-RollsBack _)
        (λ e v.
          deny_or_fail-Logs (Unit {0}) g actor EventType.user_deleted
            (selected_or (safe_user_target g id []) v.selected) (user_deletion_denial_reason e) now
            e v)
        (record w { selected = none }) in
    elim (Bool-cases (not (canonical_uuid g id))) [
      | inl q ↦ rw q (
          denied-LeavesRows (Unit {0}) g actor EventType.user_deleted (safe_user_target g id [])
            Reason.invalid_input now (invalid_user_id ∷ []) w)
      | inr q ↦ rw q (elim (Bool-cases (text_eq actor.id id)) [
        | inl p ↦ rw p (
            denied-LeavesRows (Unit {0}) g actor EventType.user_deleted actor Reason.self_deletion
              now (self_deletion ∷ []) w)
        | inr p ↦ rw p removal
      ])
    ]

-- The requests of the user service that change users.
pub data UserRequest : Type 0 where
  creates : Text → UserInput → UserRequest
  updates : Text → UserInput → UserRequest
  activates : Text → Bool → UserRequest
  deletes : Text → UserRequest

-- The request is answered by the error.
abbrev pub Fails : Platform → User → Time → UserRequest → World → Error → World → Type 0
Fails g actor now (creates id input) w e v = create_user g actor id input now w ≡ (err e, v)
Fails g actor now (updates id input) w e v = update_user_service g actor id input now w ≡ (err e, v)
Fails g actor now (activates id active) w e v = set_user_active g actor id active now w ≡ (err e, v)
Fails g actor now (deletes id) w e v = delete_user g actor id now w ≡ (err e, v)

-- A `CreateUser`, `UpdateUser`, `SetUserActive` or `DeleteUser` that returns an error, because it was
-- denied or because the driver failed at whatever statement, has changed no table but that of the
-- events, and has added one event at most.
pub failed_request-IsLogged :
    (g : Platform) (actor : User) (now : Time) (request : UserRequest) (w : World) (e : Error)
    (v : World)
    → Fails g actor now request w e v
    → IsLogged w.db v.db
unfolding update_user_service set_user_active
failed_request-IsLogged g actor now (creates id input) w e v h =
    create_user-LeavesRows g actor id input now w e v h
failed_request-IsLogged g actor now (updates id input) w e v h =
    with_user-LeavesRows g actor EventType.user_updated id input.username now _
      (λ existing. update_existing-LeavesRows g actor existing input now) w e v h
failed_request-IsLogged g actor now (activates id active) w e v h =
    with_user-LeavesRows g actor (activation_type active) id [] now _
      (λ existing. activate_existing-LeavesRows g actor existing active now) w e v h
failed_request-IsLogged g actor now (deletes id) w e v h =
    delete_user-LeavesRows g actor id now w e v h
