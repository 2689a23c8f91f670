-- ===== src/Services/Users/Removal.antt =====
-- internal/application/users/service.go: what a successful deletion of a user has done.
use go_mediaarchive.Base.{◌≡◌, ◌≢◌, sym, subst, ap, ◌∙◌, true, false, none, some, [], ◌∷◌, arith}
use go_mediaarchive.Go.Text.{Text, text_eq}
use go_mediaarchive.Go.Time.{Time}
use go_mediaarchive.Go.Failure.{ok, Error, invalid_user_id, self_deletion}
use go_mediaarchive.Go.Action.{catch, pure}
use go_mediaarchive.Identity.Username.{Platform, canonical_uuid}
use go_mediaarchive.Identity.User.{User}
use go_mediaarchive.Audit.Kinds.{EventType, Outcome, Reason, TargetType}
use go_mediaarchive.Audit.{Event}
use go_mediaarchive.Store.Tables.{Database, World}
use go_mediaarchive.Store.Statements.Success.{Succeeds}
use go_mediaarchive.Store.Users.{delete_preserving}
use go_mediaarchive.Store.Users.Effects.{Recorded}
use go_mediaarchive.Store.Users.Deletion.{Deleted, LeavesTables, delete_preserving-Succeeds}
use go_mediaarchive.Services.Events.Keeps.{new_actor_event-db}
use go_mediaarchive.Services.Users.{
  deletion_event, deny_deletion, selected_or, user_deletion_denial_reason, new_user_event,
  safe_user_target, delete_user,
}
use go_mediaarchive.Services.Users.Changes.{
  record_denied_change-err, deny_or_fail-err, catch-Succeeds,
}

deletion_event-LeavesTables :
    (g : Platform) (actor : User) (now : Time) → LeavesTables (some (deletion_event g actor now))
unfolding deletion_event new_user_event
deletion_event-LeavesTables g actor now user w =
    new_actor_event-db g actor EventType.user_deleted Outcome.success TargetType.user_target user.id
      user.username Reason.no_reason now (record w { selected = some user })

deny_deletion-err :
    (g : Platform) (actor target : User) (now : Time) (e : Error) (w : World)
    → (deny_deletion g actor target now e w).0 ≢ ok tt
unfolding deny_deletion
deny_deletion-err g actor target now e w h =
    deny_or_fail-err g actor EventType.user_deleted (selected_or target w.selected)
      (user_deletion_denial_reason e) now e w tt h

delete_user-steps :
    (g : Platform) (actor : User) (id : Text) (now : Time) (w : World)
    → (delete_user g actor id now w).0 ≡ ok tt
    → (canonical_uuid g id ≡ true)
      × (text_eq actor.id id ≡ false)
      × (delete_user g actor id now w
          ≡ catch
              (delete_preserving g id (some (deletion_event g actor now)))
              (deny_deletion g actor (safe_user_target g id []) now)
              (λ _. pure tt)
              (record w { selected = none }))
unfolding delete_user
delete_user-steps g actor id now w h =
    let a =
      record_denied_change-err g actor EventType.user_deleted (safe_user_target g id [])
        Reason.invalid_input now (invalid_user_id ∷ []) w tt in
    let b =
      record_denied_change-err g actor EventType.user_deleted actor Reason.self_deletion now
        (self_deletion ∷ []) w tt in
    (ground (arith, a, b), ground (arith, a, b), ground (arith, a, b))

-- A successful `DeleteUser` had a canonical ID, and not that of the account that acts. It removed the
-- row that it found, which is not that of the last active administrator and owns no media, with the
-- records of that user, and changed the tables otherwise by one event row, the one made of the row
-- that it removed.
pub delete_user-Succeeds :
    (g : Platform) (actor : User) (id : Text) (now : Time) (w w' : World)
    → Succeeds (delete_user g actor id now) w tt w'
    → (canonical_uuid g id ≡ true)
      × (text_eq actor.id id ≡ false)
      × ((existing : User) × (db : Database) × Deleted id existing w.db db
          × ((x : World) × (event : Event) × ((deletion_event g actor now existing x).0 ≡ ok event)
              × Recorded g (some event) db w'.db))
delete_user-Succeeds g actor id now w w' h =
    let (canonical, another, steps) = delete_user-steps g actor id now w (ap (λ p. p.0) h) in
    let (_, v, deleted, returned) =
      catch-Succeeds (delete_preserving g id (some (deletion_event g actor now)))
        (deny_deletion g actor (safe_user_target g id []) now) (λ _. pure tt)
        (record w { selected = none }) tt w'
        (deny_deletion-err g actor (safe_user_target g id []) now) (sym steps ∙ h) in
    let (existing, db, removed, (x, recorded_event, (event, same, made), recorded)) =
      delete_preserving-Succeeds g id (some (deletion_event g actor now))
        (record w { selected = none }) v (deletion_event-LeavesTables g actor now) deleted in
    (
      canonical,
      another,
      (
        existing,
        db,
        removed,
        (
          x,
          event,
          made,
          subst (Recorded g (some event) db) (ap (λ p. p.1.db) returned)
              (subst (λ o. Recorded g o db v.db) same recorded),
        ),
      ),
    )
