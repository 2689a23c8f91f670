-- ===== src/Services/Grants/Changes.antt =====
-- internal/application/media/grants.go: what a successful change of a grant has done.
use go_mediaarchive.Base.{
  ℕ, ◌≡◌, ◌≢◌, sym, ap, subst, ◌∙◌, Bool, Bool-cases, true, false, inl, inr, some, [], ◌∷◌, arith,
  find,
}
use go_mediaarchive.Go.Text.{Text, text_eq}
use go_mediaarchive.Go.Time.{Time}
use go_mediaarchive.Go.Failure.{
  Result, ok, err, Error, is, user_not_found, media_not_found, owner_grant, inactive_grantee,
}
use go_mediaarchive.Identity.Username.{Platform}
use go_mediaarchive.Identity.User.{User}
use go_mediaarchive.Media.Permission.{share}
use go_mediaarchive.Media.Grant.{Item, Grant, new_grant}
use go_mediaarchive.Audit.Kinds.{EventType, Outcome, TargetType, Reason}
use go_mediaarchive.Audit.{Event}
use go_mediaarchive.Store.Tables.{Database, World}
use go_mediaarchive.Store.Statements.Success.{
  Succeeds, >>=-Succeeds, exec-Succeeds, transaction-Succeeds,
}
use go_mediaarchive.Store.Users.{find_user_by_id}
use go_mediaarchive.Store.Users.Effects.{
  Recorded, insert_optional_event-Succeeds, find_user_by_id-Succeeds,
}
use go_mediaarchive.Store.Grants.{put_grant, save_grant, remove_grant, delete_grant}
use go_mediaarchive.Store.Items.Reading.{Stored}
use go_mediaarchive.Services.Events.Keeps.{append_and_fail-err, new_actor_event-db}
use go_mediaarchive.Services.Users.Changes.{catch-Succeeds}
use go_mediaarchive.Services.Media.Access.{MayUse, authorize_item-Succeeds}
use go_mediaarchive.Services.Grants.{
  grant_target_id, new_grant_event, record_grant_event, shared_item, deny_grant, store_grant,
  replace_for, replace_with, replace_shared, replace_grant,
}

pub record_grant_event-err :
    {A : Type 0} (g : Platform) (actor : User) (t : EventType) (id : Text) (r : Reason) (now : Time)
    (e : Error) (w : World) (a : A)
    → (record_grant_event g actor t id r now e w).0 ≢ ok a
unfolding record_grant_event
record_grant_event-err g actor t id r now e w a h =
    append_and_fail-err g (new_grant_event g actor t id Outcome.denied r now) e w a h

pub deny_grant-err :
    {A : Type 0} (g : Platform) (actor : User) (t : EventType) (id : Text) (now : Time) (b : Bool)
    (e : Error) (w : World) (a : A)
    → (deny_grant g actor t id now b e w).0 ≢ ok a
unfolding deny_grant
deny_grant-err g actor t id now false e w a h = cc
deny_grant-err g actor t id now true e w a h =
    record_grant_event-err g actor t id Reason.unknown_target now e w a h

save_grant-Succeeds :
    (g : Platform) (grant : Grant) (event : Event) (w w' : World)
    → Succeeds (save_grant g grant (some event)) w tt w'
    → (db : Database) × (put_grant grant w.db ≡ ok db) × Recorded g (some event) db w'.db
unfolding save_grant
save_grant-Succeeds g grant event w w' h =
    let (_, x, valid, rest) = >>=-Succeeds _ _ w tt w' h in
    let (u, v, same, _, body, after, _) = transaction-Succeeds _ x tt w' rest in
    let (_, y, put, recorded) = >>=-Succeeds _ _ u tt v body in
    let p = exec-Succeeds (put_grant grant) u y put in
    let r = insert_optional_event-Succeeds g (some event) y v recorded in
    let whole = same ∙ sym (ap (λ q. q.1.db) valid) in
    (
      y.db,
      subst (λ d. put_grant grant d ≡ ok y.db) whole p.0,
      subst (Recorded g (some event) y.db) (sym after) r,
    )

pub delete_grant-Succeeds :
    (g : Platform) (media_id user_id : Text) (event : Event) (w w' : World)
    → Succeeds (delete_grant g media_id user_id (some event)) w tt w'
    → (db : Database) × (remove_grant media_id user_id w.db ≡ ok db)
      × Recorded g (some event) db w'.db
unfolding delete_grant
delete_grant-Succeeds g media_id user_id event w w' h =
    let (u, v, same, _, body, after, _) = transaction-Succeeds _ w tt w' h in
    let (_, y, removed, recorded) = >>=-Succeeds _ _ u tt v body in
    let p = exec-Succeeds (remove_grant media_id user_id) u y removed in
    let r = insert_optional_event-Succeeds g (some event) y v recorded in
    (
      y.db,
      subst (λ d. remove_grant media_id user_id d ≡ ok y.db) same p.0,
      subst (Recorded g (some event) y.db) (sym after) r,
    )

pub new_grant_event-db :
    (g : Platform) (actor : User) (t : EventType) (id : Text) (o : Outcome) (r : Reason)
    (now : Time) (w : World)
    → (new_grant_event g actor t id o r now w).1.db ≡ w.db
unfolding new_grant_event
new_grant_event-db g actor t id o r now w =
    new_actor_event-db g actor t o TargetType.grant_target id [] r now w

store_grant-Succeeds :
    (g : Platform) (actor : User) (grant : Grant) (now : Time) (w : World) (r : Grant) (w' : World)
    → Succeeds (store_grant g actor grant now) w r w'
    → (r ≡ grant)
      × ((event : Event) × (db : Database) × (put_grant grant w.db ≡ ok db)
          × Recorded g (some event) db w'.db)
unfolding store_grant
store_grant-Succeeds g actor grant now w r w' h =
    let (event, v, made, rest) = >>=-Succeeds _ _ w r w' h in
    let (_, x, saved, returned) = >>=-Succeeds _ _ v r w' rest in
    let (db, put, recorded) = save_grant-Succeeds g grant event v x saved in
    let same : v.db ≡ w.db =
      sym (ap (λ p. p.1.db) made)
      ∙ new_grant_event-db g actor EventType.media_grant_replaced
          (grant_target_id grant.media_id grant.user_id) Outcome.success Reason.no_reason now w in
    (
      ground (arith, returned),
      (
        event,
        db,
        subst (λ d. put_grant grant d ≡ ok db) same put,
        subst (Recorded g (some event) db) (ap (λ p. p.1.db) returned) recorded,
      ),
    )

-- What `ReplaceGrant` has done once the item is known.
abbrev pub Replaced : Platform → Grant → Database → Database → Type 0
Replaced g grant before after =
    ((user : User) × (find (λ u. text_eq u.id grant.user_id) before.users ≡ some user)
      × (user.active ≡ true))
    × ((event : Event) × (db : Database) × (put_grant grant before ≡ ok db)
        × Recorded g (some event) db after)

replace_for-active :
    (g : Platform) (actor : User) (grant : Grant) (now : Time) (user : User) (w : World) (r : Grant)
    (w' : World)
    → Succeeds (replace_for g actor grant now user) w r w'
    → (user.active ≡ true) × Succeeds (store_grant g actor grant now) w r w'
unfolding replace_for
replace_for-active g actor grant now user w r w' h = elim (Bool-cases user.active) [
  | inl q ↦ (q, ground (arith, h, q))
  | inr q ↦ ground (
    arith,
    h,
    q,
    record_grant_event-err g actor EventType.media_grant_replaced
        (grant_target_id grant.media_id grant.user_id) Reason.inactive_user now
        (inactive_grantee ∷ []) w r,
  )
]

replace_with-Succeeds :
    (g : Platform) (actor : User) (now : Time) (grant : Grant) (w : World) (r : Grant) (w' : World)
    → Succeeds (replace_with g actor now (ok grant)) w r w'
    → (r ≡ grant) × Replaced g grant w.db w'.db
unfolding replace_with
replace_with-Succeeds g actor now grant w r w' h =
    let (user, x, read, rest) =
      catch-Succeeds (find_user_by_id grant.user_id) _ (replace_for g actor grant now) w r w'
        (λ e z.
          deny_grant-err g actor EventType.media_grant_replaced
            (grant_target_id grant.media_id grant.user_id) now (is user_not_found e) e z r)
        h in
    let (active, stores) = replace_for-active g actor grant now user x r w' rest in
    let (found, same, _) = find_user_by_id-Succeeds grant.user_id w user x read in
    let (returned, (event, db, put, recorded)) =
      store_grant-Succeeds g actor grant now x r w' stores in
    (
      returned,
      (
        (user, found, active),
        (event, db, subst (λ d. put_grant grant d ≡ ok db) same put, recorded),
      ),
    )

replace_with-ok :
    (g : Platform) (actor : User) (now : Time) (made : Result Grant) (w : World) (r : Grant)
    (w' : World)
    → Succeeds (replace_with g actor now made) w r w'
    → (made ≡ ok r) × Replaced g r w.db w'.db
unfolding replace_with
replace_with-ok g actor now (err e) w r w' h =
    elim (record_grant_event-err g actor EventType.media_grant_replaced [] Reason.invalid_input now
      e w r (ap (λ p. p.0) h)) [ ]
replace_with-ok g actor now (ok grant) w r w' h =
    let (same, replaced) = replace_with-Succeeds g actor now grant w r w' h in
    (ap ok (sym same), subst (λ x. Replaced g x w.db w'.db) (sym same) replaced)

replace_shared-Succeeds :
    (g : Platform) (actor : User) (media_id user_id : Text) (p : ℕ) (now : Time) (item : Item)
    (w : World) (r : Grant) (w' : World)
    → Succeeds (replace_shared g actor media_id user_id p now item) w r w'
    → (text_eq user_id item.owner_id ≡ false)
      × (new_grant g media_id user_id p ≡ ok r)
      × Replaced g r w.db w'.db
unfolding replace_shared
replace_shared-Succeeds g actor media_id user_id p now item w r w' h =
    elim (Bool-cases (text_eq user_id item.owner_id)) [
      | inl q ↦ ground (
        arith,
        h,
        q,
        record_grant_event-err g actor EventType.media_grant_replaced
            (grant_target_id media_id user_id) Reason.resource_conflict now (owner_grant ∷ []) w r,
      )
      | inr q ↦
          let (made, replaced) =
            replace_with-ok g actor now (new_grant g media_id user_id p) w r w'
              (ground (arith, h, q)) in
          (q, made, replaced)
    ]

-- A successful `ReplaceGrant` came from an active user who owns the stored item or has a grant to
-- share it. The grant that it returns is the valid one of its arguments, for an active stored user who
-- does not own the item. The tables change by that grant, which replaces a stored one of the same item
-- and user, and by one event.
pub replace_grant-Succeeds :
    (g : Platform) (actor : User) (media_id user_id : Text) (p : ℕ) (now : Time) (w : World)
    (r : Grant) (w' : World)
    → Succeeds (replace_grant g actor media_id user_id p now) w r w'
    → (item : Item) × Stored g media_id w.db item
      × (actor.active ≡ true)
      × MayUse actor item share w.db
      × (text_eq user_id item.owner_id ≡ false)
      × (new_grant g media_id user_id p ≡ ok r)
      × Replaced g r w.db w'.db
unfolding replace_grant shared_item
replace_grant-Succeeds g actor media_id user_id p now w r w' h =
    let (item, x, read, rest) =
      catch-Succeeds (shared_item g actor media_id) _
        (replace_shared g actor media_id user_id p now) w r w'
        (λ e z.
          deny_grant-err g actor EventType.media_grant_replaced [] now (is media_not_found e) e z r)
        h in
    let (stored, active, may, same) =
      authorize_item-Succeeds g actor media_id share w item x read in
    let (another, valid, replaced) =
      replace_shared-Succeeds g actor media_id user_id p now item x r w' rest in
    (item, stored, active, may, another, valid, subst (λ d. Replaced g r d w'.db) same replaced)
