-- ===== src/Services/Deletion/Results.antt =====
-- internal/application/media/managed_deletion.go: `DeleteItem` as a whole.
use go_mediaarchive.Base.{
  ◌≡◌, ◌≢◌, refl, sym, ap, subst, ◌∙◌, inl, inr, Bool, true, false, some, [], arith, find,
}
use go_mediaarchive.Go.Text.{Text, text_eq}
use go_mediaarchive.Go.Time.{Time}
use go_mediaarchive.Go.Failure.{
  Result, ok, err, Error, is, item_not_found, location_not_found, media_not_found,
}
use go_mediaarchive.Go.Action.{pure, catch}
use go_mediaarchive.Identity.Username.{Platform}
use go_mediaarchive.Identity.User.{User}
use go_mediaarchive.Media.Permission.{delete}
use go_mediaarchive.Media.Grant.{Item}
use go_mediaarchive.Audit.Kinds.{EventType, Outcome, TargetType, Reason}
use go_mediaarchive.Audit.{Event}
use go_mediaarchive.Store.Tables.{Database, World}
use go_mediaarchive.Store.Statements.{query}
use go_mediaarchive.Store.Statements.Files.{query-KeepsFiles, >>=-KeepsFiles}
use go_mediaarchive.Store.Statements.Atomicity.{statement_keeps}
use go_mediaarchive.Store.Statements.Rollback.{
  KeepsTables, RollsBack, transaction-RollsBack, >>=-KeepsTables, >>=-fails,
}
use go_mediaarchive.Store.Items.{delete_item}
use go_mediaarchive.Store.Contents.{find_location, one_location}
use go_mediaarchive.Services.Events.Keeps.{
  same_rows, SameButEvents, KeepsRows, append_and_fail-KeepsRows, append_and_fail-err,
  new_actor_event-db, catch-cases,
}
use go_mediaarchive.Services.Media.{
  mask, new_deletion_event, record_deletion_event, deny_media_deletion, authorize_item,
  authorize_deletion, delete_metadata,
}
use go_mediaarchive.Services.Media.Access.{authorize_item-KeepsTables}
use go_mediaarchive.Services.Media.Files.{authorize_deletion-KeepsFiles, delete_metadata-KeepsFiles}
use go_mediaarchive.Services.Upload.{ContentStore}
use go_mediaarchive.Services.Deletion.{
  delete_content, without_content, delete_authorized, delete_managed_item,
}
use go_mediaarchive.Services.Deletion.Failures.{IsDeletionStore, Left}
use go_mediaarchive.Services.Deletion.Outcomes.{Same, unchanged, delete_content-Left}

query-KeepsTables : {A : Type 0} (f : Database → Result A) → KeepsTables (query f)
unfolding query
query-KeepsTables f w = ground (arith, statement_keeps w)

pub find_location-Same : (g : Platform) (id : Text) (w : World) → Same w (find_location g id w).1
unfolding find_location
find_location-Same g id w = (
  >>=-KeepsTables (query (λ db. one_location (find (λ c. text_eq c.media_id id) db.contents))) _
      (query-KeepsTables (λ db. one_location (find (λ c. text_eq c.media_id id) db.contents)))
      (λ row z. refl) w,
  >>=-KeepsFiles (query (λ db. one_location (find (λ c. text_eq c.media_id id) db.contents))) _
      (query-KeepsFiles (λ db. one_location (find (λ c. text_eq c.media_id id) db.contents)))
      (λ row z. refl) w,
)

pub mask-same : (b : Bool) (e : Error) (w : World) → (mask {A = Unit {0}} b e w).1 ≡ w
unfolding mask
mask-same true e w = refl
mask-same false e w = refl

delete_item-RollsBack :
    (g : Platform) (id : Text) (event : Event) → RollsBack (delete_item g id (some event))
unfolding delete_item
delete_item-RollsBack g id event = transaction-RollsBack _

delete_masked-RollsBack :
    (g : Platform) (id : Text) (event : Event)
    → RollsBack
        (catch (delete_item g id (some event)) (λ e. mask (is item_not_found e) e) (λ _. pure tt))
delete_masked-RollsBack g id event w e v h =
    elim (catch-cases (delete_item g id (some event)) (λ e. mask (is item_not_found e) e)
      (λ _. pure tt) w) [
        | inl (x, z, failed, handled) ↦
            ap (λ p. p.1.db) (sym h ∙ handled)
            ∙ ap (λ s. s.db) (mask-same (is item_not_found x) x z)
            ∙ delete_item-RollsBack g id event w x z failed
        | inr (_, z, done, returned) ↦ ground (arith, h, returned)
      ]

delete_metadata-RollsBack :
    (g : Platform) (actor : User) (item : Item) (now : Time)
    → RollsBack (delete_metadata g actor item now)
unfolding delete_metadata new_deletion_event
delete_metadata-RollsBack g actor item now w e v h =
    elim (>>=-fails
      (new_deletion_event g actor item.id item.title Outcome.success Reason.no_reason now) _ w e v
      h) [
        | inl failed ↦ ap (λ p. p.1.db) (sym failed) ∙ made w
        | inr (event, u, done, failed) ↦
            delete_masked-RollsBack g item.id event u e v failed
            ∙ ap (λ p. p.1.db) (sym done)
            ∙ made w
      ]
  where
    made :
        KeepsTables
          (new_deletion_event g actor item.id item.title Outcome.success Reason.no_reason now)
    made =
        new_actor_event-db g actor EventType.media_deleted Outcome.success TargetType.media_target
          item.id item.title Reason.no_reason now

without_content-Left :
    (s : ContentStore) (g : Platform) (actor : User) (id : Text) (item : Item) (now : Time)
    (b : Bool) (y : Error) (w u : World) (x : Error) (v : World)
    → Same w u
    → without_content g actor item now b y u ≡ (err x, v)
    → Left s id w v
unfolding without_content
without_content-Left s g actor id item now true y w u x v (tables, files) h =
    unchanged s id w v
      (same_rows w.db v.db (delete_metadata-RollsBack g actor item now u x v h ∙ tables))
      (ap (λ p. p.1.files) (sym h) ∙ delete_metadata-KeepsFiles g actor item now u ∙ files)
without_content-Left s g actor id item now false y w u x v (tables, files) h =
    unchanged s id w v (same_rows w.db v.db (ap (λ p. p.1.db) (sym h) ∙ tables))
      (ap (λ p. p.1.files) (sym h) ∙ files)

delete_authorized-Left :
    (s : ContentStore)
    → IsDeletionStore s
    → (g : Platform) (actor : User) (id : Text) (now later : Time) (item : Item) (w u : World)
      (x : Error) (v : World)
    → Same w u
    → delete_authorized s g actor id now later item u ≡ (err x, v)
    → Left s id w v
unfolding delete_authorized
delete_authorized-Left s laws g actor id now later item w u x v (tables, files) h =
    elim (catch-cases (find_location g id)
      (λ e. without_content g actor item now (is location_not_found e) e)
      (delete_content s g actor id item now later) u) [
        | inl (e, z, failed, handled) ↦
            without_content-Left s g actor id item now (is location_not_found e) e w z x v
              (subst (λ p. Same w p.1) failed read) (sym handled ∙ h)
        | inr (l, z, found, went_on) ↦
            delete_content-Left s laws g actor id item now later l w z v x
              (subst (λ p. Same w p.1) found read) (sym went_on ∙ h)
      ]
  where
    read : Same w (find_location g id u).1
    read = let (t, f) = find_location-Same g id u in (t ∙ tables, f ∙ files)

deny_media_deletion-KeepsRows :
    (g : Platform) (actor : User) (now : Time) (b : Bool) (e : Error)
    → KeepsRows (deny_media_deletion g actor now b e)
unfolding deny_media_deletion record_deletion_event new_deletion_event
deny_media_deletion-KeepsRows g actor now false e w = same_rows w.db w.db refl
deny_media_deletion-KeepsRows g actor now true e w =
    append_and_fail-KeepsRows Item g _ e
      (new_actor_event-db g actor EventType.media_deleted Outcome.denied TargetType.media_target []
        [] Reason.unknown_target now)
      w

pub deny_media_deletion-err :
    (g : Platform) (actor : User) (now : Time) (b : Bool) (e : Error) (w : World) (i : Item)
    → (deny_media_deletion g actor now b e w).0 ≢ ok i
unfolding deny_media_deletion record_deletion_event
deny_media_deletion-err g actor now false e w i h = cc
deny_media_deletion-err g actor now true e w i h =
    append_and_fail-err g
      (new_deletion_event g actor [] [] Outcome.denied Reason.unknown_target now) e w i h

-- A deletion that is authorized has changed no table; one that is not, that of the events at most.
authorize_deletion-rows :
    (g : Platform) (actor : User) (id : Text) (now : Time) (w : World)
    → ((e : Error) (v : World)
        → authorize_deletion g actor id now w ≡ (err e, v)
        → SameButEvents w.db v.db)
      × ((i : Item) (v : World) → authorize_deletion g actor id now w ≡ (ok i, v) → v.db ≡ w.db)
unfolding authorize_deletion
authorize_deletion-rows g actor id now w =
    elim (catch-cases (authorize_item g actor id delete)
      (λ e. deny_media_deletion g actor now (is media_not_found e) e) pure w) [
        | inl (x, z, failed, handled) ↦ (
          (λ e v h.
              subst (λ p. SameButEvents w.db p.1.db) (sym handled ∙ h) (denied x z (same failed))),
          (λ i v h. elim (deny_err x z i (ap (λ p. p.0) (sym handled ∙ h))) [ ]),
        )
        | inr (i, z, done, returned) ↦ (
          (λ e v h. ground (arith, h, returned)),
          (λ j v h. ap (λ p. p.1.db) (sym h ∙ returned) ∙ same done),
        )
      ]
  where
    denied :
        (x : Error) (z : World)
        → z.db ≡ w.db
        → SameButEvents w.db (deny_media_deletion g actor now (is media_not_found x) x z).1.db
    denied x z q =
        subst
          (λ d. SameButEvents d (deny_media_deletion g actor now (is media_not_found x) x z).1.db) q
          (deny_media_deletion-KeepsRows g actor now (is media_not_found x) x z)

    same : {r : Result Item} {z : World} → authorize_item g actor id delete w ≡ (r, z) → z.db ≡ w.db
    same q = ap (λ p. p.1.db) (sym q) ∙ authorize_item-KeepsTables g actor id delete w

    deny_err :
        (x : Error) (z : World) (i : Item)
        → (deny_media_deletion g actor now (is media_not_found x) x z).0 ≢ ok i
    deny_err x z i = deny_media_deletion-err g actor now (is media_not_found x) x z i

-- A managed deletion that returns an error, over a content store that keeps to its interface, has
-- changed no table but that of the events and published the same keys; or the store has failed to
-- restore a hidden file whose records are all there; or it has failed to remove a hidden file whose
-- item, with its authors, grants and content row, is gone.
pub delete_managed_item-Left :
    (s : ContentStore)
    → IsDeletionStore s
    → (g : Platform) (actor : User) (id : Text) (now later : Time) (w : World) (e : Error)
      (v : World)
    → delete_managed_item s g actor id now later w ≡ (err e, v)
    → Left s id w v
unfolding delete_managed_item
delete_managed_item-Left s laws g actor id now later w e v h =
    let (denied, allowed) = authorize_deletion-rows g actor id now w in
    let files = authorize_deletion-KeepsFiles g actor id now w in
    elim (>>=-fails (authorize_deletion g actor id now) (delete_authorized s g actor id now later) w
      e v h) [
        | inl failed ↦
            unchanged s id w v (denied e v failed) (ap (λ p. p.1.files) (sym failed) ∙ files)
        | inr (item, u, done, failed) ↦
            delete_authorized-Left s laws g actor id now later item w u e v
              (allowed item u done, ap (λ p. p.1.files) (sym done) ∙ files) failed
      ]
