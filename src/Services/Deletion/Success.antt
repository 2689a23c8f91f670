-- ===== src/Services/Deletion/Success.antt =====
-- internal/application/media/managed_deletion.go: what a successful `DeleteItem` has done.
use go_mediaarchive.Base.{
  ◌≡◌, ◌≢◌, sym, ap, subst, ◌∙◌, inl, inr, not, ◌&&◌, some, ◌++◌, arith, any,
}
use go_mediaarchive.Go.Text.{Text, text_eq}
use go_mediaarchive.Go.Time.{Time}
use go_mediaarchive.Go.Failure.{ok, Error, is, item_not_found}
use go_mediaarchive.Go.Action.{pure, fail}
use go_mediaarchive.Identity.Username.{Platform}
use go_mediaarchive.Identity.User.{User}
use go_mediaarchive.Media.Grant.{Item}
use go_mediaarchive.Content.{Location}
use go_mediaarchive.Audit.Kinds.{EventType, Outcome, TargetType, Reason}
use go_mediaarchive.Audit.{Event}
use go_mediaarchive.Store.Tables.{Database, World}
use go_mediaarchive.Store.Statements.Success.{Succeeds, >>=-Succeeds}
use go_mediaarchive.Store.Items.{delete_item, delete_managed}
use go_mediaarchive.Store.Items.Removal.{ItemRemoved, delete_item-Succeeds, delete_managed-Succeeds}
use go_mediaarchive.Store.Users.Effects.{Recorded}
use go_mediaarchive.Services.Events.Keeps.{append_and_fail-err, new_actor_event-db, catch-cases}
use go_mediaarchive.Services.Users.Changes.{catch-Succeeds}
use go_mediaarchive.Services.Media.{new_deletion_event, record_deletion_event, delete_metadata}
use go_mediaarchive.Services.Media.Access.{mask-err}
use go_mediaarchive.Services.Media.Files.{new_deletion_event-KeepsFiles, delete_managed-KeepsFiles}
use go_mediaarchive.Services.Upload.{ContentStore}
use go_mediaarchive.Services.Deletion.{
  record_failure, restore, finish_deletion, delete_staged, delete_content,
}
use go_mediaarchive.Services.Deletion.Failures.{IsDeletionStore, Hidden, Hidden-files}
use go_mediaarchive.Services.Deletion.Outcomes.{Same}

-- The item's rows are gone, and one event is new.
abbrev pub Deletes : Platform → Text → Database → Database → Type 0
Deletes g id before after =
    (event : Event) × (db : Database) × ItemRemoved id before db × Recorded g (some event) db after

record_failure-err :
    (g : Platform) (actor : User) (item : Item) (at : Time) (e : Error) (w : World)
    → (record_failure g actor item at e w).0 ≢ ok tt
unfolding record_failure record_deletion_event
record_failure-err g actor item at e w h =
    append_and_fail-err g
      (new_deletion_event g actor item.id item.title Outcome.failure Reason.operation_failure at) e
      w tt h

restore-err :
    (s : ContentStore) (g : Platform) (actor : User) (item : Item) (key : Text) (later : Time)
    (e : Error) (w : World)
    → (restore s g actor item key later e w).0 ≢ ok tt
unfolding restore
restore-err s g actor item key later e w h =
    elim (catch-cases (s.rollback_delete key) (λ x. record_failure g actor item later (e ++ x))
      (λ _. fail {A = Unit {0}} e) w) [
        | inl (x, v, _, handled) ↦
            record_failure-err g actor item later (e ++ x) v (ap (λ p. p.0) (sym handled) ∙ h)
        | inr (_, v, _, returned) ↦ ground (arith, h, returned)
      ]

event_db :
    (g : Platform) (actor : User) (item : Item) (now : Time) (w : World)
    → (new_deletion_event g actor item.id item.title Outcome.success Reason.no_reason now w).1.db
      ≡ w.db
unfolding new_deletion_event
event_db g actor item now =
    new_actor_event-db g actor EventType.media_deleted Outcome.success TargetType.media_target
      item.id item.title Reason.no_reason now

pub delete_metadata-Succeeds :
    (g : Platform) (actor : User) (item : Item) (now : Time) (w v : World)
    → Succeeds (delete_metadata g actor item now) w tt v
    → Deletes g item.id w.db v.db
unfolding delete_metadata
delete_metadata-Succeeds g actor item now w v h =
    let (event, x, made, rest) = >>=-Succeeds _ _ w tt v h in
    let (_, y, deleted, returned) =
      catch-Succeeds (delete_item g item.id (some event)) _ (λ _. pure tt) x tt v
        (λ e z. mask-err (is item_not_found e) e z tt) rest in
    let (db, removed, recorded) = delete_item-Succeeds g item.id event x y deleted in
    let same : x.db ≡ w.db = ap (λ p. p.1.db) (sym made) ∙ event_db g actor item now w in
    (
      event,
      db,
      subst (λ d. ItemRemoved item.id d db) same removed,
      subst (Recorded g (some event) db) (ap (λ p. p.1.db) returned) recorded,
    )

finish_deletion-Succeeds :
    (s : ContentStore)
    → IsDeletionStore s
    → (g : Platform) (actor : User) (item : Item) (key : Text) (later : Time) (w v : World)
    → Succeeds (finish_deletion s g actor item key later) w tt v
    → Same w v
unfolding finish_deletion
finish_deletion-Succeeds s laws g actor item key later w v h =
    let (_, y, done, returned) =
      catch-Succeeds (s.commit_delete key) _ (λ _. pure tt) w tt v
        (λ e z. record_failure-err g actor item later e z) h in
    (
      ap (λ p. p.1.db) (sym returned) ∙ ap (λ p. p.1.db) (sym done) ∙ laws.commit_db key w,
      ap (λ p. p.1.files) (sym returned) ∙ ap (λ p. p.1.files) (sym done) ∙ laws.commit_files key w,
    )

pub delete_content-Succeeds :
    (s : ContentStore)
    → IsDeletionStore s
    → (g : Platform) (actor : User) (id : Text) (item : Item) (now later : Time) (l : Location)
      (w v : World)
    → Succeeds (delete_content s g actor id item now later l) w tt v
    → Deletes g id w.db v.db × Hidden l.storage_key w v
unfolding delete_content delete_staged
delete_content-Succeeds s laws g actor id item now later l w v h =
    let (event, x, made, r1) = >>=-Succeeds _ _ w tt v h in
    let (_, y, hid, r2) =
      catch-Succeeds (s.stage_delete l.storage_key) _
        (λ _. delete_staged s g actor id item l.storage_key event later) x tt v
        (λ e z. record_failure-err g actor item now e z) r1 in
    let (_, z, deleted, r3) =
      catch-Succeeds (delete_managed g id l.storage_key (some event))
        (restore s g actor item l.storage_key later)
        (λ _. finish_deletion s g actor item l.storage_key later) y tt v
        (λ e u. restore-err s g actor item l.storage_key later e u) r2 in
    let (_, hidden) = laws.stage_ok l.storage_key x y hid in
    let (db, removed, recorded) = delete_managed-Succeeds g id l.storage_key event y z deleted in
    let (ended, kept) = finish_deletion-Succeeds s laws g actor item l.storage_key later z v r3 in
    let same : y.db ≡ w.db =
      ap (λ p. p.1.db) (sym hid)
      ∙ laws.stage_db l.storage_key x
      ∙ ap (λ p. p.1.db) (sym made)
      ∙ event_db g actor item now w in
    let before : x.files ≡ w.files =
      ap (λ p. p.1.files) (sym made)
      ∙ new_deletion_event-KeepsFiles g actor item.id item.title Outcome.success Reason.no_reason
          now w in
    let after : v.files ≡ y.files =
      kept
      ∙ ap (λ p. p.1.files) (sym deleted)
      ∙ delete_managed-KeepsFiles g id l.storage_key event y in
    (
      (
        event,
        db,
        subst (λ d. ItemRemoved id d db) same removed,
        subst (Recorded g (some event) db) (sym ended) recorded,
      ),
      Hidden-files l.storage_key w y v
          (λ k.
            hidden k ∙ ap (λ fs. not (text_eq k l.storage_key) && any (λ r. text_eq r k) fs) before)
          after,
    )
