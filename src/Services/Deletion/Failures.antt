-- ===== src/Services/Deletion/Failures.antt =====
-- internal/application/media/managed_deletion.go: the error branches of `DeleteItem`.
use go_mediaarchive.Base.{
  ◌≡◌, sym, ap, subst, ◌∙◌, ◌⊎◌, inl, inr, Bool, Bool-cases, true, not, ◌&&◌, ◌||◌, ◌++◌, arith,
  any,
}
use go_mediaarchive.Go.Text.{Text, text_eq, text_eq→≡}
use go_mediaarchive.Go.Time.{Time}
use go_mediaarchive.Go.Failure.{err, Error}
use go_mediaarchive.Go.Action.{fail}
use go_mediaarchive.Identity.Username.{Platform}
use go_mediaarchive.Identity.User.{User}
use go_mediaarchive.Media.Grant.{Item}
use go_mediaarchive.Audit.Kinds.{EventType, Outcome, TargetType, Reason}
use go_mediaarchive.Store.Tables.{Database, World}
use go_mediaarchive.Store.Statements.Success.{Succeeds}
use go_mediaarchive.Store.Items.Removal.{ItemRemoved}
use go_mediaarchive.Services.Events.Keeps.{
  same_rows, SameButEvents, append_and_fail-KeepsRows, new_actor_event-db, catch-cases,
}
use go_mediaarchive.Services.Media.{new_deletion_event, record_deletion_event}
use go_mediaarchive.Services.Media.Files.{record_deletion_event-KeepsFiles}
use go_mediaarchive.Services.Upload.{ContentStore}
use go_mediaarchive.Services.Upload.Compensation.{Untouched, SameButEvents_trans}
use go_mediaarchive.Services.Deletion.{record_failure, restore}

-- A file is published under the key.
abbrev pub holds : Text → World → Bool
holds key w = any (λ k. text_eq k key) w.files

abbrev pub SameKeys : World → World → Type 0
SameKeys w v = (k : Text) → holds k v ≡ holds k w

-- The key is no longer published; all others are as they were.
abbrev pub Hidden : Text → World → World → Type 0
Hidden key w v = (k : Text) → holds k v ≡ (not (text_eq k key) && holds k w)

-- What the interface of the content store says of a staged deletion: `StageDelete` hides a published
-- key, `Rollback` publishes it again, and `Commit` removes what is hidden. One that fails has done
-- nothing to the published keys. None touches the tables.
pub record IsDeletionStore (s : ContentStore) : Type 0 where
  pub stage_db : (key : Text) (w : World) → (s.stage_delete key w).1.db ≡ w.db
  pub stage_ok :
      (key : Text) (w v : World)
      → Succeeds (s.stage_delete key) w tt v
      → (holds key w ≡ true) × Hidden key w v
  pub stage_err :
      (key : Text) (w : World) (e : Error) (v : World)
      → s.stage_delete key w ≡ (err e, v)
      → v.files ≡ w.files
  pub rollback_db : (key : Text) (w : World) → (s.rollback_delete key w).1.db ≡ w.db
  pub rollback_ok :
      (key : Text) (w v : World)
      → Succeeds (s.rollback_delete key) w tt v
      → (k : Text) → holds k v ≡ (text_eq k key || holds k w)
  pub rollback_err :
      (key : Text) (w : World) (e : Error) (v : World)
      → s.rollback_delete key w ≡ (err e, v)
      → v.files ≡ w.files
  pub commit_db : (key : Text) (w : World) → (s.commit_delete key w).1.db ≡ w.db
  pub commit_files : (key : Text) (w : World) → (s.commit_delete key w).1.files ≡ w.files

-- What a failed deletion leaves. Nothing has changed; or the records are there, and the file stays
-- hidden because the store refused to restore it then; or the records are gone, and the store has
-- failed to remove the file that was hidden.
abbrev pub Left : ContentStore → Text → World → World → Type 0
Left s id w v =
    (SameButEvents w.db v.db × SameKeys w v)
    ⊎ (((key : Text) × (x : World) × (e : Error) × SameButEvents w.db x.db
          × Hidden key w x
          × ((s.rollback_delete key x).0 ≡ err e)
          × SameButEvents w.db v.db
          × Hidden key w v)
        ⊎ ((key : Text) × (x : World) × (e : Error) × (db : Database) × ItemRemoved id w.db db
            × SameButEvents db x.db
            × Hidden key w x
            × ((s.commit_delete key x).0 ≡ err e)
            × SameButEvents db v.db
            × Hidden key w v))

pub same_keys : (w v : World) → v.files ≡ w.files → SameKeys w v
same_keys w v h k = ap (any (λ x. text_eq x k)) h

pub record_failure-Untouched :
    (g : Platform) (actor : User) (item : Item) (at : Time) (e : Error) (w : World)
    → Untouched w (record_failure g actor item at e w).1
unfolding record_failure record_deletion_event new_deletion_event
record_failure-Untouched g actor item at e w = (
  append_and_fail-KeepsRows (Unit {0}) g _ e
      (new_actor_event-db g actor EventType.media_deleted Outcome.failure TargetType.media_target
        item.id item.title Reason.operation_failure at)
      w,
  record_deletion_event-KeepsFiles (Unit {0}) g actor item.id item.title Outcome.failure
      Reason.operation_failure at e w,
)

-- Staging, and then restoring, publishes the same keys.
restored :
    (key : Text) (w u v : World)
    → holds key w ≡ true
    → Hidden key w u
    → ((k : Text) → holds k v ≡ (text_eq k key || holds k u))
    → SameKeys w v
restored key w u v there hidden back k = elim (Bool-cases (text_eq k key)) [
  | inl q ↦ ground (arith, q, back k, ap (λ x. holds x w) (text_eq→≡ k key q), there)
  | inr q ↦ ground (arith, q, back k, hidden k)
]

pub Hidden-files :
    (key : Text) (w u v : World) → Hidden key w u → v.files ≡ u.files → Hidden key w v
Hidden-files key w u v hidden same k = ap (any (λ x. text_eq x k)) same ∙ hidden k

pub restore-Left :
    (s : ContentStore)
    → IsDeletionStore s
    → (g : Platform) (actor : User) (id : Text) (item : Item) (key : Text) (later : Time)
      (e : Error) (w u v : World) (x : Error)
    → SameButEvents w.db u.db
    → holds key w ≡ true
    → Hidden key w u
    → restore s g actor item key later e u ≡ (err x, v)
    → Left s id w v
unfolding restore
restore-Left s laws g actor id item key later e w u v x rows there hidden h =
    elim (catch-cases (s.rollback_delete key) (λ y. record_failure g actor item later (e ++ y))
      (λ _. fail {A = Unit {0}} e) u) [
        | inl (y, z, failed, handled) ↦
            let (kept, files) = record_failure-Untouched g actor item later (e ++ y) z in
            let same : z.db ≡ u.db = ap (λ p. p.1.db) (sym failed) ∙ laws.rollback_db key u in
            let still = laws.rollback_err key u y z failed in
            let ended = ap (λ p. p.1) (sym handled ∙ h) in
            inr (
              inl (
                key,
                u,
                y,
                rows,
                hidden,
                ap (λ p. p.0) failed,
                subst (λ (t : World). SameButEvents w.db t.db) ended
                    (SameButEvents_trans w.db z.db _
                      (SameButEvents_trans w.db u.db z.db rows (same_rows u.db z.db same)) kept),
                subst (Hidden key w) ended (
                    Hidden-files key w u (record_failure g actor item later (e ++ y) z).1 hidden
                      (files ∙ still)),
              ))
        | inr (_, z, back, returned) ↦
            let same : z.db ≡ u.db = ap (λ p. p.1.db) (sym back) ∙ laws.rollback_db key u in
            let ended = ap (λ p. p.1) (sym returned ∙ h) in
            inl (
              subst (λ (t : World). SameButEvents w.db t.db) ended
                  (SameButEvents_trans w.db u.db z.db rows (same_rows u.db z.db same)),
              subst (SameKeys w) ended
                  (restored key w u z there hidden (laws.rollback_ok key u z back)),
            )
      ]
