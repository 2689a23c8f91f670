-- ===== src/Services/Deletion/Outcomes.antt =====
-- internal/application/media/managed_deletion.go: what `DeleteItem` leaves when it returns an error.
use go_mediaarchive.Base.{◌≡◌, sym, ap, subst, ◌∙◌, inl, inr, true, not, ◌&&◌, some, arith, any}
use go_mediaarchive.Go.Text.{Text, text_eq}
use go_mediaarchive.Go.Time.{Time}
use go_mediaarchive.Go.Failure.{err, Error}
use go_mediaarchive.Go.Action.{pure, catch}
use go_mediaarchive.Identity.Username.{Platform}
use go_mediaarchive.Identity.User.{User}
use go_mediaarchive.Media.Grant.{Item}
use go_mediaarchive.Content.{Location}
use go_mediaarchive.Audit.Kinds.{EventType, Outcome, TargetType, Reason}
use go_mediaarchive.Audit.{Event}
use go_mediaarchive.Store.Tables.{Database, World}
use go_mediaarchive.Store.Statements.Rollback.{RollsBack, transaction-RollsBack, >>=-fails}
use go_mediaarchive.Store.Items.{delete_managed}
use go_mediaarchive.Store.Items.Removal.{ItemRemoved, delete_managed-Succeeds}
use go_mediaarchive.Store.Users.Effects.{Recorded}
use go_mediaarchive.Store.Events.{add_event}
use go_mediaarchive.Services.Events.Keeps.{
  same_rows, SameButEvents, new_actor_event-db, catch-cases,
}
use go_mediaarchive.Services.Media.{new_deletion_event}
use go_mediaarchive.Services.Media.Files.{new_deletion_event-KeepsFiles, delete_managed-KeepsFiles}
use go_mediaarchive.Services.Upload.{ContentStore}
use go_mediaarchive.Services.Upload.Compensation.{SameButEvents_trans}
use go_mediaarchive.Services.Deletion.{
  record_failure, restore, finish_deletion, delete_staged, delete_content,
}
use go_mediaarchive.Services.Deletion.Failures.{
  IsDeletionStore, holds, Hidden, Left, same_keys, Hidden-files, restore-Left,
  record_failure-Untouched,
}

recorded_rows :
    (g : Platform) (event : Event) (before after : Database)
    → Recorded g (some event) before after
    → SameButEvents before after
unfolding add_event
recorded_rows g event before after (_, h) = ground arith

finish_deletion-Left :
    (s : ContentStore)
    → IsDeletionStore s
    → (g : Platform) (actor : User) (id : Text) (item : Item) (key : Text) (later : Time)
      (w u v : World) (x : Error) (db : Database)
    → ItemRemoved id w.db db
    → SameButEvents db u.db
    → Hidden key w u
    → finish_deletion s g actor item key later u ≡ (err x, v)
    → Left s id w v
unfolding finish_deletion
finish_deletion-Left s laws g actor id item key later w u v x db removed rows hidden h =
    elim (catch-cases (s.commit_delete key) (λ e. record_failure g actor item later e)
      (λ _. pure tt) u) [
        | inl (y, z, failed, handled) ↦
            let (kept, files) = record_failure-Untouched g actor item later y z in
            let same : z.db ≡ u.db = ap (λ p. p.1.db) (sym failed) ∙ laws.commit_db key u in
            let still : z.files ≡ u.files =
              ap (λ p. p.1.files) (sym failed) ∙ laws.commit_files key u in
            let ended = ap (λ p. p.1) (sym handled ∙ h) in
            inr (
              inr (
                key,
                u,
                y,
                db,
                removed,
                rows,
                hidden,
                ap (λ p. p.0) failed,
                subst (λ (t : World). SameButEvents db t.db) ended
                    (SameButEvents_trans db z.db _
                      (SameButEvents_trans db u.db z.db rows (same_rows u.db z.db same)) kept),
                subst (Hidden key w) ended (
                    Hidden-files key w u (record_failure g actor item later y z).1 hidden
                      (files ∙ still)),
              ))
        | inr (_, z, done, returned) ↦ ground (arith, h, returned)
      ]

delete_managed-RollsBack :
    (g : Platform) (id key : Text) (event : Event)
    → RollsBack (delete_managed g id key (some event))
unfolding delete_managed
delete_managed-RollsBack g id key event = transaction-RollsBack _

delete_staged-Left :
    (s : ContentStore)
    → IsDeletionStore s
    → (g : Platform) (actor : User) (id : Text) (item : Item) (key : Text) (event : Event)
      (later : Time) (w u v : World) (x : Error)
    → u.db ≡ w.db
    → holds key w ≡ true
    → Hidden key w u
    → delete_staged s g actor id item key event later u ≡ (err x, v)
    → Left s id w v
unfolding delete_staged
delete_staged-Left s laws g actor id item key event later w u v x same there hidden h =
    elim (catch-cases (delete_managed g id key (some event)) (restore s g actor item key later)
      (λ _. finish_deletion s g actor item key later) u) [
        | inl (e, z, failed, handled) ↦
            let back = delete_managed-RollsBack g id key event u e z failed in
            let files : z.files ≡ u.files =
              ap (λ p. p.1.files) (sym failed) ∙ delete_managed-KeepsFiles g id key event u in
            restore-Left s laws g actor id item key later e w z v x
              (same_rows w.db z.db (back ∙ same)) there (Hidden-files key w u z hidden files)
              (sym handled ∙ h)
        | inr (_, z, deleted, went_on) ↦
            let (db, removed, recorded) = delete_managed-Succeeds g id key event u z deleted in
            let files : z.files ≡ u.files =
              ap (λ p. p.1.files) (sym deleted) ∙ delete_managed-KeepsFiles g id key event u in
            finish_deletion-Left s laws g actor id item key later w z v x db
              (subst (λ d. ItemRemoved id d db) same removed)
              (recorded_rows g event db z.db recorded) (Hidden-files key w u z hidden files)
              (sym went_on ∙ h)
      ]

-- Tables and files are both as they were.
abbrev pub Same : World → World → Type 0
Same w v = (v.db ≡ w.db) × (v.files ≡ w.files)

pub unchanged :
    (s : ContentStore) (id : Text) (w v : World)
    → SameButEvents w.db v.db
    → v.files ≡ w.files
    → Left s id w v
unchanged s id w v rows files = inl (rows, same_keys w v files)

pub delete_content-Left :
    (s : ContentStore)
    → IsDeletionStore s
    → (g : Platform) (actor : User) (id : Text) (item : Item) (now later : Time) (l : Location)
      (w u v : World) (x : Error)
    → Same w u
    → delete_content s g actor id item now later l u ≡ (err x, v)
    → Left s id w v
unfolding delete_content new_deletion_event
delete_content-Left s laws g actor id item now later l w u v x (tables, files) h =
    elim (>>=-fails
      (new_deletion_event g actor item.id item.title Outcome.success Reason.no_reason now) _ u x v
      h) [
        | inl failed ↦
            unchanged s id w v
              (same_rows w.db v.db (ap (λ p. p.1.db) (sym failed) ∙ made_tables u ∙ tables))
              (ap (λ p. p.1.files) (sym failed) ∙ made_files u ∙ files)
        | inr (event, y, made, rest) ↦
            let t : y.db ≡ w.db = ap (λ p. p.1.db) (sym made) ∙ made_tables u ∙ tables in
            let f : y.files ≡ w.files = ap (λ p. p.1.files) (sym made) ∙ made_files u ∙ files in
            staged event y t f rest
      ]
  where
    made_tables :
        (z : World)
        → (new_deletion_event g actor item.id item.title Outcome.success Reason.no_reason now
            z).1.db
          ≡ z.db
    made_tables =
        new_actor_event-db g actor EventType.media_deleted Outcome.success TargetType.media_target
          item.id item.title Reason.no_reason now

    made_files :
        (z : World)
        → (new_deletion_event g actor item.id item.title Outcome.success Reason.no_reason now
            z).1.files
          ≡ z.files
    made_files =
        new_deletion_event-KeepsFiles g actor item.id item.title Outcome.success Reason.no_reason
          now

    staged :
        (event : Event) (y : World)
        → y.db ≡ w.db
        → y.files ≡ w.files
        → catch
            (s.stage_delete l.storage_key)
            (λ e. record_failure g actor item now e)
            (λ _. delete_staged s g actor id item l.storage_key event later)
            y
          ≡ (err x, v)
        → Left s id w v
    staged event y t f k =
        elim (catch-cases (s.stage_delete l.storage_key) (λ e. record_failure g actor item now e)
          (λ _. delete_staged s g actor id item l.storage_key event later) y) [
            | inl (e, z, failed, handled) ↦
                let (kept, still) = record_failure-Untouched g actor item now e z in
                let d : z.db ≡ y.db =
                  ap (λ p. p.1.db) (sym failed) ∙ laws.stage_db l.storage_key y in
                let same = laws.stage_err l.storage_key y e z failed in
                let ended = ap (λ p. p.1) (sym handled ∙ k) in
                subst (Left s id w) ended (
                  unchanged s id w (record_failure g actor item now e z).1
                    (SameButEvents_trans w.db z.db _ (same_rows w.db z.db (d ∙ t)) kept)
                    (still ∙ same ∙ f))
            | inr (_, z, hid, went_on) ↦
                let d : z.db ≡ y.db = ap (λ p. p.1.db) (sym hid) ∙ laws.stage_db l.storage_key y in
                let (there, hidden) = laws.stage_ok l.storage_key y z hid in
                let at = λ (q : Text). ap (any (λ r. text_eq r q)) f in
                delete_staged-Left s laws g actor id item l.storage_key event later w z v x (d ∙ t)
                  (sym (at l.storage_key) ∙ there)
                  (λ q. hidden q ∙ ap (λ b. not (text_eq q l.storage_key) && b) (at q))
                  (sym went_on ∙ k)
          ]
