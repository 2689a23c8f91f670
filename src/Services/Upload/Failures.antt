-- ===== src/Services/Upload/Failures.antt =====
-- internal/application/media/upload.go: the error branches of `UploadItem`.
use go_mediaarchive.Base.{
  ℕ, ◌≡◌, refl, sym, ap, subst, ◌∙◌, ◌⊎◌, inl, inr, Bool, Bool-cases, true, false, not, some, List,
  [], ◌∷◌, ◌++◌, arith, any, keep,
}
use go_mediaarchive.Go.Text.{Text, text_eq, text_eq_refl}
use go_mediaarchive.Go.Time.{Time}
use go_mediaarchive.Go.Failure.{
  err, Error, is, creation_forbidden, upload_compensation_failed, location_mismatch,
}
use go_mediaarchive.Go.Action.{pure, lift, fail, fail_if, ◌>>=◌}
use go_mediaarchive.Identity.Username.{Platform}
use go_mediaarchive.Identity.User.{User}
use go_mediaarchive.Media.Grant.{Item}
use go_mediaarchive.Media.Item.{new_item, validate_media_item}
use go_mediaarchive.Content.{Location, new_location}
use go_mediaarchive.Audit.Kinds.{EventType, Outcome, TargetType, Reason}
use go_mediaarchive.Audit.{Event}
use go_mediaarchive.Store.Tables.{World}
use go_mediaarchive.Store.Statements.Rollback.{
  RollsBack, transaction-RollsBack, fail_if-KeepsTables, >>=-fails, >>=-RollsBack,
  >>=-RollsBack_first,
}
use go_mediaarchive.Store.Items.{store_managed, create_managed}
use go_mediaarchive.Services.Events.Keeps.{
  same_rows, SameButEvents, new_actor_event-db, catch-cases,
}
use go_mediaarchive.Services.Media.{may_create_media}
use go_mediaarchive.Services.Upload.{
  StoredContent, ContentStore, UploadInput, new_upload_event, compensate, deny_upload,
  refuse_metadata, persist_upload, store_upload, uploaded, describe_upload, upload_item,
  record_upload_event,
}
use go_mediaarchive.Services.Upload.Compensation.{
  IsContentStore, Untouched, SameButEvents_trans, keep_fresh, record_upload_event-Untouched,
  persist_upload-KeepsFiles,
}

create_managed-RollsBack :
    (g : Platform) (item : Item) (l : Location) (e : Event)
    → RollsBack (create_managed g item l (some e))
unfolding create_managed store_managed
create_managed-RollsBack g item l e =
    >>=-RollsBack (lift (validate_media_item g item)) _ (λ w. refl)
      (λ i.
        >>=-RollsBack (lift (new_location g l.media_id l.storage_key l.stored_at)) _ (λ w. refl)
          (λ m.
            >>=-RollsBack (fail_if (not (text_eq m.media_id i.id)) (location_mismatch ∷ [])) _
              (fail_if-KeepsTables (not (text_eq m.media_id i.id)) (location_mismatch ∷ []))
              (λ _. transaction-RollsBack _)))

persist_upload-RollsBack :
    (g : Platform) (actor : User) (item : Item) (key : Text) (now : Time)
    → RollsBack (persist_upload g actor item key now)
unfolding persist_upload new_upload_event
persist_upload-RollsBack g actor item key now =
    >>=-RollsBack (lift (new_location g item.id key now)) _ (λ w. refl)
      (λ l.
        >>=-RollsBack _ _
          (new_actor_event-db g actor EventType.media_uploaded Outcome.success
            TargetType.media_target item.id item.title Reason.no_reason now)
          (λ event.
            >>=-RollsBack_first (create_managed g item l (some event)) (λ _. item)
              (create_managed-RollsBack g item l event)))

-- The world of an upload whose file is published and whose records are not.
abbrev pub Published : Text → World → World → Type 0
Published key w u =
    SameButEvents w.db u.db × (any (λ k. text_eq k key) w.files ≡ false) × (u.files ≡ key ∷ w.files)

-- A file that the upload published is still there, since the store refused to delete it when it was
-- there and the records were not.
abbrev pub LeftBehind : ContentStore → World → World → Type 0
LeftBehind s w v =
    (key : Text) × (x : World) × (e : Error) × Published key w x
    × ((s.delete key x).0 ≡ err e)
    × (v.files ≡ key ∷ w.files)

-- What a failed upload leaves.
abbrev pub Undone : ContentStore → World → World → Type 0
Undone s w v = SameButEvents w.db v.db × ((v.files ≡ w.files) ⊎ LeftBehind s w v)

Undone-Untouched : (s : ContentStore) (w u v : World) → Undone s w u → Untouched u v → Undone s w v
Undone-Untouched s w u v (rows, inl same) (kept, files) =
    (SameButEvents_trans w.db u.db v.db rows kept, inl (files ∙ same))
Undone-Untouched s w u v (rows, inr (key, x, e, there, failed, left)) (kept, files) =
    (SameButEvents_trans w.db u.db v.db rows kept, inr (key, x, e, there, failed, files ∙ left))

dropped :
    (key : Text) (fs : List Text)
    → any (λ k. text_eq k key) fs ≡ false
    → keep (λ k. not (text_eq k key)) (key ∷ fs) ≡ fs
dropped key fs fresh = ground (arith, keep_fresh key fs fresh, text_eq_refl key)

compensate-Undone :
    (s : ContentStore)
    → IsContentStore s
    → (g : Platform) (actor : User) (id key : Text) (later : Time) (e : Error) (w u : World)
    → Published key w u
    → Undone s w (compensate s g actor id key later e u).1
unfolding compensate
compensate-Undone s laws g actor id key later e w u (rows, fresh, published) =
    elim (catch-cases (s.delete key)
      (λ x.
        record_upload_event {A = Item} g actor id Outcome.failure Reason.operation_failure later
          (upload_compensation_failed ∷ e ++ x))
      (λ _. fail {A = Item} e) u) [
        | inl (x, v, failed, handled) ↦
            let kept : v.db ≡ u.db = ap (λ p. p.1.db) (sym failed) ∙ laws.delete_db key u in
            let left = laws.delete_err key u x v failed ∙ published in
            let recorded =
              record_upload_event-Untouched g actor id Outcome.failure Reason.operation_failure
                later (upload_compensation_failed ∷ e ++ x) v in
            subst (λ p. Undone s w p.1) (sym handled)
              (Undone-Untouched s w v
                (record_upload_event {A = Item} g actor id Outcome.failure Reason.operation_failure
                  later (upload_compensation_failed ∷ e ++ x) v).1
                (
                  SameButEvents_trans w.db u.db v.db rows (same_rows u.db v.db kept),
                  inr (key, u, x, (rows, fresh, published), ap (λ p. p.0) failed, left),
                )
                recorded)
        | inr (_, v, deleted, returned) ↦
            let kept : v.db ≡ u.db = ap (λ p. p.1.db) (sym deleted) ∙ laws.delete_db key u in
            let gone =
              laws.delete_ok key u v deleted
              ∙ ap (keep (λ k. not (text_eq k key))) published
              ∙ dropped key w.files fresh in
            subst (λ p. Undone s w p.1) (sym returned)
              (SameButEvents_trans w.db u.db v.db rows (same_rows u.db v.db kept), inl gone)
      ]

deny_upload-Untouched :
    (g : Platform) (actor : User) (id : Text) (now : Time) (b : Bool) (e : Error) (w : World)
    → Untouched w (deny_upload g actor id now b e w).1
unfolding deny_upload
deny_upload-Untouched g actor id now true e w = (same_rows w.db w.db refl, refl)
deny_upload-Untouched g actor id now false e w =
    record_upload_event-Untouched g actor id Outcome.denied Reason.invalid_input now e w

refuse_metadata-Undone :
    (s : ContentStore)
    → IsContentStore s
    → (g : Platform) (actor : User) (id key : Text) (now later : Time) (e : Error) (w u : World)
    → Published key w u
    → Undone s w (refuse_metadata s g actor id key now later e u).1
unfolding refuse_metadata
refuse_metadata-Undone s laws g actor id key now later e w u published =
    let undone = compensate-Undone s laws g actor id key later e w u published in
    elim (catch-cases (compensate s g actor id key later e)
      (λ x. deny_upload g actor id now (is upload_compensation_failed x) x) pure u) [
        | inl (x, v, failed, handled) ↦
            subst (λ p. Undone s w p.1) (sym handled)
              (Undone-Untouched s w v
                (deny_upload g actor id now (is upload_compensation_failed x) x v).1
                (subst (λ p. Undone s w p.1) failed undone)
                (deny_upload-Untouched g actor id now (is upload_compensation_failed x) x v))
        | inr (i, v, done, returned) ↦
            subst (λ p. Undone s w p.1) (sym returned) (subst (λ p. Undone s w p.1) done undone)
      ]

store_upload-Undone :
    (s : ContentStore)
    → IsContentStore s
    → (g : Platform) (actor : User) (item : Item) (key : Text) (now later : Time) (w u : World)
      (e : Error) (v : World)
    → Published key w u
    → store_upload s g actor item key now later u ≡ (err e, v)
    → Undone s w v
unfolding store_upload
store_upload-Undone s laws g actor item key now later w u e v (rows, fresh, published) h =
    elim (catch-cases (persist_upload g actor item key now) (compensate s g actor item.id key later)
      pure u) [
        | inl (x, y, failed, handled) ↦
            let files : y.files ≡ u.files =
              ap (λ p. p.1.files) (sym failed) ∙ persist_upload-KeepsFiles g actor item key now u in
            let tables = persist_upload-RollsBack g actor item key now u x y failed in
            subst (λ p. Undone s w p.1) (sym handled ∙ h)
              (compensate-Undone s laws g actor item.id key later x w y (
                SameButEvents_trans w.db u.db y.db rows (same_rows u.db y.db tables),
                fresh,
                files ∙ published,
              ))
        | inr (i, y, done, returned) ↦ ground (arith, h, returned)
      ]

describe_upload-Undone :
    (s : ContentStore)
    → IsContentStore s
    → (g : Platform) (actor : User) (id : Text) (input : UploadInput) (now later : Time)
      (stored : StoredContent) (w u : World) (e : Error) (v : World)
    → Published stored.storage_key w u
    → describe_upload s g actor id input now later stored u ≡ (err e, v)
    → Undone s w v
unfolding describe_upload
describe_upload-Undone s laws g actor id input now later stored w u e v published h =
    elim (catch-cases (lift (new_item g (uploaded actor id input now stored)))
      (refuse_metadata s g actor id stored.storage_key now later)
      (λ item. store_upload s g actor item stored.storage_key now later) u) [
        | inl (x, y, failed, handled) ↦
            let same : u ≡ y = ap (λ p. p.1) failed in
            subst (λ p. Undone s w p.1) (sym handled ∙ h)
              (refuse_metadata-Undone s laws g actor id stored.storage_key now later x w y
                (subst (Published stored.storage_key w) same published))
        | inr (item, y, done, went_on) ↦
            let same : u ≡ y = ap (λ p. p.1) done in
            store_upload-Undone s laws g actor item stored.storage_key now later w y e v
              (subst (Published stored.storage_key w) same published) (sym went_on ∙ h)
      ]

-- An upload that returns an error, over a content store that keeps to its interface, leaves every
-- table but that of the events as it was. It also leaves the files as they were, or else one file more,
-- which the store refused to delete when the upload asked it to.
pub upload_item-Undone :
    (s : ContentStore)
    → IsContentStore s
    → (g : Platform) (maximum : ℕ) (actor : User) (id : Text) (input : UploadInput)
      (now later : Time) (w : World) (e : Error) (v : World)
    → upload_item s g maximum actor id input now later w ≡ (err e, v)
    → Undone s w v
unfolding upload_item
upload_item-Undone s laws g maximum actor id input now later w e v h =
    elim (Bool-cases (may_create_media actor)) [
      | inr q ↦
          let (rows, files) =
            record_upload_event-Untouched g actor [] Outcome.denied Reason.insufficient_role now
              (creation_forbidden ∷ []) w in
          subst (λ p. Undone s w p.1) (refused q) (rows, inl files)
      | inl q ↦
          elim (>>=-fails (s.put id input.source maximum)
            (describe_upload s g actor id input now later) w e v (accepted q)) [
              | inl failed ↦ (
                same_rows w.db v.db
                    (ap (λ p. p.1.db) (sym failed) ∙ laws.put_db id input.source maximum w),
                inl (laws.put_err id input.source maximum w e v failed),
              )
              | inr (stored, u, put, failed) ↦
                  let (fresh, published) = laws.put_ok id input.source maximum w stored u put in
                  describe_upload-Undone s laws g actor id input now later stored w u e v
                    (
                      same_rows w.db u.db
                          (ap (λ p. p.1.db) (sym put) ∙ laws.put_db id input.source maximum w),
                      fresh,
                      published,
                    )
                    failed
            ]
    ]
  where
    refused :
        may_create_media actor ≡ false
        → record_upload_event {A = Item} g actor [] Outcome.denied Reason.insufficient_role now
            (creation_forbidden ∷ [])
            w
          ≡ (err e, v)
    refused q = ground (arith, h, q)

    accepted :
        may_create_media actor ≡ true
        → (s.put id input.source maximum >>= describe_upload s g actor id input now later) w
          ≡ (err e, v)
    accepted q = ground (arith, h, q)
