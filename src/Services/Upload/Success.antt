-- ===== src/Services/Upload/Success.antt =====
-- internal/application/media/upload.go: what a successful `UploadItem` has stored.
use go_mediaarchive.Base.{
  ℕ, ◌≡◌, ◌≢◌, sym, ap, subst, ◌∙◌, Bool-cases, true, false, inl, inr, some, [], ◌∷◌, ◌++◌, arith,
  any,
}
use go_mediaarchive.Go.Text.{Text, text_eq}
use go_mediaarchive.Go.Time.{Time}
use go_mediaarchive.Go.Failure.{ok, Error, is, creation_forbidden, upload_compensation_failed}
use go_mediaarchive.Go.Action.{pure, lift, fail, ◌>>=◌}
use go_mediaarchive.Identity.Username.{Platform}
use go_mediaarchive.Identity.User.{User}
use go_mediaarchive.Media.Grant.{Item}
use go_mediaarchive.Media.Item.{new_item, validate_media_item}
use go_mediaarchive.Media.Item.Laws.{IsMimeParser, new_item_idem}
use go_mediaarchive.Content.{Location, new_location, normalize_storage_key}
use go_mediaarchive.Audit.Kinds.{EventType, Outcome, TargetType, Reason}
use go_mediaarchive.Audit.{Event}
use go_mediaarchive.Store.Tables.{Database, World}
use go_mediaarchive.Store.Statements.Success.{Succeeds, >>=-Succeeds}
use go_mediaarchive.Store.Contents.{add_content}
use go_mediaarchive.Store.Items.Rows.{has_item}
use go_mediaarchive.Store.Items.Creation.{with_item, has_owner, create_managed-Succeeds}
use go_mediaarchive.Store.Users.Effects.{Recorded}
use go_mediaarchive.Services.Events.Keeps.{catch-cases, append_and_fail-err, new_actor_event-db}
use go_mediaarchive.Services.Users.Changes.{catch-Succeeds}
use go_mediaarchive.Services.Media.{may_create_media}
use go_mediaarchive.Services.Upload.{
  StoredContent, ContentStore, UploadInput, new_upload_event, compensate, deny_upload,
  refuse_metadata, persist_upload, store_upload, uploaded, describe_upload, upload_item,
  record_upload_event,
}
use go_mediaarchive.Services.Upload.Compensation.{IsContentStore, persist_upload-KeepsFiles}

new_location_idem :
    (g : Platform) (id key : Text) (at : Time) (l : Location)
    → new_location g id key at ≡ ok l
    → (new_location g l.media_id l.storage_key l.stored_at ≡ ok l)
      × (l.media_id ≡ id)
      × (l.storage_key ≡ key)
unfolding new_location normalize_storage_key
new_location_idem g id key at l h = ground arith

record_upload_event-err :
    (g : Platform) (actor : User) (id : Text) (o : Outcome) (r : Reason) (now : Time) (e : Error)
    (w : World) (i : Item)
    → (record_upload_event g actor id o r now e w).0 ≢ ok i
unfolding record_upload_event
record_upload_event-err g actor id o r now e w i h =
    append_and_fail-err g (new_upload_event g actor id [] o r now) e w i h

compensate-err :
    (s : ContentStore) (g : Platform) (actor : User) (id key : Text) (later : Time) (e : Error)
    (w : World) (i : Item)
    → (compensate s g actor id key later e w).0 ≢ ok i
unfolding compensate
compensate-err s g actor id key later e w i h =
    elim (catch-cases (s.delete key)
      (λ x.
        record_upload_event {A = Item} g actor id Outcome.failure Reason.operation_failure later
          (upload_compensation_failed ∷ e ++ x))
      (λ _. fail {A = Item} e) w) [
        | inl (x, v, _, handled) ↦
            record_upload_event-err g actor id Outcome.failure Reason.operation_failure later
              (upload_compensation_failed ∷ e ++ x) v i (ap (λ p. p.0) (sym handled) ∙ h)
        | inr (_, v, _, returned) ↦ ground (arith, h, returned)
      ]

refuse_metadata-err :
    (s : ContentStore) (g : Platform) (actor : User) (id key : Text) (now later : Time) (e : Error)
    (w : World) (i : Item)
    → (refuse_metadata s g actor id key now later e w).0 ≢ ok i
unfolding refuse_metadata deny_upload
refuse_metadata-err s g actor id key now later e w i h =
    elim (catch-cases (compensate s g actor id key later e)
      (λ x. deny_upload g actor id now (is upload_compensation_failed x) x) pure w) [
        | inl (x, v, _, handled) ↦ ground (
          arith,
          h,
          handled,
          record_upload_event-err g actor id Outcome.denied Reason.invalid_input now x v i,
        )
        | inr (j, v, done, returned) ↦
            ground (arith, h, returned, done, compensate-err s g actor id key later e w j)
      ]

-- What the records of an uploaded item are.
pub record Persisted (g : Platform) (item : Item) (key : Text) (now : Time)
    (before after : Database) : Type 0 where
  pub location : Location
  pub event : Event
  pub rows : Database
  pub located : new_location g item.id key now ≡ ok location
  pub free : has_item item.id before.items ≡ false
  pub owned : has_owner item before ≡ true
  pub stored : add_content location (with_item item before) ≡ ok rows
  pub recorded : Recorded g (some event) rows after

persist_upload-Succeeds :
    (g : Platform) (actor : User) (item : Item) (key : Text) (now : Time) (w : World) (i : Item)
    (w' : World)
    → validate_media_item g item ≡ ok item
    → Succeeds (persist_upload g actor item key now) w i w'
    → (i ≡ item) × Persisted g item key now w.db w'.db
unfolding persist_upload new_upload_event
persist_upload-Succeeds g actor item key now w i w' valid h =
    let (l, x, located, r1) = >>=-Succeeds _ _ w i w' h in
    let (event, y, made, r2) = >>=-Succeeds _ _ x i w' r1 in
    let (_, z, created, returned) = >>=-Succeeds _ _ y i w' r2 in
    let (j, m, db, again, placed, _, free, owned, stored, recorded) =
      create_managed-Succeeds g item l event y z created in
    let where_ : new_location g item.id key now ≡ ok l = ap (λ p. p.0) located in
    let same_item : j ≡ item = ground (arith, again, valid) in
    let same_place : m ≡ l =
      ground (arith, placed, (new_location_idem g item.id key now l where_).0) in
    let whole : y.db ≡ w.db =
      sym (ap (λ p. p.1.db) made)
      ∙ new_actor_event-db g actor EventType.media_uploaded Outcome.success TargetType.media_target
          item.id item.title Reason.no_reason now x
      ∙ sym (ap (λ p. p.1.db) located) in
    let ended : z.db ≡ w'.db = ap (λ p. p.1.db) returned in
    (
      ground (arith, returned),
      record {
        location = l;
        event = event;
        rows = db;
        located = where_;
        free =
            subst (λ q. has_item q.id w.db.items ≡ false) same_item
              (subst (λ d. has_item j.id d.items ≡ false) whole free);
        owned =
            subst (λ q. has_owner q w.db ≡ true) same_item
              (subst (λ d. has_owner j d ≡ true) whole owned);
        stored =
            subst (λ q. add_content q (with_item item w.db) ≡ ok db) same_place
              (subst (λ q. add_content m (with_item q w.db) ≡ ok db) same_item
                (subst (λ d. add_content m (with_item j d) ≡ ok db) whole stored));
        recorded = subst (Recorded g (some event) db) ended recorded;
      },
    )

describe_upload-Succeeds :
    (s : ContentStore) (g : Platform)
    → IsMimeParser g
    → (actor : User) (id : Text) (input : UploadInput) (now later : Time) (stored : StoredContent)
      (w : World) (item : Item) (w' : World)
    → Succeeds (describe_upload s g actor id input now later stored) w item w'
    → (new_item g (uploaded actor id input now stored) ≡ ok item)
      × Persisted g item stored.storage_key now w.db w'.db
      × (w'.files ≡ w.files)
unfolding describe_upload store_upload
describe_upload-Succeeds s g parser actor id input now later stored w item w' h =
    let (made, x, described, rest) =
      catch-Succeeds (lift (new_item g (uploaded actor id input now stored))) _
        (λ i. store_upload s g actor i stored.storage_key now later) w item w'
        (λ e v. refuse_metadata-err s g actor id stored.storage_key now later e v item) h in
    let (i, y, persists, returned) =
      catch-Succeeds (persist_upload g actor made stored.storage_key now) _ pure x item w'
        (λ e v. compensate-err s g actor made.id stored.storage_key later e v item) rest in
    let valid = ap (λ p. p.0) described in
    let again = new_item_idem g (uploaded actor id input now stored) made parser valid in
    let (same, persisted) =
      persist_upload-Succeeds g actor made stored.storage_key now x i y again persists in
    let is_made : made ≡ item = sym same ∙ ground (arith, returned) in
    let before : x.db ≡ w.db = ap (λ p. p.1.db) (sym described) in
    let after : y.db ≡ w'.db = ap (λ p. p.1.db) returned in
    (
      subst (λ q. new_item g (uploaded actor id input now stored) ≡ ok q) is_made valid,
      subst (λ q. Persisted g q stored.storage_key now w.db w'.db) is_made
          (subst (λ d. Persisted g made stored.storage_key now d w'.db) before
            (subst (λ d. Persisted g made stored.storage_key now x.db d) after persisted)),
      ap (λ p. p.1.files) (sym returned)
          ∙ ap (λ p. p.1.files) (sym persists)
          ∙ persist_upload-KeepsFiles g actor made stored.storage_key now x
          ∙ ap (λ p. p.1.files) (sym described),
    )

-- A successful upload, over a content store that keeps to its interface, came from an active editor or
-- administrator. The store published one file under a new key. The item that is returned is the valid
-- one of the input with the size and the checksum of that file; it belongs to the caller, and its ID was
-- free. Its row, its author rows, one content row with the key and one event are all that is new in the
-- tables.
pub upload_item-Succeeds :
    (s : ContentStore)
    → IsContentStore s
    → (g : Platform) → IsMimeParser g
    → (maximum : ℕ) (actor : User) (id : Text) (input : UploadInput) (now later : Time) (w : World)
      (item : Item) (w' : World)
    → Succeeds (upload_item s g maximum actor id input now later) w item w'
    → (may_create_media actor ≡ true)
      × ((stored : StoredContent) × ((s.put id input.source maximum w).0 ≡ ok stored)
          × (new_item g (uploaded actor id input now stored) ≡ ok item)
          × Persisted g item stored.storage_key now w.db w'.db
          × (any (λ k. text_eq k stored.storage_key) w.files ≡ false)
          × (w'.files ≡ stored.storage_key ∷ w.files))
unfolding upload_item
upload_item-Succeeds s laws g parser maximum actor id input now later w item w' h =
    elim (Bool-cases (may_create_media actor)) [
      | inr q ↦ ground (
        arith,
        h,
        q,
        record_upload_event-err g actor [] Outcome.denied Reason.insufficient_role now
            (creation_forbidden ∷ []) w item,
      )
      | inl q ↦
          let (stored, u, put, rest) =
            >>=-Succeeds (s.put id input.source maximum)
              (describe_upload s g actor id input now later) w item w' (accepted q) in
          let (fresh, published) = laws.put_ok id input.source maximum w stored u put in
          let (valid, persisted, files) =
            describe_upload-Succeeds s g parser actor id input now later stored u item w' rest in
          let same : u.db ≡ w.db =
            ap (λ p. p.1.db) (sym put) ∙ laws.put_db id input.source maximum w in
          (
            q,
            (
              stored,
              ap (λ p. p.0) put,
              valid,
              subst (λ d. Persisted g item stored.storage_key now d w'.db) same persisted,
              fresh,
              files ∙ published,
            ),
          )
    ]
  where
    accepted :
        may_create_media actor ≡ true
        → Succeeds
            (s.put id input.source maximum >>= describe_upload s g actor id input now later)
            w
            item
            w'
    accepted q = ground (arith, h, q)
