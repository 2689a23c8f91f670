-- ===== src/Services/Upload/Compensation.antt =====
-- internal/application/media/upload.go: what a failed upload leaves behind.
use go_mediaarchive.Base.{
  ℕ, ◌≡◌, refl, ◌∙◌, false, not, Option, some, List, [], ◌∷◌, ◌+◌, arith, any, keep,
}
use go_mediaarchive.Go.Text.{Text, text_eq}
use go_mediaarchive.Go.Time.{Time}
use go_mediaarchive.Go.Failure.{err, Error, location_mismatch}
use go_mediaarchive.Go.Action.{pure, lift, fail_if}
use go_mediaarchive.Identity.Username.{Platform}
use go_mediaarchive.Identity.User.{User}
use go_mediaarchive.Media.Grant.{Item}
use go_mediaarchive.Media.Item.{validate_media_item}
use go_mediaarchive.Content.{Location, new_location}
use go_mediaarchive.Audit.Kinds.{EventType, Outcome, TargetType, Reason}
use go_mediaarchive.Audit.{Event}
use go_mediaarchive.Store.Tables.{Database, World}
use go_mediaarchive.Store.Statements.{exec}
use go_mediaarchive.Store.Statements.Success.{Succeeds}
use go_mediaarchive.Store.Statements.Files.{
  KeepsFiles, exec-KeepsFiles, >>=-KeepsFiles, transaction-KeepsFiles, fail_if-KeepsFiles,
  insert_optional_event-KeepsFiles,
}
use go_mediaarchive.Store.Contents.{add_content}
use go_mediaarchive.Store.Items.Rows.{add_item, add_author}
use go_mediaarchive.Store.Items.{insert_item, insert_authors, store_managed, create_managed}
use go_mediaarchive.Services.Events.{new_actor_event}
use go_mediaarchive.Services.Events.Files.{new_actor_event-KeepsFiles, append_and_fail-KeepsFiles}
use go_mediaarchive.Services.Events.Keeps.{
  SameButEvents, append_and_fail-KeepsRows, new_actor_event-db,
}
use go_mediaarchive.Services.Upload.{
  StoredContent, ContentStore, new_upload_event, record_upload_event, persist_upload,
}

-- What the interface of the content store says of the published keys: `Put` publishes a new key, or
-- nothing; `Delete` removes its key, or nothing. Neither touches the tables.
pub record IsContentStore (s : ContentStore) : Type 0 where
  pub put_db : (id source : Text) (n : ℕ) (w : World) → (s.put id source n w).1.db ≡ w.db
  pub put_ok :
      (id source : Text) (n : ℕ) (w : World) (c : StoredContent) (v : World)
      → Succeeds (s.put id source n) w c v
      → (any (λ k. text_eq k c.storage_key) w.files ≡ false) × (v.files ≡ c.storage_key ∷ w.files)
  pub put_err :
      (id source : Text) (n : ℕ) (w : World) (e : Error) (v : World)
      → s.put id source n w ≡ (err e, v)
      → v.files ≡ w.files
  pub delete_db : (key : Text) (w : World) → (s.delete key w).1.db ≡ w.db
  pub delete_ok :
      (key : Text) (w v : World)
      → Succeeds (s.delete key) w tt v
      → v.files ≡ keep (λ k. not (text_eq k key)) w.files
  pub delete_err :
      (key : Text) (w : World) (e : Error) (v : World)
      → s.delete key w ≡ (err e, v)
      → v.files ≡ w.files

-- Rows but the events, and files, as they were.
abbrev pub Untouched : World → World → Type 0
Untouched w v = SameButEvents w.db v.db × (v.files ≡ w.files)

pub SameButEvents_trans :
    (a b c : Database) → SameButEvents a b → SameButEvents b c → SameButEvents a c
SameButEvents_trans a b c p q = record {
  users = q.users ∙ p.users;
  credentials = q.credentials ∙ p.credentials;
  enrollments = q.enrollments ∙ p.enrollments;
  sessions = q.sessions ∙ p.sessions;
  items = q.items ∙ p.items;
  authors = q.authors ∙ p.authors;
  contents = q.contents ∙ p.contents;
  grants = q.grants ∙ p.grants;
}

pub keep_fresh :
    (key : Text) (ks : List Text)
    → any (λ k. text_eq k key) ks ≡ false
    → keep (λ k. not (text_eq k key)) ks ≡ ks
keep_fresh key [] h = refl
keep_fresh key (k ∷ ks) h = ground (arith, keep_fresh key ks)

pub record_upload_event-Untouched :
    (g : Platform) (actor : User) (id : Text) (o : Outcome) (r : Reason) (now : Time) (e : Error)
    (w : World)
    → Untouched w (record_upload_event {A = Item} g actor id o r now e w).1
unfolding record_upload_event new_upload_event
record_upload_event-Untouched g actor id o r now e w = (
  append_and_fail-KeepsRows Item g (new_upload_event g actor id [] o r now) e
      (new_actor_event-db g actor EventType.media_uploaded o TargetType.media_target id [] r now) w,
  append_and_fail-KeepsFiles Item g (new_upload_event g actor id [] o r now) e
      (new_actor_event-KeepsFiles g actor EventType.media_uploaded o TargetType.media_target id [] r
        now)
      w,
)

insert_authors-KeepsFiles :
    (id : Text) (n : ℕ) (names : List Text) → KeepsFiles (insert_authors id n names)
unfolding insert_authors
insert_authors-KeepsFiles id n [] w = refl
insert_authors-KeepsFiles id n (a ∷ names) w =
    >>=-KeepsFiles (exec (add_author id n a)) (λ _. insert_authors id (n + 1) names)
      (exec-KeepsFiles (add_author id n a)) (λ _. insert_authors-KeepsFiles id (n + 1) names) w

store_managed-KeepsFiles :
    (g : Platform) (item : Item) (l : Location) (e : Option Event)
    → KeepsFiles (store_managed g item l e)
unfolding store_managed insert_item
store_managed-KeepsFiles g item l e = transaction-KeepsFiles _ (
    >>=-KeepsFiles (exec (add_item item)) _ (exec-KeepsFiles (add_item item)) (λ _.
      >>=-KeepsFiles (insert_authors item.id 0 item.authors) _
        (insert_authors-KeepsFiles item.id 0 item.authors)
        (λ _.
          >>=-KeepsFiles (exec (add_content l)) _ (exec-KeepsFiles (add_content l))
            (λ _. insert_optional_event-KeepsFiles g e))))

create_managed-KeepsFiles :
    (g : Platform) (item : Item) (l : Location) (e : Option Event)
    → KeepsFiles (create_managed g item l e)
unfolding create_managed
create_managed-KeepsFiles g item l e =
    >>=-KeepsFiles (lift (validate_media_item g item)) _ (λ w. refl)
      (λ i.
        >>=-KeepsFiles (lift (new_location g l.media_id l.storage_key l.stored_at)) _ (λ w. refl)
          (λ m.
            >>=-KeepsFiles (fail_if (not (text_eq m.media_id i.id)) (location_mismatch ∷ [])) _
              (fail_if-KeepsFiles (not (text_eq m.media_id i.id)) (location_mismatch ∷ []))
              (λ _. store_managed-KeepsFiles g i m e)))

pub persist_upload-KeepsFiles :
    (g : Platform) (actor : User) (item : Item) (key : Text) (now : Time)
    → KeepsFiles (persist_upload g actor item key now)
unfolding persist_upload new_upload_event
persist_upload-KeepsFiles g actor item key now =
    >>=-KeepsFiles (lift (new_location g item.id key now)) _ (λ w. refl)
      (λ l.
        >>=-KeepsFiles
          (new_actor_event g actor EventType.media_uploaded Outcome.success TargetType.media_target
            item.id item.title Reason.no_reason now)
          _
          (new_actor_event-KeepsFiles g actor EventType.media_uploaded Outcome.success
            TargetType.media_target item.id item.title Reason.no_reason now)
          (λ event.
            >>=-KeepsFiles (create_managed g item l (some event)) (λ _. pure item)
              (create_managed-KeepsFiles g item l (some event)) (λ _ w. refl)))
