-- ===== src/Store/Items.antt =====
-- internal/storage/sqlite/media_repository.go: items in `media_items`, and their authors in
-- `media_authors`.
pub mod Rows
pub mod Reading
pub mod Authors
pub mod Creation
pub mod Removal
pub mod Updates
use go_mediaarchive.Base.{
  ℕ, ◌+◌, Bool, true, false, Option, none, some, List, [], ◌∷◌, find, if◌then◌else◌, not,
}
use go_mediaarchive.Go.Text.{Text, text_eq}
use go_mediaarchive.Go.Failure.{Result, ok, err, location_mismatch}
use go_mediaarchive.Go.Action.{Action, pure, lift, fail_if, ◌>>=◌, ◌>>◌}
use go_mediaarchive.Identity.Username.{Platform}
use go_mediaarchive.Media.Grant.{Item}
use go_mediaarchive.Media.Item.{new_item, validate_media_item}
use go_mediaarchive.Content.{Location, new_location}
use go_mediaarchive.Audit.{Event}
use go_mediaarchive.Store.Tables.{Database, World, ItemRow}
use go_mediaarchive.Store.Statements.{query, exec, transaction}
use go_mediaarchive.Store.Events.{insert_optional_event}
use go_mediaarchive.Store.Contents.{add_content, remove_matching_content}
use Rows.{
  add_item, add_author, author_names, one_item, raw_of_row, change_item, drop_item_grants,
  drop_item_authors, remove_item,
}

-- `insertMediaItem`
unfoldable pub insert_item : Item → Action World (Unit {0})
insert_item i = exec (add_item i)

-- `insertMediaAuthors`, from a position on
unfoldable pub insert_authors : Text → ℕ → List Text → Action World (Unit {0})
insert_authors id position [] = pure tt
insert_authors id position (author ∷ authors) = do
  exec (add_author id position author)
  insert_authors id (position + 1) authors

-- `Create`
unfoldable pub create_item : Platform → Item → Action World (Unit {0})
create_item g candidate = do
  item ← lift (validate_media_item g candidate)
  transaction (do insert_item item; insert_authors item.id 0 item.authors)

-- The transaction of `createManaged`
unfoldable pub store_managed : Platform → Item → Location → Option Event → Action World (Unit {0})
store_managed g item location event = transaction (do
  insert_item item
  insert_authors item.id 0 item.authors
  exec (add_content location)
  insert_optional_event g event)

-- `createManaged`
unfoldable pub create_managed : Platform → Item → Location → Option Event → Action World (Unit {0})
create_managed g candidate candidate_location event = do
  item ← lift (validate_media_item g candidate)
  location ← lift (
      new_location g candidate_location.media_id candidate_location.storage_key
        candidate_location.stored_at)
  fail_if (not (text_eq location.media_id item.id)) (location_mismatch ∷ [])
  store_managed g item location event

-- `findMediaItemByID`
unfoldable pub read_item : Platform → Text → Action World Item
read_item g id = do
  row ← query (λ db. one_item (find (λ r. text_eq r.id id) db.items))
  names ← query (λ db. ok (author_names id db.authors))
  lift (new_item g (raw_of_row row names))

-- `FindByID`
unfoldable pub find_item : Platform → Text → Action World Item
find_item g id = transaction (read_item g id)

-- `Update`
unfoldable pub update_item : Platform → Item → Action World (Unit {0})
update_item g candidate = do
  item ← lift (validate_media_item g candidate)
  transaction (do
    exec (change_item item)
    exec (λ db. ok (drop_item_authors item.id db))
    insert_authors item.id 0 item.authors)

-- `delete`
unfoldable pub delete_item : Platform → Text → Option Event → Action World (Unit {0})
delete_item g id event = transaction (do
  exec (λ db. ok (drop_item_grants id db))
  exec (λ db. ok (drop_item_authors id db))
  exec (remove_item id)
  insert_optional_event g event)

-- `deleteManaged`
unfoldable pub delete_managed : Platform → Text → Text → Option Event → Action World (Unit {0})
delete_managed g id key event = transaction (do
  exec (remove_matching_content id key)
  exec (λ db. ok (drop_item_grants id db))
  exec (λ db. ok (drop_item_authors id db))
  exec (remove_item id)
  insert_optional_event g event)
