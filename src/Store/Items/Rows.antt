-- ===== src/Store/Items/Rows.antt =====
-- What the statements of internal/storage/sqlite/media_repository.go do to the rows.
use go_mediaarchive.Base.{
  ℕ, Bool, not, ◌&&◌, ◌||◌, Option, none, some, List, [], ◌∷◌, ◌++◌, leb, ◌==◌, if◌then◌else◌, any,
  keep, map,
}
use go_mediaarchive.Base.Int.{pos}
use go_mediaarchive.Go.Text.{Text, text_eq}
use go_mediaarchive.Go.Failure.{Result, ok, err, item_conflict, item_not_found, driver}
use go_mediaarchive.Media.Grant.{Item}
use go_mediaarchive.Media.Item.{RawItem}
use go_mediaarchive.Store.Tables.{Database, ItemRow, AuthorRow}

-- The columns that INSERT INTO media_items fills.
abbrev pub item_row_of : Item → ItemRow
item_row_of i = record {
  id = i.id;
  title = i.title;
  original_filename = i.original_filename;
  type = i.type;
  mime_type = i.mime_type;
  size = i.size;
  checksum = i.checksum;
  owner_id = i.owner_id;
  created_at = i.created_at;
  updated_at = i.updated_at;
}

abbrev pub has_item : Text → List ItemRow → Bool
has_item id = any (λ r. text_eq r.id id)

-- INSERT INTO media_items, under the primary key `id`; the owner is a user.
unfoldable pub add_item : Item → Database → Result Database
add_item i db =
    if has_item i.id db.items
    then err (item_conflict ∷ driver ∷ [])
    else if not (any (λ u. text_eq u.id i.owner_id) db.users)
    then err (driver ∷ [])
    else ok (record db { items = item_row_of i ∷ db.items })

-- The primary key `(media_id, position)`, and the unique `(media_id, name)`.
abbrev pub author_collides : Text → ℕ → Text → AuthorRow → Bool
author_collides id position name r =
    text_eq r.media_id id && (r.position == position || text_eq r.name name)

-- INSERT INTO media_authors; the item is stored.
unfoldable pub add_author : Text → ℕ → Text → Database → Result Database
add_author id position name db =
    if any (author_collides id position name) db.authors || not (has_item id db.items)
    then err (driver ∷ [])
    else ok (record db {
      authors = db.authors ++ (record { media_id = id; position = position; name = name } ∷ []);
    })

-- ORDER BY position, by insertion.
unfoldable pub place : AuthorRow → List AuthorRow → List AuthorRow
place r [] = r ∷ []
place r (s ∷ rows) =
    let later = place r rows in if leb r.position s.position then r ∷ s ∷ rows else s ∷ later

unfoldable pub by_position : List AuthorRow → List AuthorRow
by_position [] = []
by_position (r ∷ rows) = place r (by_position rows)

-- SELECT name FROM media_authors WHERE media_id = ? ORDER BY position
unfoldable pub author_names : Text → List AuthorRow → List Text
author_names id rows = map (λ r. r.name) (by_position (keep (λ r. text_eq r.media_id id) rows))

abbrev pub one_item : Option ItemRow → Result ItemRow
one_item none = err (item_not_found ∷ [])
one_item (some r) = ok r

-- The arguments that a row and its authors give to `NewItem`.
abbrev pub raw_of_row : ItemRow → List Text → RawItem
raw_of_row r names = record {
  id = r.id;
  title = r.title;
  authors = names;
  original_filename = r.original_filename;
  type = r.type;
  mime_type = r.mime_type;
  size = pos r.size;
  checksum = r.checksum;
  owner_id = r.owner_id;
  created_at = r.created_at;
  updated_at = r.updated_at;
}

-- UPDATE media_items: all columns but the ID, the owner and the creation time.
abbrev pub changed_item : Item → ItemRow → ItemRow
changed_item i r =
    if text_eq r.id i.id
    then record r {
      title = i.title;
      original_filename = i.original_filename;
      type = i.type;
      mime_type = i.mime_type;
      size = i.size;
      checksum = i.checksum;
      updated_at = i.updated_at;
    }
    else r

-- The update, and `requireOneMediaRow`.
unfoldable pub change_item : Item → Database → Result Database
change_item i db =
    if has_item i.id db.items
    then ok (record db { items = map (changed_item i) db.items })
    else err (item_not_found ∷ [])

-- DELETE FROM media_grants and media_authors WHERE media_id = ?
unfoldable pub drop_item_grants : Text → Database → Database
drop_item_grants id db = record db { grants = keep (λ r. not (text_eq r.media_id id)) db.grants }

unfoldable pub drop_item_authors : Text → Database → Database
drop_item_authors id db = record db { authors = keep (λ r. not (text_eq r.media_id id)) db.authors }

-- A row of another table refers to the item.
unfoldable pub item_is_referenced : Text → Database → Bool
item_is_referenced id db =
    any (λ r. text_eq r.media_id id) db.authors
    || any (λ r. text_eq r.media_id id) db.grants
    || any (λ r. text_eq r.media_id id) db.contents

-- DELETE FROM media_items WHERE id = ?, which the references restrict, and `requireOneMediaRow`.
unfoldable pub remove_item : Text → Database → Result Database
unfolding item_is_referenced
remove_item id db =
    if not (has_item id db.items)
    then err (item_not_found ∷ [])
    else if item_is_referenced id db
    then err (driver ∷ [])
    else ok (record db { items = keep (λ r. not (text_eq r.id id)) db.items })
