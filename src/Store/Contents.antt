-- ===== src/Store/Contents.antt =====
-- internal/storage/sqlite/content_location_repository.go. The `media_contents` table has the primary key
-- `media_id` and unique storage keys, and its rows refer to `media_items`.
use go_mediaarchive.Base.{
  Bool, not, ◌&&◌, ◌||◌, Option, none, some, [], ◌∷◌, if◌then◌else◌, any, find, keep,
}
use go_mediaarchive.Go.Text.{Text, text_eq}
use go_mediaarchive.Go.Failure.{Result, ok, err, location_conflict, location_not_found, driver}
use go_mediaarchive.Go.Action.{Action, lift, ◌>>=◌}
use go_mediaarchive.Identity.Username.{Platform}
use go_mediaarchive.Content.{Location, new_location}
use go_mediaarchive.Store.Tables.{Database, World}
use go_mediaarchive.Store.Statements.{query, exec}

-- `insertContentLocation`
unfoldable pub add_content : Location → Database → Result Database
add_content l db =
    if any (λ c. text_eq c.media_id l.media_id || text_eq c.storage_key l.storage_key) db.contents
    then err (location_conflict ∷ driver ∷ [])
    else if not (any (λ r. text_eq r.id l.media_id) db.items)
    then err (driver ∷ [])
    else ok (record db { contents = l ∷ db.contents })

-- `Create`
unfoldable pub create_location : Platform → Location → Action World (Unit {0})
create_location g candidate = do
  location ← lift (new_location g candidate.media_id candidate.storage_key candidate.stored_at)
  exec (add_content location)

abbrev pub one_location : Option Location → Result Location
one_location none = err (location_not_found ∷ [])
one_location (some l) = ok l

-- `FindByMediaID`
unfoldable pub find_location : Platform → Text → Action World Location
find_location g media_id = do
  row ← query (λ db. one_location (find (λ c. text_eq c.media_id media_id) db.contents))
  lift (new_location g media_id row.storage_key row.stored_at)

-- DELETE FROM media_contents WHERE media_id = ?, and the test on the number of rows.
unfoldable pub remove_content : Text → Database → Result Database
remove_content media_id db =
    if any (λ c. text_eq c.media_id media_id) db.contents
    then ok (record db { contents = keep (λ c. not (text_eq c.media_id media_id)) db.contents })
    else err (location_not_found ∷ [])

-- `Delete`
unfoldable pub delete_location : Text → Action World (Unit {0})
delete_location media_id = exec (remove_content media_id)

abbrev pub is_content_at : Text → Text → Location → Bool
is_content_at media_id key c = text_eq c.media_id media_id && text_eq c.storage_key key

-- DELETE FROM media_contents WHERE media_id = ? AND storage_key = ?, and
-- `requireOneContentLocationRow`.
unfoldable pub remove_matching_content : Text → Text → Database → Result Database
remove_matching_content media_id key db =
    if any (is_content_at media_id key) db.contents
    then ok (record db { contents = keep (λ c. not (is_content_at media_id key c)) db.contents })
    else err (location_not_found ∷ [])
