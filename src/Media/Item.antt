-- ===== src/Media/Item.antt =====
-- internal/media/item.go: `NewItem` and its normalizations.
pub mod Laws
use go_mediaarchive.Base.{
  ℕ, Bool, true, false, not, ◌&&◌, ◌||◌, Option, none, some, List, [], ◌∷◌, ltb, ◌==◌,
  if◌then◌else◌, length, any,
}
use go_mediaarchive.Base.Int.{ℤ, pos, negsuc}
use go_mediaarchive.Go.Text.{Text, codes, text_eq, trim_space, is_control, cut, contains}
use go_mediaarchive.Go.Time.{Time, is_zero, before, to_utc}
use go_mediaarchive.Go.Failure.{
  Result, ok, err, invalid_media_id, invalid_title, invalid_authors, invalid_original_filename,
  invalid_media_type, invalid_mime_type, invalid_size, invalid_checksum, invalid_owner_id,
  invalid_media_timestamp,
}
use go_mediaarchive.Go.Chain.{◌>>=◌, ◌>>◌}
use go_mediaarchive.Identity.Username.{Platform, canonical_uuid}
use go_mediaarchive.Media.Grant.{MediaType, Item, book, document, video, other}

-- The arguments of `NewItem`: the size is an int64, the checksum any bytes.
pub record RawItem : Type 0 where
  pub id : Text
  pub title : Text
  pub authors : List Text
  pub original_filename : Text
  pub type : MediaType
  pub mime_type : Text
  pub size : ℤ
  pub checksum : List ℕ
  pub owner_id : Text
  pub created_at : Time
  pub updated_at : Time

-- `Type.Valid`
unfoldable pub valid_media_type : MediaType → Bool
valid_media_type (other _) = false
valid_media_type _ = true

-- `containsControlCharacter`
unfoldable pub contains_control : Text → Bool
unfolding is_control
contains_control = any is_control

-- `length < 1 || length > maximum`
abbrev pub bad_length : ℕ → Text → Bool
bad_length maximum s = length s == 0 || ltb maximum (length s)

-- The title of `NewItem`
unfoldable pub normalize_title : Text → Result Text
unfolding contains_control
normalize_title raw =
    let title = trim_space raw in
    if bad_length 200 title
    then err (invalid_title ∷ [])
    else if contains_control title
    then err (invalid_title ∷ [])
    else ok title

-- The loop of `normalizeAuthors`: `seen` holds the normalized names so far.
unfoldable pub authors_after : List Text → List Text → Result (List Text)
unfolding contains_control
authors_after seen [] = ok []
authors_after seen (raw ∷ rest) =
    let author = trim_space raw in
    let others = authors_after (author ∷ seen) rest in
    if bad_length 100 author
    then err (invalid_authors ∷ [])
    else if contains_control author
    then err (invalid_authors ∷ [])
    else if any (text_eq author) seen
    then err (invalid_authors ∷ [])
    else elim others [ ok names ↦ ok (author ∷ names) | err e ↦ err e ]

-- `normalizeAuthors`
unfoldable pub normalize_authors : List Text → Result (List Text)
unfolding authors_after
normalize_authors raw =
    if ltb 20 (length raw) then err (invalid_authors ∷ []) else authors_after [] raw

-- `strings.ContainsAny(filename, "/\\:")`
unfoldable pub has_path_syntax : Text → Bool
has_path_syntax = any (λ c. c == b'/' || c == 92 || c == b':')

-- `normalizeOriginalFilename`
unfoldable pub normalize_original_filename : Text → Result Text
unfolding has_path_syntax contains_control
normalize_original_filename raw =
    let filename = trim_space raw in
    if bad_length 255 filename
    then err (invalid_original_filename ∷ [])
    else if text_eq filename (codes ".")
        || text_eq filename (codes "..")
        || has_path_syntax filename
    then err (invalid_original_filename ∷ [])
    else if contains_control filename
    then err (invalid_original_filename ∷ [])
    else ok filename

-- `strings.Split(mediaType, "/")` has two parts, and neither is empty.
unfoldable pub has_two_parts : Text → Bool
unfolding cut contains
has_two_parts s = elim (cut b'/' s) [
  | none ↦ false
  | some (type, subtype) ↦ not (length type == 0 || length subtype == 0 || contains b'/' subtype)
]

-- What `normalizeMIMEType` does with the parsed value.
unfoldable pub checked_mime_type : Option (Text × Bool) → Result Text
unfolding has_two_parts
checked_mime_type none = err (invalid_mime_type ∷ [])
checked_mime_type (some (media_type, has_parameters)) =
    if has_parameters
    then err (invalid_mime_type ∷ [])
    else if has_two_parts media_type
    then ok media_type
    else err (invalid_mime_type ∷ [])

-- `normalizeMIMEType`
unfoldable pub normalize_mime_type : Platform → Text → Result Text
unfolding checked_mime_type
normalize_mime_type g raw =
    let value = trim_space raw in
    if bad_length 127 value
    then err (invalid_mime_type ∷ [])
    else checked_mime_type (g.parse_media_type value)

-- `size <= 0`; else the size.
abbrev pub positive_size : ℤ → Result ℕ
positive_size (negsuc n) = err (invalid_size ∷ [])
positive_size (pos n) = if n == 0 then err (invalid_size ∷ []) else ok n

abbrev pub require : Bool → Result (Unit {0}) → Result (Unit {0})
require true e = ok tt
require false e = e

-- The tests on the timestamps.
unfoldable pub check_timestamps : Time → Time → Result (Unit {0})
check_timestamps created updated =
    if is_zero created || is_zero updated
    then err (invalid_media_timestamp ∷ [])
    else if before updated created
    then err (invalid_media_timestamp ∷ [])
    else ok tt

-- `NewItem`
unfoldable pub new_item : Platform → RawItem → Result Item
new_item g raw = do
  require (canonical_uuid g raw.id) (err (invalid_media_id ∷ []))
  title ← normalize_title raw.title
  authors ← normalize_authors raw.authors
  original_filename ← normalize_original_filename raw.original_filename
  require (valid_media_type raw.type) (err (invalid_media_type ∷ []))
  mime_type ← normalize_mime_type g raw.mime_type
  size ← positive_size raw.size
  require (length raw.checksum == 32) (err (invalid_checksum ∷ []))
  require (canonical_uuid g raw.owner_id) (err (invalid_owner_id ∷ []))
  check_timestamps raw.created_at raw.updated_at
  ok (record {
    id = raw.id;
    title = title;
    authors = authors;
    original_filename = original_filename;
    type = raw.type;
    mime_type = mime_type;
    size = size;
    checksum = raw.checksum;
    owner_id = raw.owner_id;
    created_at = to_utc raw.created_at;
    updated_at = to_utc raw.updated_at;
  })

-- An item as the arguments of `NewItem`: `validateMediaItem` calls it so.
abbrev pub raw_of : Item → RawItem
raw_of i = record {
  id = i.id;
  title = i.title;
  authors = i.authors;
  original_filename = i.original_filename;
  type = i.type;
  mime_type = i.mime_type;
  size = pos i.size;
  checksum = i.checksum;
  owner_id = i.owner_id;
  created_at = i.created_at;
  updated_at = i.updated_at;
}

-- `validateMediaItem`
unfoldable pub validate_media_item : Platform → Item → Result Item
validate_media_item g i = new_item g (raw_of i)
