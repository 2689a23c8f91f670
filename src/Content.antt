-- ===== src/Content.antt =====
-- internal/content/location.go: `Location`, `NewLocation` and `normalizeStorageKey`.
use go_mediaarchive.Base.{
  Bool, true, false, not, ◌&&◌, ◌||◌, List, [], ◌∷◌, ltb, ◌==◌, if◌then◌else◌, length, any,
}
use go_mediaarchive.Go.Text.{Text, codes, text_eq, trim_space, is_control}
use go_mediaarchive.Go.Time.{Time, is_zero, to_utc}
use go_mediaarchive.Go.Failure.{
  Result, ok, err, invalid_content_media_id, invalid_storage_key, invalid_stored_at,
}
use go_mediaarchive.Go.Chain.{◌>>=◌}
use go_mediaarchive.Identity.Username.{Platform, canonical_uuid}

pub record Location : Type 0 where
  pub media_id : Text
  pub storage_key : Text
  pub stored_at : Time

-- `strings.Split(key, "/")`: the first segment, and the others.
unfoldable pub segments : Text → Text × List Text
segments [] = ([], [])
segments (c ∷ s) =
    let (first, rest) = segments s in if c == b'/' then ([], first ∷ rest) else (c ∷ first, rest)

abbrev pub is_dot : Text → Bool
is_dot s = text_eq s (codes ".")

abbrev pub is_dots : Text → Bool
is_dots s = text_eq s (codes "..")

-- A segment that `path.Clean` keeps after a name: it is neither empty nor made of one or two dots.
abbrev pub is_name : Text → Bool
is_name s = not (length s == 0) && not (is_dot s) && not (is_dots s)

-- Segments that `path.Clean` keeps: a name ends the leading run of two dots.
unfoldable pub are_clean : Bool → List Text → Bool
are_clean leading [] = true
are_clean leading (s ∷ rest) =
    let after = are_clean (leading && is_dots s) rest in
    (is_name s || (leading && is_dots s)) && after

-- `path.Clean(key) == key`, for a key that is not empty, not absolute and not ".".
unfoldable pub is_clean : Text → Bool
unfolding segments are_clean
is_clean key = let (first, rest) = segments key in are_clean true (first ∷ rest)

-- `path.IsAbs`
abbrev pub is_absolute : Text → Bool
is_absolute [] = false
is_absolute (c ∷ s) = c == b'/'

-- `strings.ContainsAny(key, "\\:")`
unfoldable pub has_separator : Text → Bool
has_separator = any (λ c. c == 92 || c == b':')

-- `normalizeStorageKey`
unfoldable pub normalize_storage_key : Text → Result Text
unfolding is_control
normalize_storage_key key =
    if length key == 0 || ltb 255 (length key)
    then err (invalid_storage_key ∷ [])
    else if not (text_eq key (trim_space key))
        || is_absolute key
        || is_dot key
        || is_dots key
        || not (is_clean key)
        || has_separator key
    then err (invalid_storage_key ∷ [])
    else if any is_control key
    then err (invalid_storage_key ∷ [])
    else ok key

-- `NewLocation`
unfoldable pub new_location : Platform → Text → Text → Time → Result Location
new_location g media_id raw_key stored_at =
    if not (canonical_uuid g media_id) then err (invalid_content_media_id ∷ []) else do
      key ← normalize_storage_key raw_key
      if is_zero stored_at
          then err (invalid_stored_at ∷ [])
          else ok (record { media_id = media_id; storage_key = key; stored_at = to_utc stored_at })
