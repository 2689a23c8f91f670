-- ===== src/Media/Item/Laws.antt =====
-- An item that `NewItem` returns is its own normal form.
use go_mediaarchive.Base.{
  suc, ◌≤◌, ◌≡◌, refl, ◌∙◌, Bool, true, false, Option, none, some, List, [], ◌∷◌, arith, length,
}
use go_mediaarchive.Go.Text.{Text, trim_space, cut}
use go_mediaarchive.Go.Text.Trim.{trim_space_idem}
use go_mediaarchive.Go.Failure.{Result, ok, err}
use go_mediaarchive.Identity.Username.{Platform}
use go_mediaarchive.Media.Grant.{Item}
use go_mediaarchive.Media.Item.{
  RawItem, normalize_title, authors_after, normalize_authors, normalize_original_filename,
  normalize_mime_type, checked_mime_type, has_two_parts, check_timestamps, new_item,
  validate_media_item,
}

normalize_title_idem : (r t : Text) → normalize_title r ≡ ok t → normalize_title t ≡ ok t
unfolding normalize_title
normalize_title_idem r t h = ground (arith, trim_space_idem r)

normalize_original_filename_idem :
    (r t : Text) → normalize_original_filename r ≡ ok t → normalize_original_filename t ≡ ok t
unfolding normalize_original_filename
normalize_original_filename_idem r t h = ground (arith, trim_space_idem r)

authors_after_idem :
    (seen raw names : List Text)
    → authors_after seen raw ≡ ok names
    → (authors_after seen names ≡ ok names) × (length names ≡ length raw)
unfolding authors_after
authors_after_idem seen [] names h = ground arith
authors_after_idem seen (r ∷ raw) names h =
    go (authors_after (trim_space r ∷ seen) raw) refl (authors_after_idem (trim_space r ∷ seen) raw)
  where
    go :
        (o : Result (List Text))
        → authors_after (trim_space r ∷ seen) raw ≡ o
        → ((others : List Text)
            → authors_after (trim_space r ∷ seen) raw ≡ ok others
            → (authors_after (trim_space r ∷ seen) others ≡ ok others)
              × (length others ≡ length raw))
        → (authors_after seen names ≡ ok names) × (length names ≡ suc (length raw))
    go (err e) q rec = ground (arith, q)
    go (ok others) q rec = ground (arith, q, rec others q, trim_space_idem r)

normalize_authors_idem :
    (raw names : List Text) → normalize_authors raw ≡ ok names → normalize_authors names ≡ ok names
unfolding normalize_authors
normalize_authors_idem raw names h = ground (arith, authors_after_idem [] raw names)

-- What the documentation of `mime.ParseMediaType` says of the media type that it returns: lower case and
-- trimmed. Such a type is its own media type, and no longer than the text that it was parsed from.
pub record IsMimeParser (g : Platform) : Type 0 where
  pub again :
      (t m : Text) → g.parse_media_type t ≡ some (m, false) → g.parse_media_type m ≡ some (m, false)
  pub trimmed : (t m : Text) → g.parse_media_type t ≡ some (m, false) → trim_space m ≡ m
  pub shorter : (t m : Text) → g.parse_media_type t ≡ some (m, false) → length m ≤ length t

checked_mime_type-ok :
    (o : Option (Text × Bool)) (m : Text)
    → checked_mime_type o ≡ ok m
    → (o ≡ some (m, false)) × (has_two_parts m ≡ true)
unfolding checked_mime_type
checked_mime_type-ok none m h = cc
checked_mime_type-ok (some (t, b)) m h = ground arith

has_two_parts-length : (m : Text) → has_two_parts m ≡ true → 1 ≤ length m
unfolding has_two_parts cut
has_two_parts-length [] h = cc
has_two_parts-length (c ∷ m) h = omega arith

accepted : (m : Text) → has_two_parts m ≡ true → checked_mime_type (some (m, false)) ≡ ok m
unfolding checked_mime_type
accepted m h = ground arith

normalize_mime_type_idem :
    (g : Platform) (r m : Text)
    → IsMimeParser g
    → normalize_mime_type g r ≡ ok m
    → normalize_mime_type g m ≡ ok m
unfolding normalize_mime_type
normalize_mime_type_idem g r m p h = go (g.parse_media_type (trim_space r)) refl
  where
    go :
        (o : Option (Text × Bool))
        → g.parse_media_type (trim_space r) ≡ o
        → normalize_mime_type g m ≡ ok m
    go o q =
        let (e, two) = checked_mime_type-ok o m (ground (arith, q)) in
        let parsed : g.parse_media_type (trim_space r) ≡ some (m, false) = q ∙ e in
        ground (
          arith,
          p.again (trim_space r) m parsed,
          p.trimmed (trim_space r) m parsed,
          p.shorter (trim_space r) m parsed,
          has_two_parts-length m two,
          accepted m two,
        )

-- Validating an item that `NewItem` returned gives that item, as the repository does on every write
-- and on every read.
pub new_item_idem :
    (g : Platform) (raw : RawItem) (i : Item)
    → IsMimeParser g
    → new_item g raw ≡ ok i
    → validate_media_item g i ≡ ok i
unfolding validate_media_item new_item check_timestamps
new_item_idem g raw i p h = ground (
  arith,
  normalize_title_idem raw.title i.title,
  normalize_authors_idem raw.authors i.authors,
  normalize_original_filename_idem raw.original_filename i.original_filename,
  normalize_mime_type_idem g raw.mime_type i.mime_type p,
)
