-- ===== src/Api/ContentRange.antt =====
-- internal/api/content_range.go: the `Range` header of a content request. A size is the length of a
-- stored file, which is never negative.
pub mod Bounds
pub mod Texts
use go_mediaarchive.Base.{
  ℕ, ◌+◌, ◌-◌, ◌*◌, ◌^◌, Bool, true, false, not, ◌&&◌, ◌||◌, Option, none, some, List, [], ◌∷◌, ltb,
  leb, ◌==◌, if◌then◌else◌, any, every, map,
}
use go_mediaarchive.Go.Text.{cut, contains, Text, codes, text_eq}
use go_mediaarchive.Go.Failure.{Result, ok, err, invalid_content_range}

pub record ContentRange : Type 0 where
  pub start : ℕ
  pub length : ℕ

-- Simple case folding, as far as it leads to an ASCII letter: U+017F folds to s, U+212A to k.
unfoldable pub fold_rune : ℕ → ℕ
fold_rune c =
    if leb b'A' c && leb c b'Z'
    then c + 32
    else if c == 0x17f
    then b's'
    else if c == 0x212a
    then b'k'
    else c

-- `strings.EqualFold(unit, "bytes")`
unfoldable pub is_bytes_unit : Text → Bool
unfolding fold_rune text_eq
is_bytes_unit unit = text_eq (map fold_rune unit) (codes "bytes")

unfoldable pub is_digit : ℕ → Bool
is_digit c = leb b'0' c && leb c b'9'

-- The value of decimal digits read after a number.
unfoldable pub decimal : ℕ → Text → ℕ
decimal n [] = n
decimal n (c ∷ s) = decimal (n * 10 + (c - b'0')) s

abbrev pub int64_bound : ℕ
int64_bound = 2 ^ 63

-- `strconv.ParseInt` on digits fails past the largest int64.
unfoldable pub parse_range_number : Text → Result ℕ
unfolding is_digit decimal
parse_range_number [] = err (invalid_content_range ∷ [])
parse_range_number (c ∷ s) =
    if not (every is_digit (c ∷ s))
    then err (invalid_content_range ∷ [])
    else if ltb (decimal 0 (c ∷ s)) int64_bound
    then ok (decimal 0 (c ∷ s))
    else err (invalid_content_range ∷ [])

abbrev pub invalid : Result (ContentRange × Bool)
invalid = err (invalid_content_range ∷ [])

abbrev pub partial : ℕ → ℕ → Result (ContentRange × Bool)
partial start length = ok (record { start = start; length = length }, true)

-- `case startValue == ""`: the last bytes.
unfoldable pub suffix_range : Result ℕ → ℕ → Result (ContentRange × Bool)
suffix_range (err _) size = invalid
suffix_range (ok suffix) size =
    if suffix == 0
    then invalid
    else let n = if ltb size suffix then size else suffix in partial (size - n) n

-- `case endValue == ""`: everything from a start on.
unfoldable pub open_range : Result ℕ → ℕ → Result (ContentRange × Bool)
open_range (err _) size = invalid
open_range (ok start) size = if leb size start then invalid else partial start (size - start)

unfoldable pub closed_range : Result ℕ → Result ℕ → ℕ → Result (ContentRange × Bool)
closed_range (err _) end size = invalid
closed_range (ok start) (err _) size = invalid
closed_range (ok start) (ok end) size =
    if leb size start
    then invalid
    else if ltb end start
    then invalid
    else let last = if leb size end then size - 1 else end in partial start (last - start + 1)

-- The switch on the two parts of the specification.
unfoldable pub select_range : Text → Text → ℕ → Result (ContentRange × Bool)
unfolding suffix_range open_range closed_range
select_range [] end size = suffix_range (parse_range_number end) size
select_range (c ∷ s) [] size = open_range (parse_range_number (c ∷ s)) size
select_range (c ∷ s) (d ∷ t) size =
    closed_range (parse_range_number (c ∷ s)) (parse_range_number (d ∷ t)) size

unfoldable pub parse_specification : Text → ℕ → Result (ContentRange × Bool)
unfolding contains cut
parse_specification specification size =
    if text_eq specification [] || contains b',' specification
    then invalid
    else elim (cut b'-' specification) [
      | none ↦ invalid
      | some (start, end) ↦ if contains b'-' end then invalid else select_range start end size
    ]

unfoldable pub parse_content_range : List Text → ℕ → Result (ContentRange × Bool)
unfolding is_bytes_unit cut
parse_content_range [] size = ok (record { start = 0; length = size }, false)
parse_content_range (header ∷ []) size = if size == 0 then invalid else elim (cut b'=' header) [
  | none ↦ invalid
  | some (unit, specification) ↦
      if is_bytes_unit unit then parse_specification specification size else invalid
]
parse_content_range (_ ∷ _ ∷ _) size = invalid
