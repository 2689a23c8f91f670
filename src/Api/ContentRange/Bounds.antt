-- ===== src/Api/ContentRange/Bounds.antt =====
-- A range that is served lies within the file.
use go_mediaarchive.Base.{
  ℕ, ◌+◌, ◌≤◌, ◌<◌, ◌≡◌, Bool, true, List, [], ◌∷◌, inl, inr, Option-cases, arith,
}
use go_mediaarchive.Go.Text.{cut, Text}
use go_mediaarchive.Go.Failure.{Result, ok, err}
use go_mediaarchive.Api.ContentRange.{
  ContentRange, suffix_range, open_range, closed_range, select_range, parse_range_number,
  parse_specification, parse_content_range,
}

-- What the caller of the parser may rely on.
abbrev pub IsServable : ℕ → Result (ContentRange × Bool) → Type 0
IsServable size (ok (r, partial)) = (r.start + r.length ≤ size) × (partial ≡ true → 0 < r.length)
IsServable size (err _) = Unit

suffix_range-IsServable :
    (r : Result ℕ) (size : ℕ) → 0 < size → IsServable size (suffix_range r size)
unfolding suffix_range
suffix_range-IsServable (err e) size p = tt
suffix_range-IsServable (ok n) size p = ground arith

open_range-IsServable : (r : Result ℕ) (size : ℕ) → IsServable size (open_range r size)
unfolding open_range
open_range-IsServable (err e) size = tt
open_range-IsServable (ok n) size = ground arith

closed_range-IsServable : (r s : Result ℕ) (size : ℕ) → IsServable size (closed_range r s size)
unfolding closed_range
closed_range-IsServable (err e) s size = tt
closed_range-IsServable (ok n) (err e) size = tt
closed_range-IsServable (ok n) (ok m) size = ground arith

select_range-IsServable :
    (s t : Text) (size : ℕ) → 0 < size → IsServable size (select_range s t size)
unfolding select_range
select_range-IsServable [] t size p = suffix_range-IsServable (parse_range_number t) size p
select_range-IsServable (c ∷ s) [] size p = open_range-IsServable (parse_range_number (c ∷ s)) size
select_range-IsServable (c ∷ s) (d ∷ t) size p =
    closed_range-IsServable (parse_range_number (c ∷ s)) (parse_range_number (d ∷ t)) size

parse_specification-IsServable :
    (s : Text) (size : ℕ) → 0 < size → IsServable size (parse_specification s size)
unfolding parse_specification
parse_specification-IsServable s size p = elim (Option-cases (cut b'-' s)) [
  | inl e ↦ ground arith
  | inr ((a, b), e) ↦ ground (arith, select_range-IsServable a b size p)
]

-- Whatever the headers, a range that the parser returns lies within the file, and a partial one is
-- not empty.
pub parse_content_range-IsServable :
    (headers : List Text) (size : ℕ) → IsServable size (parse_content_range headers size)
unfolding parse_content_range
parse_content_range-IsServable [] size = ground arith
parse_content_range-IsServable (h ∷ []) size = elim (Option-cases (cut b'=' h)) [
  | inl e ↦ ground arith
  | inr ((a, b), e) ↦ ground (arith, parse_specification-IsServable b size)
]
parse_content_range-IsServable (h ∷ k ∷ hs) size = tt
