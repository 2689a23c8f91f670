-- ===== src/Api/ContentRange/Texts.antt =====
-- What a header with two numbers, one of which may be left out, asks for.
use go_mediaarchive.Base.{
  ℕ, ◌+◌, ◌-◌, ◌<◌, ◌≡◌, refl, Bool, true, false, ◌&&◌, [], ◌∷◌, ◌++◌, Option, none, some, arith,
  ltb, leb, ◌==◌, if◌then◌else◌, every,
}
use go_mediaarchive.Go.Text.{cut, contains, Text, codes, text_eq}
use go_mediaarchive.Go.Failure.{Result, ok, err, invalid_content_range}
use go_mediaarchive.Api.ContentRange.{
  ContentRange, is_digit, decimal, parse_range_number, suffix_range, open_range, closed_range,
  select_range, parse_specification, parse_content_range, partial, invalid, int64_bound,
}

-- The number that digits stand for, where there are any.
abbrev pub value : Text → Option ℕ
value [] = none
value (c ∷ s) = some (decimal 0 (c ∷ s))

abbrev pub least : ℕ → ℕ → ℕ
least a b = if leb a b then a else b

-- RFC 9110: the last `n` bytes, the bytes from `m` on, or the bytes from `m` through `n`, each clamped
-- to the file; `invalid` where no byte is asked for or none is there.
abbrev pub rfc_range : Option ℕ → Option ℕ → ℕ → Result (ContentRange × Bool)
rfc_range none none size = invalid
rfc_range none (some n) size =
    if n == 0 then invalid else partial (size - least n size) (least n size)
rfc_range (some m) none size = if ltb m size then partial m (size - m) else invalid
rfc_range (some m) (some n) size =
    if ltb m size && leb m n then partial m (least (n + 1) size - m) else invalid

-- The number is left out or is an int64.
abbrev pub fits_int64 : Option ℕ → Bool
fits_int64 none = true
fits_int64 (some n) = ltb n int64_bound

-- The range of the numbers, or an error if one of them is too large for an int64.
abbrev pub int64_range : Option ℕ → Option ℕ → ℕ → Result (ContentRange × Bool)
int64_range a b size = if fits_int64 a && fits_int64 b then rfc_range a b size else invalid

cut-digits : (a b : Text) → every is_digit a ≡ true → cut b'-' (a ++ b'-' ∷ b) ≡ some (a, b)
unfolding cut is_digit
cut-digits [] b h = refl
cut-digits (c ∷ a) b h = ground (arith, cut-digits a b)

contains-digits :
    (c : ℕ) (a : Text) → is_digit c ≡ false → every is_digit a ≡ true → contains c a ≡ false
unfolding contains is_digit
contains-digits c [] n h = refl
contains-digits c (d ∷ a) n h = ground (arith, contains-digits c a n)

contains-comma :
    (a b : Text)
    → every is_digit a ≡ true
    → every is_digit b ≡ true
    → contains b',' (a ++ b'-' ∷ b) ≡ false
unfolding contains is_digit
contains-comma [] b h k = ground (arith, contains-digits b',' b refl k)
contains-comma (c ∷ a) b h k = ground (arith, contains-comma a b)

not_empty : (a b : Text) → text_eq (a ++ b'-' ∷ b) [] ≡ false
unfolding text_eq
not_empty [] b = refl
not_empty (c ∷ a) b = refl

header-select_range :
    (a b : Text) (size : ℕ)
    → every is_digit a ≡ true
    → every is_digit b ≡ true
    → 0 < size
    → parse_content_range ((codes "bytes=" ++ a ++ b'-' ∷ b) ∷ []) size ≡ select_range a b size
unfolding parse_content_range parse_specification is_digit
header-select_range a b size h k p =
    ground (
      arith,
      cut-digits a b h,
      contains-digits b'-' b refl k,
      contains-comma a b h k,
      not_empty a b,
    )

parse_range_number-digits :
    (c : ℕ) (s : Text)
    → every is_digit (c ∷ s) ≡ true
    → parse_range_number (c ∷ s) ≡ (
        if ltb (decimal 0 (c ∷ s)) int64_bound
        then ok (decimal 0 (c ∷ s))
        else err (invalid_content_range ∷ []))
unfolding parse_range_number
parse_range_number-digits c s h = rw h

parse_range_number-empty : parse_range_number [] ≡ err (invalid_content_range ∷ [])
unfolding parse_range_number
parse_range_number-empty = refl

suffix_range-empty : (size : ℕ) → suffix_range (err (invalid_content_range ∷ [])) size ≡ invalid
unfolding suffix_range
suffix_range-empty size = refl

suffix_range-int64_range :
    (n size : ℕ)
    → 0 < size
    → suffix_range (if ltb n int64_bound then ok n else err (invalid_content_range ∷ [])) size
      ≡ int64_range none (some n) size
unfolding suffix_range
suffix_range-int64_range n size p = ground arith

open_range-int64_range :
    (n size : ℕ)
    → size < int64_bound
    → open_range (if ltb n int64_bound then ok n else err (invalid_content_range ∷ [])) size
      ≡ int64_range (some n) none size
unfolding open_range
open_range-int64_range n size q = ground arith

closed_range-int64_range :
    (m n size : ℕ)
    → 0 < size
    → size < int64_bound
    → closed_range
        (if ltb m int64_bound then ok m else err (invalid_content_range ∷ []))
        (if ltb n int64_bound then ok n else err (invalid_content_range ∷ []))
        size
      ≡ int64_range (some m) (some n) size
unfolding closed_range
closed_range-int64_range m n size p q = ground arith

select_range-int64_range :
    (a b : Text) (size : ℕ)
    → every is_digit a ≡ true
    → every is_digit b ≡ true
    → 0 < size
    → size < int64_bound
    → select_range a b size ≡ int64_range (value a) (value b) size
unfolding select_range
select_range-int64_range [] [] size h k p q = rw parse_range_number-empty (suffix_range-empty size)
select_range-int64_range [] (d ∷ b) size h k p q =
    rw (parse_range_number-digits d b k) (suffix_range-int64_range (decimal 0 (d ∷ b)) size p)
select_range-int64_range (c ∷ a) [] size h k p q =
    rw (parse_range_number-digits c a h) (open_range-int64_range (decimal 0 (c ∷ a)) size q)
select_range-int64_range (c ∷ a) (d ∷ b) size h k p q =
    rw (parse_range_number-digits c a h, parse_range_number-digits d b k)
      (closed_range-int64_range (decimal 0 (c ∷ a)) (decimal 0 (d ∷ b)) size p q)

-- For every file of less than 2^63 bytes and every two texts of digits, possibly empty, the header
-- `bytes=a-b` is answered by the range of the file that RFC 9110 gives to the two numbers, and by
-- the error where it gives none, if both numbers are below 2^63; a number from 2^63 on is always
-- answered by the error, also where RFC 9110 would clamp it to the file.
pub parse_content_range-rfc_range :
    (a b : Text) (size : ℕ)
    → every is_digit a ≡ true
    → every is_digit b ≡ true
    → 0 < size
    → size < int64_bound
    → parse_content_range ((codes "bytes=" ++ a ++ b'-' ∷ b) ∷ []) size ≡ (
        if fits_int64 (value a) && fits_int64 (value b)
        then rfc_range (value a) (value b) size
        else invalid)
parse_content_range-rfc_range a b size h k p q =
    rw (header-select_range a b size h k p) (select_range-int64_range a b size h k p q)
