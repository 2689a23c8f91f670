-- ===== src/Go/Text/Trim.antt =====
-- `strings.TrimSpace` of its own result.
use go_mediaarchive.Base.{◌≡◌, refl, ap, ◌∙◌, inl, inr, true, false, Bool-cases, [], ◌∷◌, arith, ℕ}
use go_mediaarchive.Go.Text.{Text, is_space, trim_left, trim_right, trim_space, put_before}

put_before-twice : (c : ℕ) (s : Text) → put_before c s ≡ [] → is_space c ≡ true
unfolding put_before
put_before-twice c [] h = ground arith
put_before-twice c (d ∷ s) h = cc

trim_right_idem : (s : Text) → trim_right (trim_right s) ≡ trim_right s
unfolding trim_right put_before
trim_right_idem [] = refl
trim_right_idem (c ∷ s) = go (trim_right s) (trim_right_idem s)
  where
    go : (t : Text) → trim_right t ≡ t → trim_right (put_before c t) ≡ put_before c t
    go [] h = elim (Bool-cases (is_space c)) [
      | inl e ↦ ground (arith, e)
      | inr e ↦ ground (arith, e)
    ]
    go (d ∷ r) h = ground (arith, h)

-- A text that begins with no space.
abbrev IsFlush : Text → Type 0
IsFlush [] = Unit
IsFlush (c ∷ s) = is_space c ≡ false

trim_left-IsFlush : (s : Text) → IsFlush (trim_left s)
unfolding trim_left
trim_left-IsFlush [] = tt
trim_left-IsFlush (c ∷ s) = elim (Bool-cases (is_space c)) [
  | inl e ↦ rw e (trim_left-IsFlush s)
  | inr e ↦ rw e e
]

trim_left-flush : (s : Text) → IsFlush s → trim_left s ≡ s
unfolding trim_left
trim_left-flush [] h = refl
trim_left-flush (c ∷ s) h = ground arith

trim_right-IsFlush : (s : Text) → IsFlush s → IsFlush (trim_right s)
unfolding trim_right put_before
trim_right-IsFlush [] h = tt
trim_right-IsFlush (c ∷ s) h = go (trim_right s)
  where
    go : (t : Text) → IsFlush (put_before c t)
    go [] = rw h h
    go (d ∷ r) = h

pub trim_space_idem : (s : Text) → trim_space (trim_space s) ≡ trim_space s
unfolding trim_space
trim_space_idem s =
    ap trim_right (
      trim_left-flush (trim_right (trim_left s))
        (trim_right-IsFlush (trim_left s) (trim_left-IsFlush s)))
    ∙ trim_right_idem (trim_left s)
