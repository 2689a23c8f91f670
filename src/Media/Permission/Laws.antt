-- ===== src/Media/Permission/Laws.antt =====
-- `NewPermissionSet` against sets of operations, and the round trips of the two encodings.
use Prim.Native.Nat.{bit_and, bit_or}
use go_mediaarchive.Base.{
  ℕ, zero, suc, ◌<◌, ◌≡◌, refl, Bool, true, false, not, ◌&&◌, ◌||◌, List, [], ◌∷◌, arith, ◌==◌, any,
  every, if◌then◌else◌,
}
use go_mediaarchive.Go.Failure.{Result, ok, err, is_ok}
use go_mediaarchive.Media.Permission.{
  valid_permission, valid_set, check_set, has, combine, values, new_permission_set, permission_name,
  parse_permission,
}
use go_mediaarchive.Media.Permission.Bits.{
  holds_below, holds_below-at, bit_or-mask, bit_and-bit_or, valid_set_range,
}

-- Every supported permission is what its external name parses to.
pub parse_permission-name :
    (p : ℕ) → valid_permission p ≡ true → parse_permission (permission_name p) ≡ ok p
unfolding valid_permission parse_permission permission_name
parse_permission-name p h = ground arith

-- The requested list names no operation twice and only supported ones.
abbrev pub is_request : List ℕ → Bool
is_request [] = true
is_request (p ∷ ps) = valid_permission p && not (any (λ q. q == p) ps) && is_request ps

-- The mask that the loop returns has what it began with and what the list names.
combine_has :
    (s : ℕ) (ps : List ℕ) (r q : ℕ)
    → s < 64
    → valid_permission q ≡ true
    → combine s ps ≡ ok r
    → (r < 64) × ((not (bit_and r q == 0)) ≡ (not (bit_and s q == 0) || any (λ p. q == p) ps))
unfolding combine
combine_has s [] r q h v e = ground arith
combine_has s (p ∷ ps) r q h v e =
    ground (arith, bit_or-mask s p h, bit_and-bit_or s p q h, combine_has (bit_or s p) ps r q)

-- No operation of the list is in the mask.
abbrev is_fresh : ℕ → List ℕ → Bool
is_fresh s = every (λ q. bit_and s q == 0)

is_fresh-bit_or :
    (s p : ℕ) (ps : List ℕ)
    → s < 64
    → valid_permission p ≡ true
    → is_request ps ≡ true
    → is_fresh (bit_or s p) ps ≡ (is_fresh s ps && not (any (λ q. q == p) ps))
is_fresh-bit_or s p [] h v w = refl
is_fresh-bit_or s p (q ∷ ps) h v w =
    ground (arith, bit_and-bit_or s p q h v, is_fresh-bit_or s p ps h v)

is_ok-combine :
    (s : ℕ) (ps : List ℕ) → s < 64 → is_ok (combine s ps) ≡ (is_request ps && is_fresh s ps)
unfolding combine
is_ok-combine s [] h = refl
is_ok-combine s (p ∷ ps) h =
    ground (arith, bit_or-mask s p h, is_fresh-bit_or s p ps h, is_ok-combine (bit_or s p) ps)

is_fresh-zero : (ps : List ℕ) → is_request ps ≡ true → is_fresh 0 ps ≡ true
unfolding valid_permission
is_fresh-zero [] h = refl
is_fresh-zero (p ∷ ps) h = ground (arith, is_fresh-zero ps)

bit_and_zero : (p : ℕ) → valid_permission p ≡ true → (bit_and 0 p == 0) ≡ true
unfolding valid_permission
bit_and_zero p h = ground arith

combine_pos :
    (p : ℕ) (ps : List ℕ) (r : ℕ) → combine 0 (p ∷ ps) ≡ ok r → valid_permission p ≡ true → 0 < r
combine_pos p ps zero e v =
    ground (arith, combine_has 0 (p ∷ ps) 0 p (omega arith) v e, bit_and_zero p v)
combine_pos p ps (suc r) e v = omega arith

is_ok-check_set :
    (c : Result ℕ) → ((r : ℕ) → c ≡ ok r → (r < 64) × (0 < r)) → is_ok (check_set c) ≡ is_ok c
unfolding check_set
is_ok-check_set (ok r) h =
    let (small, pos) = h r refl in rw (valid_set_range r (omega arith)) (ground arith)
is_ok-check_set (err e) h = refl

-- The constructor accepts exactly the lists that are not empty, name supported operations only, and
-- repeat none.
pub is_ok-new_permission_set :
    (ps : List ℕ)
    → is_ok (new_permission_set ps) ≡ (is_request ps && not (elim ps [ [] ↦ true | _ ↦ false ]))
unfolding new_permission_set
is_ok-new_permission_set [] = refl
is_ok-new_permission_set (p ∷ ps) =
    rw (is_ok-check_set (combine 0 (p ∷ ps)) bounds)
      (ground (arith, is_ok-combine 0 (p ∷ ps), is_fresh-zero (p ∷ ps)))
  where
    bounds : (r : ℕ) → combine 0 (p ∷ ps) ≡ ok r → (r < 64) × (0 < r)
    bounds r e =
        let v : valid_permission p ≡ true =
          ground (arith, is_ok-combine 0 (p ∷ ps) (omega arith)) in
        ((combine_has 0 (p ∷ ps) r p (omega arith) v e).0, combine_pos p ps r e v)

check_set-ok : (c : Result ℕ) (r : ℕ) → check_set c ≡ ok r → (c ≡ ok r) × (valid_set r ≡ true)
unfolding check_set
check_set-ok (ok s) r e = ground arith
check_set-ok (err x) r e = cc

-- An accepted mask allows exactly the operations of the list, and no unknown bit is set.
pub has-new_permission_set :
    (ps : List ℕ) (r q : ℕ)
    → new_permission_set ps ≡ ok r
    → valid_permission q ≡ true
    → (r < 64) × (has r q ≡ any (λ p. q == p) ps)
unfolding new_permission_set has
has-new_permission_set ps r q e v =
    let (c, w) = check_set-ok (combine 0 ps) r e in
    ground (arith, combine_has 0 ps r q (omega arith) v c, bit_and_zero q v)

round_trip : ℕ → Bool
round_trip s =
    if valid_set s
    then elim (new_permission_set (values s)) [ ok r ↦ r == s | err _ ↦ false ]
    else true

round_trip_table : holds_below round_trip 256 ≡ true
unfolding holds_below round_trip new_permission_set values
round_trip_table = refl

-- A mask is what its list of operations combines to.
pub new_permission_set-values :
    (s : ℕ) → s < 256 → valid_set s ≡ true → new_permission_set (values s) ≡ ok s
unfolding round_trip
new_permission_set-values s h v = ground (arith, holds_below-at round_trip 256 s h round_trip_table)
