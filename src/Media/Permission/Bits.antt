-- ===== src/Media/Permission/Bits.antt =====
-- Facts about the bits of permission masks, by evaluation over every mask.
use Prim.Native.Nat.{bit_and, bit_or}
use go_mediaarchive.Base.{
  ℕ, zero, suc, ◌<◌, ◌≡◌, refl, Bool, true, false, not, ◌&&◌, ◌||◌, arith, ltb, ◌==◌, every,
}
use go_mediaarchive.Media.Permission.{valid_permission, valid_set, ordered_permissions}

abbrev pub iff : Bool → Bool → Bool
iff true b = b
iff false b = not b

pub iff→≡ : (a b : Bool) → iff a b ≡ true → a ≡ b
iff→≡ true b h = ground arith
iff→≡ false b h = ground arith

-- The test passes on each number less than `n`.
unfoldable pub holds_below : (ℕ → Bool) → ℕ → Bool
holds_below test zero = true
holds_below test (suc n) = holds_below test n && test n

pub holds_below-at : (test : ℕ → Bool) (n x : ℕ) → x < n → holds_below test n ≡ true → test x ≡ true
unfolding holds_below
holds_below-at test zero x small passed = absurd (omega arith)
holds_below-at test (suc n) x small passed = ground (arith, holds_below-at test n x)

-- A check of all the supported operations is a check of each.
pub every_permission :
    (f : ℕ → Bool) (p : ℕ)
    → every f ordered_permissions ≡ true
    → valid_permission p ≡ true
    → f p ≡ true
unfolding valid_permission
every_permission f p h v = ground arith

valid_set_table : holds_below (λ s. iff (valid_set s) (not (s == 0) && ltb s 64)) 256 ≡ true
unfolding holds_below valid_set
valid_set_table = refl

pub valid_set_range : (s : ℕ) → s < 256 → valid_set s ≡ (not (s == 0) && ltb s 64)
valid_set_range s h = iff→≡ _ _ (holds_below-at _ 256 s h valid_set_table)

-- Adding a permission to a mask: the result is a mask, and has that one more.
is_mask : ℕ → ℕ → Bool
is_mask s p = ltb (bit_or s p) 64 && not (bit_or s p == 0)

adds_one : ℕ → ℕ → ℕ → Bool
adds_one s p q = iff (not (bit_and (bit_or s p) q == 0)) (not (bit_and s q == 0) || q == p)

is_mask_table : holds_below (λ s. every (is_mask s) ordered_permissions) 64 ≡ true
unfolding holds_below is_mask
is_mask_table = refl

adds_one_table :
    holds_below (λ s. every (λ p. every (adds_one s p) ordered_permissions) ordered_permissions) 64
    ≡ true
unfolding holds_below adds_one
adds_one_table = refl

pub bit_or-mask :
    (s p : ℕ) → s < 64 → valid_permission p ≡ true → (bit_or s p < 64) × (0 < bit_or s p)
unfolding is_mask
bit_or-mask s p h v =
    let row : every (is_mask s) ordered_permissions ≡ true =
      holds_below-at (λ s. every (is_mask s) ordered_permissions) 64 s h is_mask_table in
    let cell : is_mask s p ≡ true = every_permission (is_mask s) p row v in ground (arith, cell)

pub bit_and-bit_or :
    (s p q : ℕ)
    → s < 64
    → valid_permission p ≡ true
    → valid_permission q ≡ true
    → (not (bit_and (bit_or s p) q == 0)) ≡ (not (bit_and s q == 0) || q == p)
unfolding adds_one
bit_and-bit_or s p q h v w =
    let f : ℕ → ℕ → Bool = λ s p. every (adds_one s p) ordered_permissions in
    let row = holds_below-at (λ s. every (f s) ordered_permissions) 64 s h adds_one_table in
    let cell = every_permission (f s) p row v in
    iff→≡ _ _ (every_permission (adds_one s p) q cell w)
