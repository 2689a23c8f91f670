-- ===== src/Identity/Username/Laws.antt =====
-- What `NormalizeUsername` returns is a plain ASCII name that it leaves as it is.
use go_mediaarchive.Base.{ℕ, ◌≤◌, ◌≡◌, refl, true, false, List, [], ◌∷◌, arith, length, every}
use go_mediaarchive.Go.Text.{Text, trim_space, trim_right, is_space, to_lower, lower_rune, utf8}
use go_mediaarchive.Go.Failure.{ok}
use go_mediaarchive.Identity.Username.{Platform, normalize_username, username_bytes, is_allowed}

utf8_allowed :
    (s : Text) → every is_allowed (utf8 s) ≡ true → (utf8 s ≡ s) × (every is_allowed s ≡ true)
unfolding utf8 is_allowed
utf8_allowed [] h = (refl, refl)
utf8_allowed (c ∷ s) h = ground (arith, utf8_allowed s)

allowed_not_space : (c : ℕ) → is_allowed c ≡ true → is_space c ≡ false
unfolding is_allowed is_space
allowed_not_space c h = ground arith

trim_right_allowed : (s : Text) → every is_allowed s ≡ true → trim_right s ≡ s
unfolding trim_right
trim_right_allowed [] h = refl
trim_right_allowed (c ∷ []) h = ground (arith, allowed_not_space c)
trim_right_allowed (c ∷ d ∷ s) h = ground (arith, trim_right_allowed (d ∷ s))

trim_space_allowed : (s : Text) → every is_allowed s ≡ true → trim_space s ≡ s
unfolding trim_space
trim_space_allowed [] h = refl
trim_space_allowed (c ∷ s) h = ground (arith, allowed_not_space c, trim_right_allowed (c ∷ s))

lower_rune_allowed : (t : ℕ → ℕ) (c : ℕ) → is_allowed c ≡ true → lower_rune t c ≡ c
unfolding is_allowed lower_rune
lower_rune_allowed t c h = ground arith

to_lower_allowed : (t : ℕ → ℕ) (s : Text) → every is_allowed s ≡ true → to_lower t s ≡ s
unfolding to_lower
to_lower_allowed t [] h = refl
to_lower_allowed t (c ∷ s) h = ground (arith, lower_rune_allowed t c, to_lower_allowed t s)

username_bytes-every : (s : List ℕ) → username_bytes s ≡ true → every is_allowed s ≡ true
unfolding username_bytes
username_bytes-every [] h = refl
username_bytes-every (c ∷ s) h = ground arith

-- The form of a stored username: 3 to 32 ASCII characters `a-z0-9_-`, a letter or digit first.
pub record IsUsername (n : Text) : Type 0 where
  pub at_least : 3 ≤ length n
  pub at_most : length n ≤ 32
  pub first : username_bytes n ≡ true
  pub allowed : every is_allowed n ≡ true

utf8-ascii : (s : Text) → every is_allowed s ≡ true → utf8 s ≡ s
unfolding utf8 is_allowed
utf8-ascii [] h = refl
utf8-ascii (c ∷ s) h = ground (arith, utf8-ascii s)

IsUsername-normalize : (g : Platform) (n : Text) → IsUsername n → normalize_username g n ≡ ok n
unfolding normalize_username
IsUsername-normalize g n v =
    rw
      (
        trim_space_allowed n v.allowed,
        to_lower_allowed g.lower_case n v.allowed,
        utf8-ascii n v.allowed,
      )
      (ground arith)

normalized_bytes :
    (g : Platform) (u n : Text)
    → normalize_username g u ≡ ok n
    → (3 ≤ length (utf8 n)) × (length (utf8 n) ≤ 32) × (username_bytes (utf8 n) ≡ true)
unfolding normalize_username
normalized_bytes g u n h = ground arith

-- A username that is accepted has 3 to 32 characters, each of them a lower-case ASCII letter, a digit,
-- a dash or an underscore, and begins with a letter or a digit.
pub normalize_username-IsUsername :
    (g : Platform) (u n : Text) → normalize_username g u ≡ ok n → IsUsername n
normalize_username-IsUsername g u n h =
    let b = normalized_bytes g u n h in
    let plain = utf8_allowed n (username_bytes-every (utf8 n) b.2) in
    record {
      at_least = rw plain.0 at b.0;
      at_most = rw plain.0 at b.1;
      first = rw plain.0 at b.2;
      allowed = plain.1;
    }

-- A stored username is its own normal form.
pub normalize_username_idem :
    (g : Platform) (u n : Text) → normalize_username g u ≡ ok n → normalize_username g n ≡ ok n
normalize_username_idem g u n h = IsUsername-normalize g n (normalize_username-IsUsername g u n h)
