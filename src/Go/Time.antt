-- ===== src/Go/Time.antt =====
-- `time.Time` and `time.Duration`. An instant counts the nanoseconds since Go's zero time, the
-- start of year 1; `utc` says that the location is `time.UTC`.
use go_mediaarchive.Base.{ℕ, suc, ◌+◌, ◌-◌, Bool, true, ◌==◌, ltb}

-- A signed 64-bit count of nanoseconds; `negsuc n` is -(n + 1).
pub data Duration : Type 0 where
  pos : ℕ → Duration
  negsuc : ℕ → Duration

-- `duration <= 0`
abbrev pub not_positive : Duration → Bool
not_positive (pos n) = n == 0
not_positive (negsuc n) = true

pub record Time : Type 0 where
  pub instant : ℕ
  pub utc : Bool

abbrev pub is_zero : Time → Bool
is_zero t = t.instant == 0

abbrev pub before : Time → Time → Bool
before s t = ltb s.instant t.instant

-- `t.UTC()`: the same instant in another location.
abbrev pub to_utc : Time → Time
to_utc t = record { instant = t.instant; utc = true }

-- `t.Add(d)`; no instant here lies before the zero time.
abbrev pub shift : ℕ → Duration → ℕ
shift i (pos n) = i + n
shift i (negsuc n) = i - suc n

abbrev pub add : Time → Duration → Time
add t d = record { instant = shift t.instant d; utc = t.utc }
