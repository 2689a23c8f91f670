-- ===== src/Limiter/Bucket/Laws.antt =====
-- A bucket as a decision sees it: one whose window is over counts as none.
use go_mediaarchive.Base.{
  ℕ, ◌+◌, ◌≤◌, ◌<◌, ◌≡◌, refl, Bool, true, false, Option, none, some, ◌⊎◌, arith, ltb,
  if◌then◌else◌,
}
use go_mediaarchive.Go.Time.{Time, Duration, shift}
use go_mediaarchive.Limiter.Bucket.{
  Bucket, or_zero, is_over, is_unused, bucket_allows, reserve_bucket, complete_failed_attempt,
  released, drop_over,
}

unfoldable pub live : Option Bucket → Time → Duration → Option Bucket
live none now window = none
live (some b) now window = if is_unused b now window then none else some b

-- The bucket's window is open from its first attempt, and no longer.
unfoldable pub permits : Option Bucket → ℕ → Bool
permits none limit = true
permits (some b) limit = ltb (b.failures + b.pending) limit

pub bucket_allows-live :
    (o : Option Bucket) (limit : ℕ) (now : Time) (window : Duration)
    → bucket_allows (or_zero o) limit now window ≡ permits (live o now window) limit
unfolding bucket_allows live permits is_unused
bucket_allows-live none limit now window = refl
bucket_allows-live (some b) limit now window = ground arith

-- Cleaning up at one moment changes nothing that is seen then or later.
pub live-drop_over :
    (o : Option Bucket) (now later : Time) (window : Duration)
    → now.instant ≤ later.instant
    → live (drop_over o now window) later window ≡ live o later window
unfolding live drop_over is_unused is_over
live-drop_over none now later window h = refl
live-drop_over (some b) now later window h = ground arith

-- A bucket with at least `n` failures, whose window is open up to the instant `end`.
abbrev pub IsLocked : ℕ → ℕ → Duration → Option Bucket → Type 0
IsLocked n end window none = ⊥
IsLocked n end window (some b) =
    (n ≤ b.failures) × (0 < b.started_at.instant) × (shift b.started_at.instant window ≡ end)

pub IsLocked-permits :
    (n limit end : ℕ) (window : Duration) (o : Option Bucket) (now : Time)
    → IsLocked n end window o
    → limit ≤ n
    → now.instant < end
    → permits (live o now window) limit ≡ false
unfolding permits live is_unused is_over
IsLocked-permits n limit end window none now h k t = absurd h
IsLocked-permits n limit end window (some b) now h k t = ground arith

pub IsLocked-drop_over :
    (n end : ℕ) (window : Duration) (o : Option Bucket) (now : Time)
    → IsLocked n end window o
    → now.instant < end
    → IsLocked n end window (drop_over o now window)
unfolding drop_over is_over
IsLocked-drop_over n end window none now h t = h
IsLocked-drop_over n end window (some b) now h t = ground arith

pub IsLocked-reserve :
    (n end : ℕ) (window : Duration) (o : Option Bucket) (now : Time)
    → IsLocked n end window o
    → now.instant < end
    → IsLocked n end window (some (reserve_bucket (or_zero o) now window))
unfolding reserve_bucket is_unused is_over
IsLocked-reserve n end window none now h t = absurd h
IsLocked-reserve n end window (some b) now h t = ground arith

pub IsLocked-complete :
    (n end : ℕ) (window : Duration) (o : Option Bucket) (now : Time)
    → IsLocked n end window o
    → now.instant < end
    → IsLocked n end window (some (complete_failed_attempt (or_zero o) now window))
unfolding complete_failed_attempt is_unused is_over
IsLocked-complete n end window none now h t = absurd h
IsLocked-complete n end window (some b) now h t = ground arith

pub IsLocked-released :
    (n end : ℕ) (window : Duration) (o : Option Bucket)
    → 1 ≤ n
    → IsLocked n end window o
    → IsLocked n end window (released o)
unfolding released
IsLocked-released n end window none p h = h
IsLocked-released n end window (some b) p h = ground arith

-- No more attempts are under way or failed than the limit.
abbrev pub IsWithin : ℕ → Option Bucket → Type 0
IsWithin limit none = Unit
IsWithin limit (some b) = b.failures + b.pending ≤ limit

pub IsWithin-reserve :
    (limit : ℕ) (window : Duration) (o : Option Bucket) (now : Time)
    → 1 ≤ limit
    → IsWithin limit o
    → bucket_allows (or_zero o) limit now window ≡ true
    → IsWithin limit (some (reserve_bucket (or_zero o) now window))
unfolding reserve_bucket bucket_allows is_unused
IsWithin-reserve limit window none now p h a = ground arith
IsWithin-reserve limit window (some b) now p h a = ground arith

pub IsWithin-released :
    (limit : ℕ) (o : Option Bucket) → IsWithin limit o → IsWithin limit (released o)
unfolding released
IsWithin-released limit none h = h
IsWithin-released limit (some b) h = ground arith

pub IsWithin-drop_over :
    (limit : ℕ) (window : Duration) (o : Option Bucket) (now : Time)
    → IsWithin limit o
    → IsWithin limit (drop_over o now window)
unfolding drop_over
IsWithin-drop_over limit window none now h = h
IsWithin-drop_over limit window (some b) now h = ground arith

-- A key for which a failure can be recorded within its limit: its attempt is still reserved, or its
-- window is over.
abbrev pub IsReserved : Option Bucket → Time → Duration → Type 0
IsReserved o now window = (0 < (or_zero o).pending) ⊎ (live o now window ≡ none)

-- A failure that is reported for a reserved attempt takes the reservation's place.
pub IsWithin-complete :
    (limit : ℕ) (window : Duration) (o : Option Bucket) (now : Time)
    → 1 ≤ limit
    → IsWithin limit o
    → IsReserved o now window
    → IsWithin limit (some (complete_failed_attempt (or_zero o) now window))
unfolding complete_failed_attempt live is_unused is_over
IsWithin-complete limit window none now p h r = ground arith
IsWithin-complete limit window (some b) now p h r = ground arith

-- What one more attempt under way makes of the state of a key.
abbrev pub one_pending : Time → Option Bucket → Option Bucket
one_pending now none = some (record { failures = 0; pending = 1; started_at = now })
one_pending now (some b) =
    some (record { failures = b.failures; pending = b.pending + 1; started_at = b.started_at })

pub live-reserve :
    (o : Option Bucket) (now : Time) (window : Duration)
    → 0 < now.instant
    → now.instant < shift now.instant window
    → live (some (reserve_bucket (or_zero o) now window)) now window
      ≡ one_pending now (live o now window)
unfolding live reserve_bucket is_unused is_over
live-reserve none now window p q = ground arith
live-reserve (some b) now window p q = ground arith

pub IsReserved-drop_over :
    (o : Option Bucket) (now : Time) (window : Duration)
    → IsReserved o now window
    → IsReserved (drop_over o now window) now window
unfolding drop_over live is_unused
IsReserved-drop_over none now window h = h
IsReserved-drop_over (some b) now window h = ground arith
