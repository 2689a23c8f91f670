-- ===== src/Limiter/Bucket/Tally.antt =====
-- The failures that one bucket holds, counted from the beginning of a window.
use go_mediaarchive.Base.{ℕ, suc, ◌≤◌, ◌<◌, ◌≡◌, refl, false, Option, none, some, ◌⊎◌, arith}
use go_mediaarchive.Go.Time.{Time, Duration, shift}
use go_mediaarchive.Limiter.Bucket.{
  Bucket, or_zero, reserve_bucket, complete_failed_attempt, released, drop_over, is_unused, is_over,
}
use go_mediaarchive.Limiter.Bucket.Laws.{live, permits}

-- At least `n` failures in a window that began at the instant `first` or later; where `n` is zero, a
-- window that was over at `first` counts as none.
abbrev pub HasTally : ℕ → ℕ → Duration → Option Bucket → Type 0
HasTally n first window none = n ≡ 0
HasTally n first window (some b) =
    ((n ≡ 0) × ((b.started_at.instant ≡ 0) ⊎ (shift b.started_at.instant window ≤ first)))
    ⊎ ((n ≤ b.failures) × (0 < b.started_at.instant) × (first ≤ b.started_at.instant))

shift_mono : (i j : ℕ) (window : Duration) → i ≤ j → shift i window ≤ shift j window
shift_mono i j (Duration.pos n) h = omega arith
shift_mono i j (Duration.negsuc n) h = omega arith

pub HasTally-start :
    (o : Option Bucket) (first : Time) (window : Duration)
    → live o first window ≡ none
    → HasTally 0 first.instant window o
unfolding live is_unused is_over
HasTally-start none first window e = refl
HasTally-start (some b) first window e = ground arith

pub HasTally-drop_over :
    (n first : ℕ) (window : Duration) (o : Option Bucket) (now : Time)
    → now.instant < shift first window
    → HasTally n first window o
    → HasTally n first window (drop_over o now window)
unfolding drop_over is_over
HasTally-drop_over n first window none now t h = h
HasTally-drop_over n first window (some b) now t h =
    ground (arith, shift_mono first b.started_at.instant window)

pub HasTally-reserve :
    (n first : ℕ) (window : Duration) (o : Option Bucket) (now : Time)
    → 0 < first
    → first ≤ now.instant
    → now.instant < shift first window
    → HasTally n first window o
    → HasTally n first window (some (reserve_bucket (or_zero o) now window))
unfolding reserve_bucket is_unused is_over
HasTally-reserve n first window none now p s t h = ground arith
HasTally-reserve n first window (some b) now p s t h =
    ground (arith, shift_mono first b.started_at.instant window)

pub HasTally-complete :
    (n first : ℕ) (window : Duration) (o : Option Bucket) (now : Time)
    → 0 < first
    → first ≤ now.instant
    → now.instant < shift first window
    → HasTally n first window o
    → HasTally (suc n) first window (some (complete_failed_attempt (or_zero o) now window))
unfolding complete_failed_attempt is_unused is_over
HasTally-complete n first window none now p s t h = ground arith
HasTally-complete n first window (some b) now p s t h =
    ground (arith, shift_mono first b.started_at.instant window)

pub HasTally-released :
    (n first : ℕ) (window : Duration) (o : Option Bucket)
    → HasTally n first window o
    → HasTally n first window (released o)
unfolding released
HasTally-released n first window none h = h
HasTally-released n first window (some b) h = ground arith

pub HasTally-permits :
    (n limit first : ℕ) (window : Duration) (o : Option Bucket) (now : Time)
    → 1 ≤ limit
    → limit ≤ n
    → now.instant < shift first window
    → HasTally n first window o
    → permits (live o now window) limit ≡ false
unfolding permits live is_unused is_over
HasTally-permits n limit first window none now p k t h = ground arith
HasTally-permits n limit first window (some b) now p k t h =
    ground (arith, shift_mono first b.started_at.instant window)
