-- ===== src/Limiter/Bucket.antt =====
-- One bucket of attempts, and the maps of buckets (`map[string]attemptBucket`).
pub mod Laws
pub mod Tally
use go_mediaarchive.Base.{
  ℕ, ◌+◌, ◌-◌, Bool, true, false, not, ◌&&◌, ◌||◌, Option, none, some, ltb, ◌==◌, if◌then◌else◌,
}
use go_mediaarchive.Go.Text.{Text, text_eq}
use go_mediaarchive.Go.Time.{Time, Duration, is_zero, before, add}

pub record Bucket : Type 0 where
  pub failures : ℕ
  pub pending : ℕ
  pub started_at : Time

-- A Go map from texts: `none` where the key is missing.
abbrev pub Buckets : Type 0
Buckets = Text → Option Bucket

-- What reading a missing key gives.
abbrev pub zero_time : Time
zero_time = record { instant = 0; utc = true }

abbrev pub zero_bucket : Bucket
zero_bucket = record { failures = 0; pending = 0; started_at = zero_time }

abbrev pub or_zero : Option Bucket → Bucket
or_zero none = zero_bucket
or_zero (some b) = b

abbrev pub put : Buckets → Text → Option Bucket → Buckets
put m key b k = if text_eq k key then b else m k

-- `!now.Before(bucket.startedAt.Add(window))`
unfoldable pub is_over : Bucket → Time → Duration → Bool
is_over b now window = not (before now (add b.started_at window))

-- The test that `bucketAllows`, `reserveBucket` and `completeFailedAttempt` begin with.
unfoldable pub is_unused : Bucket → Time → Duration → Bool
is_unused b now window = is_zero b.started_at || is_over b now window

unfoldable pub bucket_allows : Bucket → ℕ → Time → Duration → Bool
bucket_allows b limit now window =
    if is_unused b now window then true else ltb (b.failures + b.pending) limit

unfoldable pub reserve_bucket : Bucket → Time → Duration → Bucket
reserve_bucket b now window =
    if is_unused b now window
    then record { failures = 0; pending = 1; started_at = now }
    else record b { pending = b.pending + 1 }

unfoldable pub complete_failed_attempt : Bucket → Time → Duration → Bucket
complete_failed_attempt b now window =
    if is_unused b now window
    then record { failures = 1; pending = 0; started_at = now }
    else record b { pending = b.pending - 1; failures = b.failures + 1 }

-- What `releaseReservation` leaves under its key.
unfoldable pub released : Option Bucket → Option Bucket
released none = none
released (some b) =
    if b.failures == 0 && b.pending - 1 == 0
    then none
    else some (record b { pending = b.pending - 1 })

unfoldable pub release_reservation : Buckets → Text → Buckets
unfolding released
release_reservation m key = put m key (released (m key))

-- One loop of `cleanupExpired`.
unfoldable pub drop_over : Option Bucket → Time → Duration → Option Bucket
drop_over none now window = none
drop_over (some b) now window = if is_over b now window then none else some b

unfoldable pub cleanup_map : Buckets → Time → Duration → Buckets
unfolding drop_over
cleanup_map m now window key = drop_over (m key) now window
