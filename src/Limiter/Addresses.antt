-- ===== src/Limiter/Addresses.antt =====
-- internal/application/passwords/limiter.go: `IPAttemptLimiter`, with the bucket functions of that file.
-- The record of a bucket and the map are those of Limiter/Bucket.
pub mod Refinement
use go_mediaarchive.Base.{
  ℕ, ◌+◌, ◌-◌, Bool, true, false, not, ◌&&◌, ◌||◌, Option, none, some, ltb, ◌==◌, if◌then◌else◌,
}
use go_mediaarchive.Go.Text.{Text}
use go_mediaarchive.Go.Time.{Time, Duration, is_zero, before, add}
use go_mediaarchive.Limiter.Bucket.{Bucket, Buckets, or_zero, zero_time, put}

-- `ipBucketAllows`
unfoldable pub ip_bucket_allows : Bucket → ℕ → Time → Duration → Bool
ip_bucket_allows bucket limit now window =
    if is_zero bucket.started_at || not (before now (add bucket.started_at window))
    then true
    else ltb (bucket.failures + bucket.pending) limit

-- `reserveIPBucket`
unfoldable pub reserve_ip_bucket : Bucket → Time → Duration → Bucket
reserve_ip_bucket bucket now window =
    if is_zero bucket.started_at || not (before now (add bucket.started_at window))
    then record { failures = 0; pending = 1; started_at = now }
    else record bucket { pending = bucket.pending + 1 }

-- `completeFailedIPAttempt`
unfoldable pub complete_failed_ip_attempt : Bucket → Time → Duration → Bucket
complete_failed_ip_attempt bucket now window =
    if is_zero bucket.started_at || not (before now (add bucket.started_at window))
    then record { failures = 1; pending = 0; started_at = now }
    else record bucket { pending = bucket.pending - 1; failures = bucket.failures + 1 }

pub record AddressLimiter : Type 0 where
  pub limit : ℕ
  pub window : Duration
  pub buckets : Buckets
  pub next_cleanup : Time

-- `NewIPAttemptLimiter`
unfoldable pub new_address_limiter : ℕ → Duration → AddressLimiter
new_address_limiter limit window = record {
  limit = limit;
  window = window;
  buckets = λ _. none;
  next_cleanup = zero_time;
}

-- The body of the loop of `cleanupExpired`.
unfoldable pub keep_bucket : Option Bucket → Time → Duration → Option Bucket
keep_bucket none now window = none
keep_bucket (some bucket) now window =
    if not (before now (add bucket.started_at window)) then none else some bucket

-- `cleanupExpired`
unfoldable pub cleanup_addresses : AddressLimiter → Time → AddressLimiter
unfolding keep_bucket
cleanup_addresses l now =
    if not (is_zero l.next_cleanup) && before now l.next_cleanup then l else record l {
      buckets = λ ip. keep_bucket (l.buckets ip) now l.window;
      next_cleanup = add now l.window;
    }

-- `Allow`
unfoldable pub allow_address : AddressLimiter → Text → Time → AddressLimiter × Bool
allow_address limiter ip now =
    let l = cleanup_addresses limiter now in
    if not (ip_bucket_allows (or_zero (l.buckets ip)) l.limit now l.window) then (l, false) else (
      record l {
        buckets = put l.buckets ip (some (reserve_ip_bucket (or_zero (l.buckets ip)) now l.window));
      },
      true,
    )

-- `RecordFailure`
unfoldable pub record_address_failure : AddressLimiter → Text → Time → AddressLimiter
record_address_failure limiter ip now =
    let l = cleanup_addresses limiter now in
    record l {
      buckets =
          put l.buckets ip
            (some (complete_failed_ip_attempt (or_zero (l.buckets ip)) now l.window));
    }

-- `RecordSuccess`
unfoldable pub record_address_success : AddressLimiter → Text → AddressLimiter
record_address_success l ip = record l { buckets = put l.buckets ip none }

-- What `Cancel` leaves under its key.
unfoldable pub cancelled : Option Bucket → Option Bucket
cancelled none = none
cancelled (some bucket) =
    let pending = bucket.pending - 1 in
    if bucket.failures == 0 && pending == 0
    then none
    else some (record bucket { pending = pending })

-- `Cancel`
unfoldable pub cancel_address : AddressLimiter → Text → AddressLimiter
unfolding cancelled
cancel_address l ip = record l { buckets = put l.buckets ip (cancelled (l.buckets ip)) }
