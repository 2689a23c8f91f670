-- ===== src/Limiter/Attempts.antt =====
-- internal/application/authentication/limiter.go: `AttemptLimiter`.
pub mod Decisions
pub mod Lockout
pub mod Failures
use go_mediaarchive.Base.{ℕ, Bool, true, false, not, ◌&&◌, ◌||◌, Option, none, some, if◌then◌else◌}
use go_mediaarchive.Go.Text.{Text, trim_space, to_lower}
use go_mediaarchive.Go.Time.{Time, Duration, is_zero, before, add}
use go_mediaarchive.Go.Failure.{Result, ok, err}
use go_mediaarchive.Identity.Username.{Platform, normalize_username}
use go_mediaarchive.Limiter.Bucket.{
  Bucket, Buckets, or_zero, zero_time, put, bucket_allows, reserve_bucket, complete_failed_attempt,
  release_reservation, cleanup_map,
}

-- `AttemptLimiter` without its mutex.
pub record AttemptLimiter : Type 0 where
  pub username_limit : ℕ
  pub ip_limit : ℕ
  pub window : Duration
  pub usernames : Buckets
  pub ip_addresses : Buckets
  pub next_cleanup : Time

-- `NewAttemptLimiter`
unfoldable pub new_attempt_limiter : ℕ → ℕ → Duration → AttemptLimiter
new_attempt_limiter username_limit ip_limit window = record {
  username_limit = username_limit;
  ip_limit = ip_limit;
  window = window;
  usernames = λ _. none;
  ip_addresses = λ _. none;
  next_cleanup = zero_time;
}

-- `limiterUsernameKey`
unfoldable pub username_key : Platform → Text → Text
username_key g username = elim (normalize_username g username) [
  | ok normalized ↦ normalized
  | err _ ↦ to_lower g.lower_case (trim_space username)
]

-- `cleanupExpired`
unfoldable pub cleanup_expired : AttemptLimiter → Time → AttemptLimiter
unfolding cleanup_map
cleanup_expired l now =
    if not (is_zero l.next_cleanup) && before now l.next_cleanup then l else record l {
      usernames = cleanup_map l.usernames now l.window;
      ip_addresses = cleanup_map l.ip_addresses now l.window;
      next_cleanup = add now l.window;
    }

unfoldable pub reserve_both : AttemptLimiter → Text → Text → Time → AttemptLimiter
reserve_both l key ip now = record l {
  usernames = put l.usernames key (some (reserve_bucket (or_zero (l.usernames key)) now l.window));
  ip_addresses =
      put l.ip_addresses ip (some (reserve_bucket (or_zero (l.ip_addresses ip)) now l.window));
}

-- `Allow`, on the key of the username.
unfoldable pub allow_key : AttemptLimiter → Text → Text → Time → AttemptLimiter × Bool
unfolding reserve_both
allow_key limiter key ip now =
    let l = cleanup_expired limiter now in
    if not (bucket_allows (or_zero (l.usernames key)) l.username_limit now l.window)
      || not (bucket_allows (or_zero (l.ip_addresses ip)) l.ip_limit now l.window)
    then (l, false)
    else (reserve_both l key ip now, true)

unfoldable pub allow : Platform → AttemptLimiter → Text → Text → Time → AttemptLimiter × Bool
allow g l username ip now = allow_key l (username_key g username) ip now

-- `RecordFailure`
unfoldable pub record_failure_key : AttemptLimiter → Text → Text → Time → AttemptLimiter
record_failure_key limiter key ip now =
    let l = cleanup_expired limiter now in
    record l {
      usernames =
          put l.usernames key
            (some (complete_failed_attempt (or_zero (l.usernames key)) now l.window));
      ip_addresses =
          put l.ip_addresses ip
            (some (complete_failed_attempt (or_zero (l.ip_addresses ip)) now l.window));
    }

unfoldable pub record_failure : Platform → AttemptLimiter → Text → Text → Time → AttemptLimiter
record_failure g l username ip now = record_failure_key l (username_key g username) ip now

-- `RecordSuccess`
unfoldable pub record_success_key : AttemptLimiter → Text → Text → AttemptLimiter
record_success_key l key ip = record l {
  usernames = put l.usernames key none;
  ip_addresses = release_reservation l.ip_addresses ip;
}

unfoldable pub record_success : Platform → AttemptLimiter → Text → Text → AttemptLimiter
record_success g l username ip = record_success_key l (username_key g username) ip

-- `Cancel`
unfoldable pub cancel_key : AttemptLimiter → Text → Text → AttemptLimiter
cancel_key l key ip = record l {
  usernames = release_reservation l.usernames key;
  ip_addresses = release_reservation l.ip_addresses ip;
}

unfoldable pub cancel : Platform → AttemptLimiter → Text → Text → AttemptLimiter
cancel g l username ip = cancel_key l (username_key g username) ip
