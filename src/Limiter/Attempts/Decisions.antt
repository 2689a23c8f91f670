-- ===== src/Limiter/Attempts/Decisions.antt =====
-- What `Allow` decides and records, seen through the buckets whose window is open: when the
-- limiter last cleaned up makes no difference.
use go_mediaarchive.Base.{
  ◌≤◌, ◌<◌, ◌≡◌, not, ◌&&◌, Option, arith, Bool-cases, inl, inr, if◌then◌else◌,
}
use go_mediaarchive.Go.Text.{Text, text_eq, text_eq→≡}
use go_mediaarchive.Go.Time.{Time, shift, is_zero, before}
use go_mediaarchive.Limiter.Bucket.{Bucket, release_reservation}
use go_mediaarchive.Limiter.Bucket.Laws.{
  live, permits, bucket_allows-live, live-drop_over, IsWithin, IsWithin-reserve, IsWithin-released,
  IsWithin-drop_over, IsWithin-complete, one_pending, live-reserve, IsReserved,
  IsReserved-drop_over,
}
use go_mediaarchive.Limiter.Attempts.{
  AttemptLimiter, cleanup_expired, allow_key, record_failure_key, record_success_key, cancel_key,
  reserve_both,
}

-- The state of a key at a moment.
abbrev pub user_state : AttemptLimiter → Text → Time → Option Bucket
user_state l k now = live (l.usernames k) now l.window

abbrev pub ip_state : AttemptLimiter → Text → Time → Option Bucket
ip_state l k now = live (l.ip_addresses k) now l.window

cleanup_expired-user_state :
    (l : AttemptLimiter) (now later : Time) (k : Text)
    → now.instant ≤ later.instant
    → user_state (cleanup_expired l now) k later ≡ user_state l k later
unfolding cleanup_expired
cleanup_expired-user_state l now later k h =
    ground (arith, live-drop_over (l.usernames k) now later l.window)

pub cleanup_expired-ip_state :
    (l : AttemptLimiter) (now later : Time) (k : Text)
    → now.instant ≤ later.instant
    → ip_state (cleanup_expired l now) k later ≡ ip_state l k later
unfolding cleanup_expired
cleanup_expired-ip_state l now later k h =
    ground (arith, live-drop_over (l.ip_addresses k) now later l.window)

pub cleanup_expired-config :
    (l : AttemptLimiter) (now : Time)
    → ((cleanup_expired l now).window ≡ l.window)
      × ((cleanup_expired l now).username_limit ≡ l.username_limit)
      × ((cleanup_expired l now).ip_limit ≡ l.ip_limit)
unfolding cleanup_expired
cleanup_expired-config l now = ground arith

-- An attempt is allowed exactly if the open window of its username and the open window of its address
-- both have room.
pub allow_key-decision :
    (l : AttemptLimiter) (key ip : Text) (now : Time)
    → (allow_key l key ip now).1
      ≡ (permits (user_state l key now) l.username_limit && permits (ip_state l ip now) l.ip_limit)
unfolding allow_key
allow_key-decision l key ip now =
    let c = cleanup_expired l now in
    ground (
      arith,
      cleanup_expired-config l now,
      cleanup_expired-user_state l now now key (omega arith),
      cleanup_expired-ip_state l now now ip (omega arith),
      bucket_allows-live (c.usernames key) c.username_limit now c.window,
      bucket_allows-live (c.ip_addresses ip) c.ip_limit now c.window,
    )

-- An allowed attempt adds one pending attempt, and no failure, to the state of its username and of its
-- address, starting a window now where none is open; the state of every other key stays as it
-- is, and a refused attempt leaves the state of every key as it is.
pub allow_key-states :
    (l : AttemptLimiter) (key ip : Text) (now : Time) (k : Text)
    → 0 < now.instant
    → now.instant < shift now.instant l.window
    → let (l', allowed) = allow_key l key ip now in
      (user_state l' k now ≡ (
        if allowed && text_eq k key
        then one_pending now (user_state l k now)
        else user_state l k now))
      × (ip_state l' k now ≡ (
          if allowed && text_eq k ip then one_pending now (ip_state l k now) else ip_state l k now))
unfolding allow_key reserve_both
allow_key-states l key ip now k p q =
    let c = cleanup_expired l now in
    ground (
      arith,
      text_eq→≡ k key,
      text_eq→≡ k ip,
      cleanup_expired-config l now,
      cleanup_expired-user_state l now now k (omega arith),
      cleanup_expired-ip_state l now now k (omega arith),
      live-reserve (c.usernames k) now l.window p q,
      live-reserve (c.ip_addresses k) now l.window p q,
    )

-- The invariant: no key has more attempts failed or under way than its limit.
abbrev pub IsBounded : AttemptLimiter → Type 0
IsBounded l =
    ((k : Text) → IsWithin l.username_limit (l.usernames k))
    × ((k : Text) → IsWithin l.ip_limit (l.ip_addresses k))

cleanup_expired-IsBounded :
    (l : AttemptLimiter) (now : Time) → IsBounded l → IsBounded (cleanup_expired l now)
unfolding cleanup_expired
cleanup_expired-IsBounded l now h = (
  λ k. ground (arith, h.0 k, IsWithin-drop_over l.username_limit l.window (l.usernames k) now),
  λ k. ground (arith, h.1 k, IsWithin-drop_over l.ip_limit l.window (l.ip_addresses k) now),
)

-- At limits of at least one, `Allow` never lets the failed and pending attempts of a username or of an
-- address exceed their limit.
pub allow_key-IsBounded :
    (l : AttemptLimiter) (key ip : Text) (now : Time)
    → 1 ≤ l.username_limit
    → 1 ≤ l.ip_limit
    → IsBounded l
    → IsBounded (allow_key l key ip now).0
unfolding allow_key reserve_both
allow_key-IsBounded l key ip now p q h =
    let c = cleanup_expired l now in
    let b = cleanup_expired-IsBounded l now h in
    (
      λ k. ground (
        arith,
        b.0 k,
        cleanup_expired-config l now,
        text_eq→≡ k key,
        IsWithin-reserve l.username_limit c.window (c.usernames k) now,
      ),
      λ k. ground (
        arith,
        b.1 k,
        cleanup_expired-config l now,
        text_eq→≡ k ip,
        IsWithin-reserve l.ip_limit c.window (c.ip_addresses k) now,
      ),
    )

pub cancel_key-IsBounded :
    (l : AttemptLimiter) (key ip : Text) → IsBounded l → IsBounded (cancel_key l key ip)
unfolding cancel_key release_reservation
cancel_key-IsBounded l key ip h = (
  λ k. ground (arith, h.0 k, text_eq→≡ k key, IsWithin-released l.username_limit (l.usernames k)),
  λ k. ground (arith, h.1 k, text_eq→≡ k ip, IsWithin-released l.ip_limit (l.ip_addresses k)),
)

pub record_success_key-IsBounded :
    (l : AttemptLimiter) (key ip : Text) → IsBounded l → IsBounded (record_success_key l key ip)
unfolding record_success_key release_reservation
record_success_key-IsBounded l key ip h = (
  λ k. ground (arith, h.0 k, text_eq→≡ k key),
  λ k. ground (arith, h.1 k, text_eq→≡ k ip, IsWithin-released l.ip_limit (l.ip_addresses k)),
)

cleanup_expired-IsReserved :
    (l : AttemptLimiter) (now : Time) (key ip : Text)
    → IsReserved (l.usernames key) now l.window
    → IsReserved (l.ip_addresses ip) now l.window
    → IsReserved ((cleanup_expired l now).usernames key) now l.window
      × IsReserved ((cleanup_expired l now).ip_addresses ip) now l.window
unfolding cleanup_expired
cleanup_expired-IsReserved l now key ip u v =
    elim (Bool-cases (not (is_zero l.next_cleanup) && before now l.next_cleanup)) [
      | inl early ↦ rw early (u, v)
      | inr due ↦ rw due (
        IsReserved-drop_over (l.usernames key) now l.window u,
        IsReserved-drop_over (l.ip_addresses ip) now l.window v,
      )
    ]

-- At limits of at least one, a failure that is recorded for a username and an address with a pending
-- attempt, or with no open window, keeps both within their limits.
pub record_failure_key-IsBounded :
    (l : AttemptLimiter) (key ip : Text) (now : Time)
    → 1 ≤ l.username_limit
    → 1 ≤ l.ip_limit
    → IsReserved (l.usernames key) now l.window
    → IsReserved (l.ip_addresses ip) now l.window
    → IsBounded l
    → IsBounded (record_failure_key l key ip now)
unfolding record_failure_key
record_failure_key-IsBounded l key ip now p q u v h =
    let c = cleanup_expired l now in
    let b = cleanup_expired-IsBounded l now h in
    let r = cleanup_expired-IsReserved l now key ip u v in
    (
      λ k. ground (
        arith,
        b.0 k,
        cleanup_expired-config l now,
        text_eq→≡ k key,
        r.0,
        IsWithin-complete l.username_limit c.window (c.usernames k) now,
      ),
      λ k. ground (
        arith,
        b.1 k,
        cleanup_expired-config l now,
        text_eq→≡ k ip,
        r.1,
        IsWithin-complete l.ip_limit c.window (c.ip_addresses k) now,
      ),
    )
