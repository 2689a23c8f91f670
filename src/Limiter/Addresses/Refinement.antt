-- ===== src/Limiter/Addresses/Refinement.antt =====
-- The enrollment limiter against the login limiter: it is the login limiter's bookkeeping of usernames,
-- with the address in the place of the username.
use go_mediaarchive.Base.{
  ◌≡◌, refl, true, not, ◌&&◌, Option, none, some, ap, Bool-cases, inl, inr, arith,
}
use mathlib.Core.Path.{fun_ext}
use go_mediaarchive.Go.Text.{Text}
use go_mediaarchive.Go.Time.{Time, Duration, is_zero, before, add}
use go_mediaarchive.Limiter.Bucket.{
  Bucket, cleanup_map, drop_over, released, is_over, is_unused, bucket_allows, reserve_bucket,
  complete_failed_attempt, release_reservation,
}
use go_mediaarchive.Limiter.Bucket.Laws.{permits, bucket_allows-live}
use go_mediaarchive.Limiter.Attempts.{
  AttemptLimiter, cleanup_expired, allow_key, record_failure_key, record_success_key, cancel_key,
  reserve_both,
}
use go_mediaarchive.Limiter.Attempts.Decisions.{
  ip_state, cleanup_expired-ip_state, cleanup_expired-config,
}
use go_mediaarchive.Limiter.Addresses.{
  AddressLimiter, keep_bucket, cancelled, cleanup_addresses, ip_bucket_allows, reserve_ip_bucket,
  complete_failed_ip_attempt, allow_address, record_address_failure, record_address_success,
  cancel_address,
}

-- The part of a login limiter that deals with usernames.
abbrev pub username_part : AttemptLimiter → AddressLimiter
username_part l = record {
  limit = l.username_limit;
  window = l.window;
  buckets = l.usernames;
  next_cleanup = l.next_cleanup;
}

keep_bucket-drop_over :
    (o : Option Bucket) (now : Time) (window : Duration)
    → keep_bucket o now window ≡ drop_over o now window
unfolding keep_bucket drop_over is_over
keep_bucket-drop_over none now window = refl
keep_bucket-drop_over (some b) now window = refl

cancelled-released : (o : Option Bucket) → cancelled o ≡ released o
unfolding cancelled released
cancelled-released none = refl
cancelled-released (some b) = refl

cleanup_addresses-username_part :
    (l : AttemptLimiter) (now : Time)
    → cleanup_addresses (username_part l) now ≡ username_part (cleanup_expired l now)
unfolding cleanup_addresses cleanup_expired cleanup_map
cleanup_addresses-username_part l now =
    elim (Bool-cases (not (is_zero l.next_cleanup) && before now l.next_cleanup)) [
      | inl early ↦ rw early refl
      | inr due ↦ rw due (
          ap
            (λ m. record {
              limit = l.username_limit;
              window = l.window;
              buckets = m;
              next_cleanup = add now l.window;
            })
            (fun_ext λ k. keep_bucket-drop_over (l.usernames k) now l.window))
    ]

-- Over a login limiter whose address has room, each call of the enrollment limiter does what the login
-- limiter's call does to its usernames. `Allow` decides alike and leaves the same buckets,
-- whether it allows the attempt or refuses it.
pub username_part-calls :
    (l : AttemptLimiter) (key ip : Text) (now : Time)
    → permits (ip_state l ip now) l.ip_limit ≡ true
    → (record_address_failure (username_part l) key now
        ≡ username_part (record_failure_key l key ip now))
      × (record_address_success (username_part l) key ≡ username_part (record_success_key l key ip))
      × (cancel_address (username_part l) key ≡ username_part (cancel_key l key ip))
      × (allow_address (username_part l) key now
          ≡ (username_part (allow_key l key ip now).0, (allow_key l key ip now).1))
unfolding record_address_failure record_failure_key record_address_success record_success_key
    cancel_address cancel_key allow_address allow_key reserve_both release_reservation
    ip_bucket_allows bucket_allows reserve_ip_bucket reserve_bucket complete_failed_ip_attempt
    complete_failed_attempt is_unused is_over
username_part-calls l key ip now room =
    let c = cleanup_expired l now in
    let e = cleanup_addresses-username_part l now in
    let seen = bucket_allows-live (c.ip_addresses ip) c.ip_limit now c.window in
    let same = cleanup_expired-ip_state l now now ip (omega arith) in
    let config = cleanup_expired-config l now in
    (
      ground (arith, e),
      refl,
      rw (cancelled-released (l.usernames key)) refl,
      ground (arith, e, seen, same, config, room),
    )
