-- ===== src/Limiter/Attempts/Lockout.antt =====
-- A lockout lasts until the window of its first attempt ends: no sequence of calls ends it earlier,
-- but a success under the same username.
use go_mediaarchive.Base.{ℕ, ◌≤◌, ◌<◌, ◌≡◌, ◌≢◌, false, List, [], ◌∷◌, arith, All}
use go_mediaarchive.Go.Text.{Text, text_eq→≡}
use go_mediaarchive.Go.Time.{Time}
use go_mediaarchive.Limiter.Bucket.{release_reservation}
use go_mediaarchive.Limiter.Bucket.Laws.{
  IsLocked, IsLocked-permits, IsLocked-drop_over, IsLocked-reserve, IsLocked-complete,
  IsLocked-released,
}
use go_mediaarchive.Limiter.Attempts.{
  AttemptLimiter, cleanup_expired, reserve_both, allow_key, record_failure_key, record_success_key,
  cancel_key,
}
use go_mediaarchive.Limiter.Attempts.Decisions.{allow_key-decision}

-- The calls of the limiter's clients, with their moments.
pub data Call : Type 0 where
  allows : Text → Text → Time → Call
  fails : Text → Text → Time → Call
  succeeds : Text → Text → Call
  cancels : Text → Text → Call

unfoldable pub step : AttemptLimiter → Call → AttemptLimiter
step l (allows key ip now) = (allow_key l key ip now).0
step l (fails key ip now) = record_failure_key l key ip now
step l (succeeds key ip) = record_success_key l key ip
step l (cancels key ip) = cancel_key l key ip

unfoldable pub run : AttemptLimiter → List Call → AttemptLimiter
unfolding step
run l [] = l
run l (c ∷ cs) = run (step l c) cs

-- The call happens before the instant `end`.
abbrev pub IsBefore : ℕ → Call → Type 0
IsBefore end (allows _ _ now) = now.instant < end
IsBefore end (fails _ _ now) = now.instant < end
IsBefore end (succeeds _ _) = Unit
IsBefore end (cancels _ _) = Unit

abbrev pub IsNotSuccess : Text → Call → Type 0
IsNotSuccess key (succeeds k _) = key ≢ k
IsNotSuccess key _ = Unit

-- An address whose failures fill its limit, in a window that ends at `end`.
abbrev pub IsAddressLocked : ℕ → Text → AttemptLimiter → Type 0
IsAddressLocked end ip l = (1 ≤ l.ip_limit) × IsLocked l.ip_limit end l.window (l.ip_addresses ip)

abbrev pub IsUsernameLocked : ℕ → Text → AttemptLimiter → Type 0
IsUsernameLocked end key l =
    (1 ≤ l.username_limit) × IsLocked l.username_limit end l.window (l.usernames key)

cleanup_expired-IsAddressLocked :
    (l : AttemptLimiter) (ip : Text) (end : ℕ) (now : Time)
    → now.instant < end
    → IsAddressLocked end ip l
    → IsAddressLocked end ip (cleanup_expired l now)
unfolding cleanup_expired
cleanup_expired-IsAddressLocked l ip end now t h =
    ground (arith, IsLocked-drop_over l.ip_limit end l.window (l.ip_addresses ip) now h.1 t)

step-IsAddressLocked :
    (l : AttemptLimiter) (ip : Text) (end : ℕ) (c : Call)
    → IsBefore end c
    → IsAddressLocked end ip l
    → IsAddressLocked end ip (step l c)
unfolding step allow_key record_failure_key record_success_key cancel_key reserve_both
    release_reservation
step-IsAddressLocked l ip end (allows k a now) t h =
    let c = cleanup_expired l now in
    let d = cleanup_expired-IsAddressLocked l ip end now t h in
    ground (
      arith,
      d,
      text_eq→≡ ip a,
      IsLocked-reserve c.ip_limit end c.window (c.ip_addresses ip) now d.1 t,
    )
step-IsAddressLocked l ip end (fails k a now) t h =
    let c = cleanup_expired l now in
    let d = cleanup_expired-IsAddressLocked l ip end now t h in
    ground (
      arith,
      d,
      text_eq→≡ ip a,
      IsLocked-complete c.ip_limit end c.window (c.ip_addresses ip) now d.1 t,
    )
step-IsAddressLocked l ip end (succeeds k a) t h =
    ground
      (arith, text_eq→≡ ip a, IsLocked-released l.ip_limit end l.window (l.ip_addresses ip) h.0 h.1)
step-IsAddressLocked l ip end (cancels k a) t h =
    ground
      (arith, text_eq→≡ ip a, IsLocked-released l.ip_limit end l.window (l.ip_addresses ip) h.0 h.1)

run-IsAddressLocked :
    (l : AttemptLimiter) (ip : Text) (end : ℕ) (cs : List Call)
    → All (IsBefore end) cs
    → IsAddressLocked end ip l
    → IsAddressLocked end ip (run l cs)
unfolding run
run-IsAddressLocked l ip end [] t h = h
run-IsAddressLocked l ip end (c ∷ cs) t h =
    run-IsAddressLocked (step l c) ip end cs t.1 (step-IsAddressLocked l ip end c t.0 h)

-- After any calls before the end of its window, successes of any user included, an address whose
-- failures fill the limit is refused, whatever the username.
pub run-refuses_address :
    (l : AttemptLimiter) (key ip : Text) (end : ℕ) (cs : List Call) (now : Time)
    → IsAddressLocked end ip l
    → All (IsBefore end) cs
    → now.instant < end
    → (allow_key (run l cs) key ip now).1 ≡ false
run-refuses_address l key ip end cs now h t b =
    let m = run l cs in
    let d = run-IsAddressLocked l ip end cs t h in
    ground (
      arith,
      allow_key-decision m key ip now,
      IsLocked-permits m.ip_limit m.ip_limit end m.window (m.ip_addresses ip) now d.1 (omega arith)
          b,
    )

cleanup_expired-IsUsernameLocked :
    (l : AttemptLimiter) (key : Text) (end : ℕ) (now : Time)
    → now.instant < end
    → IsUsernameLocked end key l
    → IsUsernameLocked end key (cleanup_expired l now)
unfolding cleanup_expired
cleanup_expired-IsUsernameLocked l key end now t h =
    ground (arith, IsLocked-drop_over l.username_limit end l.window (l.usernames key) now h.1 t)

step-IsUsernameLocked :
    (l : AttemptLimiter) (key : Text) (end : ℕ) (c : Call)
    → IsBefore end c
    → IsNotSuccess key c
    → IsUsernameLocked end key l
    → IsUsernameLocked end key (step l c)
unfolding step allow_key record_failure_key record_success_key cancel_key reserve_both
    release_reservation
step-IsUsernameLocked l key end (allows k a now) t s h =
    let c = cleanup_expired l now in
    let d = cleanup_expired-IsUsernameLocked l key end now t h in
    ground (
      arith,
      d,
      text_eq→≡ key k,
      IsLocked-reserve c.username_limit end c.window (c.usernames key) now d.1 t,
    )
step-IsUsernameLocked l key end (fails k a now) t s h =
    let c = cleanup_expired l now in
    let d = cleanup_expired-IsUsernameLocked l key end now t h in
    ground (
      arith,
      d,
      text_eq→≡ key k,
      IsLocked-complete c.username_limit end c.window (c.usernames key) now d.1 t,
    )
step-IsUsernameLocked l key end (succeeds k a) t s h = ground (arith, text_eq→≡ key k)
step-IsUsernameLocked l key end (cancels k a) t s h = ground (
  arith,
  text_eq→≡ key k,
  IsLocked-released l.username_limit end l.window (l.usernames key) h.0 h.1,
)

run-IsUsernameLocked :
    (l : AttemptLimiter) (key : Text) (end : ℕ) (cs : List Call)
    → All (IsBefore end) cs
    → All (IsNotSuccess key) cs
    → IsUsernameLocked end key l
    → IsUsernameLocked end key (run l cs)
unfolding run
run-IsUsernameLocked l key end [] t s h = h
run-IsUsernameLocked l key end (c ∷ cs) t s h =
    run-IsUsernameLocked (step l c) key end cs t.1 s.1 (step-IsUsernameLocked l key end c t.0 s.0 h)

-- After any calls before the end of its window, a username whose failures fill the limit is
-- refused from every address, unless one of the calls was a success under that username.
pub run-refuses_username :
    (l : AttemptLimiter) (key ip : Text) (end : ℕ) (cs : List Call) (now : Time)
    → IsUsernameLocked end key l
    → All (IsBefore end) cs
    → All (IsNotSuccess key) cs
    → now.instant < end
    → (allow_key (run l cs) key ip now).1 ≡ false
run-refuses_username l key ip end cs now h t s b =
    let m = run l cs in
    let d = run-IsUsernameLocked l key end cs t s h in
    ground (
      arith,
      allow_key-decision m key ip now,
      IsLocked-permits m.username_limit m.username_limit end m.window (m.usernames key) now d.1
          (omega arith) b,
    )
