-- ===== src/Limiter/Attempts/Failures.antt =====
-- How a lockout comes about: failures that fill the limit inside one window, among whatever other
-- calls the handlers make.
use go_mediaarchive.Base.{
  ℕ, suc, ◌+◌, ◌≤◌, ◌<◌, ◌≡◌, refl, false, none, List, [], ◌∷◌, sym, ◌∙◌, arith, All, if◌then◌else◌,
}
use go_mediaarchive.Go.Text.{Text, text_eq, text_eq→≡}
use go_mediaarchive.Go.Time.{Time, Duration, shift}
use go_mediaarchive.Limiter.Bucket.{release_reservation}
use go_mediaarchive.Limiter.Bucket.Tally.{
  HasTally, HasTally-start, HasTally-drop_over, HasTally-reserve, HasTally-complete,
  HasTally-released, HasTally-permits,
}
use go_mediaarchive.Limiter.Attempts.{
  AttemptLimiter, cleanup_expired, allow_key, record_failure_key, record_success_key, cancel_key,
  reserve_both,
}
use go_mediaarchive.Limiter.Attempts.Decisions.{
  ip_state, cleanup_expired-config, allow_key-decision,
}
use go_mediaarchive.Limiter.Attempts.Lockout.{Call, allows, fails, succeeds, cancels, step, run}

-- The call happens in the window that begins at the instant `first`.
abbrev pub IsDuring : ℕ → Duration → Call → Type 0
IsDuring first window (allows _ _ now) = (first ≤ now.instant) × (now.instant < shift first window)
IsDuring first window (fails _ _ now) = (first ≤ now.instant) × (now.instant < shift first window)
IsDuring first window (succeeds _ _) = Unit
IsDuring first window (cancels _ _) = Unit

-- How many of the calls report a failure from the address.
abbrev pub failures_from : Text → List Call → ℕ
failures_from ip [] = 0
failures_from ip (fails _ a _ ∷ cs) =
    let rest = failures_from ip cs in if text_eq ip a then suc rest else rest
failures_from ip (allows _ _ _ ∷ cs) = failures_from ip cs
failures_from ip (succeeds _ _ ∷ cs) = failures_from ip cs
failures_from ip (cancels _ _ ∷ cs) = failures_from ip cs

-- The tally of an address, under the limiter's window.
abbrev HasFailures : ℕ → ℕ → Text → AttemptLimiter → Type 0
HasFailures n first ip l = HasTally n first l.window (l.ip_addresses ip)

cleanup_expired-HasFailures :
    (n first : ℕ) (l : AttemptLimiter) (ip : Text) (now : Time)
    → now.instant < shift first l.window
    → HasFailures n first ip l
    → HasFailures n first ip (cleanup_expired l now)
unfolding cleanup_expired
cleanup_expired-HasFailures n first l ip now t h =
    ground (arith, HasTally-drop_over n first l.window (l.ip_addresses ip) now t h)

step-config :
    (l : AttemptLimiter) (c : Call)
    → ((step l c).window ≡ l.window) × ((step l c).ip_limit ≡ l.ip_limit)
unfolding step allow_key record_failure_key record_success_key cancel_key reserve_both
step-config l (allows k a now) = ground (arith, cleanup_expired-config l now)
step-config l (fails k a now) = ground (arith, cleanup_expired-config l now)
step-config l (succeeds k a) = (refl, refl)
step-config l (cancels k a) = (refl, refl)

-- One call in the window adds the failure that it reports, and forgets none.
step-HasFailures :
    (n first : ℕ) (l : AttemptLimiter) (ip : Text) (c : Call)
    → 0 < first
    → IsDuring first l.window c
    → HasFailures n first ip l
    → HasFailures (failures_from ip (c ∷ []) + n) first ip (step l c)
unfolding step allow_key record_failure_key record_success_key cancel_key reserve_both
    release_reservation
step-HasFailures n first l ip (allows k a now) p t h =
    let c = cleanup_expired l now in
    let d = cleanup_expired-HasFailures n first l ip now t.1 h in
    ground (
      arith,
      d,
      text_eq→≡ ip a,
      cleanup_expired-config l now,
      HasTally-reserve n first c.window (c.ip_addresses ip) now p t.0,
    )
step-HasFailures n first l ip (fails k a now) p t h =
    let c = cleanup_expired l now in
    let d = cleanup_expired-HasFailures n first l ip now t.1 h in
    ground (
      arith,
      d,
      text_eq→≡ ip a,
      cleanup_expired-config l now,
      HasTally-complete n first c.window (c.ip_addresses ip) now p t.0,
    )
step-HasFailures n first l ip (succeeds k a) p t h =
    ground (arith, text_eq→≡ ip a, HasTally-released n first l.window (l.ip_addresses ip) h)
step-HasFailures n first l ip (cancels k a) p t h =
    ground (arith, text_eq→≡ ip a, HasTally-released n first l.window (l.ip_addresses ip) h)

failures_from-cons :
    (ip : Text) (c : Call) (cs : List Call)
    → failures_from ip (c ∷ cs) ≡ failures_from ip (c ∷ []) + failures_from ip cs
failures_from-cons ip (allows k a now) cs = omega arith
failures_from-cons ip (fails k a now) cs = ground arith
failures_from-cons ip (succeeds k a) cs = omega arith
failures_from-cons ip (cancels k a) cs = omega arith

run-HasFailures :
    (m n first : ℕ) (window : Duration) (l : AttemptLimiter) (ip : Text) (cs : List Call)
    → 0 < first
    → l.window ≡ window
    → All (IsDuring first window) cs
    → m ≡ failures_from ip cs + n
    → HasTally n first window (l.ip_addresses ip)
    → HasTally m first window ((run l cs).ip_addresses ip)
      × ((run l cs).ip_limit ≡ l.ip_limit)
      × ((run l cs).window ≡ window)
unfolding run
run-HasFailures m n first window l ip [] p w t e h =
    let same : m ≡ n = omega arith in (rw same h, refl, w)
run-HasFailures m n first window l ip (c ∷ cs) p w t e h =
    let (same, limit) = step-config l c in
    let next = step-HasFailures n first l ip c p (rw w t.0) (rw w h) in
    let (a, b, d) =
      run-HasFailures m (failures_from ip (c ∷ []) + n) first window (step l c) ip cs p (same ∙ w)
        t.1 (grind (arith, e, failures_from-cons ip c cs)) (rw (sym (same ∙ w)) next) in
    (a, b ∙ limit, d)

-- Take an address without an open window at `first`, and any calls within one window from then on, in
-- any order and under any usernames: attempts, failures, successes and attempts given up. Once
-- as many failures of the address as its limit are among them, every attempt from the address is
-- refused until that window ends.
pub run-refuses_after_failures :
    (l : AttemptLimiter) (key ip : Text) (first now : Time) (cs : List Call)
    → 1 ≤ l.ip_limit
    → 0 < first.instant
    → ip_state l ip first ≡ none
    → All (IsDuring first.instant l.window) cs
    → l.ip_limit ≤ failures_from ip cs
    → now.instant < shift first.instant l.window
    → (allow_key (run l cs) key ip now).1 ≡ false
run-refuses_after_failures l key ip first now cs p q free t many b =
    let m = run l cs in
    let (tally, limit, same) =
      run-HasFailures (failures_from ip cs) 0 first.instant l.window l ip cs q refl t (omega arith)
        (HasTally-start (l.ip_addresses ip) first l.window free) in
    let full =
      HasTally-permits (failures_from ip cs) l.ip_limit first.instant l.window (m.ip_addresses ip)
        now p many b tally in
    ground (arith, allow_key-decision m key ip now, full, limit, same)
