-- ===== src/Tests/Limiter.antt =====
-- A limiter of three attempts for a username and two for an address, within 100 nanoseconds.
use go_mediaarchive.Base.{
  All, if◌then◌else◌, ◌≢◌, ◌≡◌, refl, inr, false, ◌&&◌, none, some, List, [], ◌∷◌, arith,
}
use go_mediaarchive.Go.Text.{Text, text_eq, codes}
use go_mediaarchive.Go.Time.{pos}
use go_mediaarchive.Limiter.Bucket.{Bucket}
use go_mediaarchive.Limiter.Bucket.Laws.{one_pending, live, permits}
use go_mediaarchive.Limiter.Attempts.{
  AttemptLimiter, allow_key, record_failure_key, record_success_key, cancel_key,
}
use go_mediaarchive.Limiter.Attempts.Decisions.{
  user_state, ip_state, IsBounded, allow_key-states, allow_key-IsBounded,
  record_failure_key-IsBounded,
}
use go_mediaarchive.Limiter.Attempts.Lockout.{Call, run, run-refuses_address, run-refuses_username}
use go_mediaarchive.Limiter.Attempts.Failures.{IsDuring, run-refuses_after_failures}
use go_mediaarchive.Limiter.Addresses.{
  allow_address, record_address_failure, record_address_success, cancel_address,
}
use go_mediaarchive.Limiter.Addresses.Refinement.{username_part, username_part-calls}
use go_mediaarchive.Tests.Fixtures.{at}

abbrev fresh : AttemptLimiter
fresh = record {
  username_limit = 3;
  ip_limit = 2;
  window = pos 100;
  usernames = λ _. none;
  ip_addresses = λ _. none;
  next_cleanup = at 0;
}

abbrev full : Bucket
full = record { failures = 3; pending = 0; started_at = at 10 }

abbrev locked : AttemptLimiter
locked = record fresh { usernames = λ _. some full; ip_addresses = λ _. some full }

abbrev ann_name : Text
ann_name = codes "ann"

abbrev bob_name : Text
bob_name = codes "bob"

abbrev address : Text
address = codes "10.0.0.1"

abbrev elsewhere : Text
elsewhere = codes "10.0.0.2"

-- A success, and an attempt that is given up.
abbrev later_calls : List Call
later_calls =
    Call.succeeds bob_name address
    ∷ Call.allows ann_name elsewhere (at 50)
    ∷ Call.cancels ann_name elsewhere
    ∷ []

-- Two attempts at once under different names, which both fail, and what happens afterwards.
abbrev attack : List Call
attack =
    Call.allows ann_name address (at 10)
    ∷ Call.allows bob_name address (at 12)
    ∷ Call.fails bob_name address (at 20)
    ∷ Call.allows ann_name elsewhere (at 30)
    ∷ Call.fails ann_name address (at 40)
    ∷ later_calls

during : All (IsDuring 10 (pos 100)) attack
during = (
  (omega arith, omega arith),
  (
    (omega arith, omega arith),
    (
      (omega arith, omega arith),
      (
        (omega arith, omega arith),
        ((omega arith, omega arith), (tt, ((omega arith, omega arith), (tt, tt)))),
      ),
    ),
  ),
)

run-refuses_after_failures_example :
    (allow_key (run fresh attack) bob_name address (at 109)).1 ≡ false
unfolding live text_eq
run-refuses_after_failures_example =
    run-refuses_after_failures fresh bob_name address (at 10) (at 109) attack (omega arith)
      (omega arith) refl during (omega arith) (omega arith)

run-refuses_address_example :
    (allow_key (run locked later_calls) bob_name address (at 109)).1 ≡ false
run-refuses_address_example =
    run-refuses_address locked bob_name address 110 later_calls (at 109)
      (omega arith, (omega arith, omega arith, refl)) (tt, (omega arith, (tt, tt))) (omega arith)

different : ann_name ≢ bob_name
different e = ground (arith, e)

run-refuses_username_example :
    (allow_key (run locked later_calls) ann_name elsewhere (at 109)).1 ≡ false
run-refuses_username_example =
    run-refuses_username locked ann_name elsewhere 110 later_calls (at 109)
      (omega arith, (omega arith, omega arith, refl)) (tt, (omega arith, (tt, tt)))
      (different, (tt, (tt, tt))) (omega arith)

allow_key-states_example :
    let (l', allowed) = allow_key fresh ann_name address (at 10) in
    (user_state l' ann_name (at 10) ≡ (
      if allowed && text_eq ann_name ann_name
      then one_pending (at 10) (user_state fresh ann_name (at 10))
      else user_state fresh ann_name (at 10)))
    × (ip_state l' ann_name (at 10) ≡ (
        if allowed && text_eq ann_name address
        then one_pending (at 10) (ip_state fresh ann_name (at 10))
        else ip_state fresh ann_name (at 10)))
allow_key-states_example =
    allow_key-states fresh ann_name address (at 10) ann_name (omega arith) (omega arith)

allow_key-IsBounded_example : IsBounded (allow_key fresh ann_name address (at 10)).0
allow_key-IsBounded_example =
    allow_key-IsBounded fresh ann_name address (at 10) (omega arith) (omega arith)
      ((λ k. tt), (λ k. tt))

nothing_live : live none (at 10) (pos 100) ≡ none
unfolding live
nothing_live = refl

record_failure_key-IsBounded_example : IsBounded (record_failure_key fresh ann_name address (at 10))
record_failure_key-IsBounded_example =
    record_failure_key-IsBounded fresh ann_name address (at 10) (omega arith) (omega arith)
      (inr nothing_live) (inr nothing_live) ((λ k. tt), (λ k. tt))

-- A limiter whose username is locked, and whose address is not.
abbrev locked_out : AttemptLimiter
locked_out = record fresh { usernames = λ _. some full }

username_part-calls_example :
    (record_address_failure (username_part locked_out) ann_name (at 50)
      ≡ username_part (record_failure_key locked_out ann_name address (at 50)))
    × (record_address_success (username_part locked_out) ann_name
        ≡ username_part (record_success_key locked_out ann_name address))
    × (cancel_address (username_part locked_out) ann_name
        ≡ username_part (cancel_key locked_out ann_name address))
    × (allow_address (username_part locked_out) ann_name (at 50) ≡ (
      username_part (allow_key locked_out ann_name address (at 50)).0,
      (allow_key locked_out ann_name address (at 50)).1,
    ))
unfolding live permits
username_part-calls_example = username_part-calls locked_out ann_name address (at 50) refl
