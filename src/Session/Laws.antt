-- ===== src/Session/Laws.antt =====
-- When a session authenticates.
use go_mediaarchive.Base.{ℕ, ◌+◌, ◌≤◌, ◌<◌, ◌≡◌, ◌↔◌, Bool, true, arith}
use go_mediaarchive.Go.Text.{Text}
use go_mediaarchive.Go.Time.{Time, Duration, pos, shift}
use go_mediaarchive.Go.Failure.{ok}
use go_mediaarchive.Identity.Username.{Platform}
use go_mediaarchive.Session.{Session, new_session, is_valid_at}

-- A new session authenticates, with a positive idle timeout, exactly an active user, from the moment
-- it was created until its lifetime or its idle time is over, whichever comes first.
pub is_valid_at-new_session :
    (g : Platform) (hash user : Text) (created now : Time) (lifetime : Duration) (idle : ℕ)
    (active : Bool) (s : Session)
    → new_session g hash user created lifetime ≡ ok s
    → 0 < idle
    → (is_valid_at s now (pos idle) active ≡ true) ↔ (
        (active ≡ true)
        × (created.instant ≤ now.instant)
        × (now.instant < shift created.instant lifetime)
        × (now.instant < created.instant + idle))
unfolding new_session is_valid_at
is_valid_at-new_session g hash user created now lifetime idle active s h p =
    (λ v. ground arith, λ v. ground arith)
