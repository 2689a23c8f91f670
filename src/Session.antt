-- ===== src/Session.antt =====
-- internal/session/session.go: server-side sessions.
pub mod Laws
use go_mediaarchive.Base.{
  Bool, true, false, not, ◌&&◌, ◌||◌, List, [], ◌∷◌, ◌==◌, if◌then◌else◌, every,
}
use go_mediaarchive.Go.Text.{Text}
use go_mediaarchive.Go.Time.{Time, Duration, is_zero, before, add, to_utc, not_positive}
use go_mediaarchive.Go.Failure.{
  Result, ok, err, invalid_token_hash, invalid_session_user_id, invalid_session_timestamp,
  invalid_lifetime,
}
use go_mediaarchive.Identity.Username.{Platform, canonical_uuid}

-- A SHA-256 hash as its 32 bytes. A session that is not revoked has the zero time in `revoked_at`.
pub record Session : Type 0 where
  pub token_hash : Text
  pub user_id : Text
  pub created_at : Time
  pub last_seen_at : Time
  pub expires_at : Time
  pub revoked_at : Time

abbrev pub zero_time : Time
zero_time = record { instant = 0; utc = true }

-- `tokenHash == [sha256.Size]byte{}`
abbrev pub is_zero_hash : Text → Bool
is_zero_hash = every (λ b. b == 0)

-- `New`
unfoldable pub new_session : Platform → Text → Text → Time → Duration → Result Session
new_session g token_hash user_id now lifetime =
    if is_zero_hash token_hash
    then err (invalid_token_hash ∷ [])
    else if not (canonical_uuid g user_id)
    then err (invalid_session_user_id ∷ [])
    else if is_zero now
    then err (invalid_session_timestamp ∷ [])
    else if not_positive lifetime
    then err (invalid_lifetime ∷ [])
    else ok (record {
      token_hash = token_hash;
      user_id = user_id;
      created_at = to_utc now;
      last_seen_at = to_utc now;
      expires_at = add (to_utc now) lifetime;
      revoked_at = zero_time;
    })

-- `IsValidAt`
unfoldable pub is_valid_at : Session → Time → Duration → Bool → Bool
is_valid_at s now idle_timeout user_active =
    if is_zero now || not_positive idle_timeout || not user_active || not (is_zero s.revoked_at)
    then false
    else if before now s.created_at
    then false
    else if not (before now s.expires_at)
    then false
    else if not (before now (add s.last_seen_at idle_timeout))
    then false
    else true
