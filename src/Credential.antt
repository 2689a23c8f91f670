-- ===== src/Credential.antt =====
-- internal/credential: password credentials (password.go) and one-time enrollments (enrollment.go).
pub mod Laws
use go_mediaarchive.Base.{
  ℕ, Bool, true, false, not, ◌&&◌, ◌||◌, List, [], ◌∷◌, ◌==◌, if◌then◌else◌, every,
}
use go_mediaarchive.Go.Text.{Text, codes}
use go_mediaarchive.Go.Time.{Time, Duration, is_zero, before, add, to_utc, not_positive}
use go_mediaarchive.Go.Failure.{
  Result, ok, err, invalid_credential_user_id, invalid_password_hash, invalid_credential_timestamp,
  invalid_enrollment_token_hash, invalid_enrollment_user_id, invalid_enrollment_timestamp,
  invalid_enrollment_lifetime,
}
use go_mediaarchive.Identity.Username.{Platform, canonical_uuid}

pub record PasswordCredential : Type 0 where
  pub user_id : Text
  pub password_hash : Text
  pub created_at : Time
  pub updated_at : Time

-- `strings.HasPrefix`
unfoldable pub has_prefix : Text → Text → Bool
has_prefix s [] = true
has_prefix [] (d ∷ p) = false
has_prefix (c ∷ s) (d ∷ p) = c == d && has_prefix s p

abbrev pub is_encoding : Text → Bool
is_encoding hash = has_prefix hash (codes "$argon2id$")

-- `NewPasswordCredential`
unfoldable pub new_password_credential : Platform → Text → Text → Time → Result PasswordCredential
new_password_credential g user_id hash now =
    if not (canonical_uuid g user_id)
    then err (invalid_credential_user_id ∷ [])
    else if not (is_encoding hash)
    then err (invalid_password_hash ∷ [])
    else if is_zero now
    then err (invalid_credential_timestamp ∷ [])
    else ok (record {
      user_id = user_id;
      password_hash = hash;
      created_at = to_utc now;
      updated_at = to_utc now;
    })

-- `WithPasswordHash`
unfoldable pub with_password_hash : PasswordCredential → Text → Time → Result PasswordCredential
with_password_hash c hash now =
    if not (is_encoding hash)
    then err (invalid_password_hash ∷ [])
    else if is_zero c.created_at || is_zero now || before now c.created_at
    then err (invalid_credential_timestamp ∷ [])
    else ok (record c { password_hash = hash; updated_at = to_utc now })

pub record PasswordEnrollment : Type 0 where
  pub user_id : Text
  pub token_hash : Text
  pub created_at : Time
  pub expires_at : Time

-- `NewPasswordEnrollment`
unfoldable pub new_password_enrollment :
    Platform → Text → Text → Time → Duration → Result PasswordEnrollment
new_password_enrollment g user_id token_hash now lifetime =
    if not (canonical_uuid g user_id)
    then err (invalid_enrollment_user_id ∷ [])
    else if every (λ b. b == 0) token_hash
    then err (invalid_enrollment_token_hash ∷ [])
    else if is_zero now
    then err (invalid_enrollment_timestamp ∷ [])
    else if not_positive lifetime
    then err (invalid_enrollment_lifetime ∷ [])
    else ok (record {
      user_id = user_id;
      token_hash = token_hash;
      created_at = to_utc now;
      expires_at = add (to_utc now) lifetime;
    })

-- `PasswordEnrollment.IsValidAt`
unfoldable pub enrollment_valid_at : PasswordEnrollment → Time → Bool
enrollment_valid_at e now =
    if is_zero now then false else not (before now e.created_at) && before now e.expires_at
