-- ===== src/Credential/Laws.antt =====
-- The validity of enrollments and credentials over time.
use go_mediaarchive.Base.{◌≤◌, ◌<◌, ◌≡◌, ◌↔◌, true, arith}
use go_mediaarchive.Go.Text.{Text}
use go_mediaarchive.Go.Time.{Time, Duration, shift}
use go_mediaarchive.Go.Failure.{ok}
use go_mediaarchive.Identity.Username.{Platform}
use go_mediaarchive.Credential.{
  PasswordCredential, PasswordEnrollment, with_password_hash, is_encoding, new_password_enrollment,
  enrollment_valid_at,
}

-- An enrollment that was created is valid exactly from its creation until its lifetime ends.
pub new_password_enrollment-valid :
    (g : Platform) (user hash : Text) (created now : Time) (lifetime : Duration)
    (e : PasswordEnrollment)
    → new_password_enrollment g user hash created lifetime ≡ ok e
    → (enrollment_valid_at e now ≡ true)
      ↔ ((created.instant ≤ now.instant) × (now.instant < shift created.instant lifetime))
unfolding new_password_enrollment enrollment_valid_at
new_password_enrollment-valid g user hash created now lifetime e h =
    (λ v. ground arith, λ v. ground arith)

-- A password change keeps the user and the creation time, stores the new Argon2id encoding, and
-- never moves the change before the creation.
pub with_password_hash-keeps :
    (c d : PasswordCredential) (hash : Text) (now : Time)
    → with_password_hash c hash now ≡ ok d
    → (d.user_id ≡ c.user_id)
      × (d.created_at ≡ c.created_at)
      × (d.password_hash ≡ hash)
      × (is_encoding hash ≡ true)
      × (d.created_at.instant ≤ d.updated_at.instant)
unfolding with_password_hash
with_password_hash-keeps c d hash now h = ground arith
