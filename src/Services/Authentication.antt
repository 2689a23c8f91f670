-- ===== src/Services/Authentication.antt =====
-- internal/application/authentication/service.go: the authentication service. `verify` is the password
-- verifier, which compares a password with an encoded hash.
pub mod Verdicts
pub mod Answers
use go_mediaarchive.Base.{Bool, true, false, not, ◌||◌, List, [], ◌∷◌, if◌then◌else◌}
use go_mediaarchive.Go.Text.{Text}
use go_mediaarchive.Go.Failure.{
  Result, ok, err, Error, is, user_not_found, credential_not_found, invalid_credentials,
}
use go_mediaarchive.Go.Action.{Action, pure, fail, lift, catch, ◌>>=◌}
use go_mediaarchive.Identity.Username.{Platform, normalize_username}
use go_mediaarchive.Identity.User.{User}
use go_mediaarchive.Credential.{PasswordCredential}
use go_mediaarchive.Store.Tables.{World}
use go_mediaarchive.Store.Users.{find_user_by_username}
use go_mediaarchive.Store.Credentials.{find_credential}

-- `PasswordVerifier` and the hash that stands in for a missing one.
pub record Verifier : Type 0 where
  pub verify : Text → Text → Result Bool
  pub dummy_hash : Text

-- `rejectWithDummyVerification`
unfoldable pub reject_with_dummy : Verifier → Text → Action World User
reject_with_dummy v password = do
  _ ← lift (v.verify password v.dummy_hash)
  fail (invalid_credentials ∷ [])

-- What a lookup that failed leads to: an unknown name is rejected, any other error returned.
unfoldable pub reject_or_fail : Verifier → Text → Bool → Error → Action World User
reject_or_fail v password true e = reject_with_dummy v password
reject_or_fail v password false e = fail e

-- The comparison with the stored credential.
unfoldable pub compare_password : Verifier → Text → User → PasswordCredential → Action World User
compare_password v password user credential = do
  matches ← lift (v.verify password credential.password_hash)
  if not matches || not user.active then fail (invalid_credentials ∷ []) else pure user

unfoldable pub authenticate_user : Verifier → Text → User → Action World User
authenticate_user v password user =
    catch (find_credential user.id) (λ e. reject_or_fail v password (is credential_not_found e) e)
      (compare_password v password user)

-- `Authenticate`
unfoldable pub authenticate : Platform → Verifier → Text → Text → Action World User
authenticate g v username password =
    catch (lift (normalize_username g username)) (λ _. reject_with_dummy v password)
      λ normalized.
        catch (find_user_by_username g normalized)
          (λ e. reject_or_fail v password (is user_not_found e) e) (authenticate_user v password)
