-- ===== src/Services/Authentication/Answers.antt =====
-- internal/application/authentication/service.go: the two answers that a login can get.
use go_mediaarchive.Base.{◌≡◌, ◌⊎◌, true, some, [], ◌∷◌, find}
use go_mediaarchive.Go.Text.{Text, text_eq}
use go_mediaarchive.Go.Failure.{Result, is_ok, ok, err, invalid_credentials}
use go_mediaarchive.Go.Action.{Action}
use go_mediaarchive.Identity.Username.{Platform, normalize_username}
use go_mediaarchive.Identity.User.{User}
use go_mediaarchive.Credential.{PasswordCredential}
use go_mediaarchive.Store.Tables.{Database}
use go_mediaarchive.Services.Authentication.{Verifier}

-- A user, or the one failure.
abbrev pub IsVerdict : Result User → Type 0
IsVerdict r = ((u : User) × (r ≡ ok u)) ⊎ (r ≡ err (invalid_credentials ∷ []))

abbrev pub IsTotal : Verifier → Type 0
IsTotal v = (p h : Text) → is_ok (v.verify p h) ≡ true

-- The user is stored under the normal form of the name and is active, and the password matches the
-- hash of the user's stored credential.
abbrev pub MayLogIn : Platform → Verifier → Text → Text → Database → User → Type 0
MayLogIn g v name password db u =
    (n : Text) × (c : PasswordCredential) × (normalize_username g name ≡ ok n)
    × (find (λ u. text_eq u.username n) db.users ≡ some u)
    × (u.active ≡ true)
    × (find (λ c. text_eq c.user_id u.id) db.credentials ≡ some c)
    × (v.verify password c.password_hash ≡ ok true)
