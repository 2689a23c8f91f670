-- ===== src/Identity/User.antt =====
-- internal/identity/user.go: `User`, `NewUser`, `UpdateDetails` and `SetActive`.
pub mod Laws
use go_mediaarchive.Base.{
  ◌≡◌, Bool, true, false, not, ◌&&◌, ◌||◌, List, [], ◌∷◌, ltb, ◌==◌, if◌then◌else◌, length,
}
use go_mediaarchive.Go.Text.{Text, trim_space}
use go_mediaarchive.Go.Time.{Time, is_zero, to_utc}
use go_mediaarchive.Go.Chain.{◌>>=◌, ◌>>◌}
use go_mediaarchive.Go.Failure.{
  Result, ok, err, invalid_display_name, invalid_role, invalid_timestamp,
}
use go_mediaarchive.Identity.Username.{
  Platform, Role, valid_role, normalize_username, validate_user_id,
}

pub record User : Type 0 where
  pub id : Text
  pub username : Text
  pub display_name : Text
  pub role : Role
  pub active : Bool
  pub created_at : Time
  pub updated_at : Time

-- The tests that follow those of the ID and the username.
check_details : Text → Role → Time → Result (Unit {0})
check_details display role now =
    if length display == 0 || ltb 100 (length display)
    then err (invalid_display_name ∷ [])
    else if not (valid_role role)
    then err (invalid_role ∷ [])
    else if is_zero now
    then err (invalid_timestamp ∷ [])
    else ok tt

unfoldable pub new_user : Platform → Text → Text → Text → Role → Time → Result User
unfolding check_details
new_user g id username display_name role now = do
  validate_user_id g id
  normalized ← normalize_username g username
  check_details (trim_space display_name) role now
  ok (record {
    id = id;
    username = normalized;
    display_name = trim_space display_name;
    role = role;
    active = true;
    created_at = to_utc now;
    updated_at = to_utc now;
  })

unfoldable pub update_details : Platform → User → Text → Text → Role → Time → Result User
update_details g user username display_name role now = do
  updated ← new_user g user.id username display_name role now
  ok (record updated { active = user.active; created_at = user.created_at })

unfoldable pub set_active : User → Bool → Time → Result User
set_active user active now =
    if is_zero now
    then err (invalid_timestamp ∷ [])
    else ok (record user { active = active; updated_at = to_utc now })
