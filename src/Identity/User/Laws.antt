-- ===== src/Identity/User/Laws.antt =====
-- A user that the constructors return is well formed, and an update keeps who it is.
use go_mediaarchive.Base.{◌≤◌, ◌≡◌, true, arith, length}
use go_mediaarchive.Go.Text.{Text, trim_space}
use go_mediaarchive.Go.Time.{Time}
use go_mediaarchive.Go.Failure.{ok}
use go_mediaarchive.Identity.Username.{
  Platform, Role, valid_role, canonical_uuid, validate_user_id, normalize_username,
}
use go_mediaarchive.Identity.Username.Laws.{IsUsername, normalize_username-IsUsername}
use go_mediaarchive.Identity.User.{User, new_user, update_details}

-- What the schema and the rest of the program rely on.
pub record IsUser (g : Platform) (u : User) : Type 0 where
  pub named : IsUsername u.username
  pub identified : canonical_uuid g u.id ≡ true
  pub shown : (1 ≤ length u.display_name) × (length u.display_name ≤ 100)
  pub ranked : valid_role u.role ≡ true

-- Every user that `NewUser` returns is well formed and active, carries the given ID and role, the
-- normal form of the given username and the given display name without the spaces around it, and
-- both of its timestamps are the given instant.
pub new_user-IsUser :
    (g : Platform) (id name display : Text) (role : Role) (now : Time) (u : User)
    → new_user g id name display role now ≡ ok u
    → IsUser g u
      × (u.active ≡ true)
      × (u.id ≡ id)
      × (normalize_username g name ≡ ok u.username)
      × (u.display_name ≡ trim_space display)
      × (u.role ≡ role)
      × (u.created_at.instant ≡ now.instant)
      × (u.updated_at.instant ≡ now.instant)
unfolding new_user validate_user_id
new_user-IsUser g id name display role now u h =
    ground (arith, normalize_username-IsUsername g name u.username)

new_user_cases :
    (g : Platform) (user : User) (name display : Text) (role : Role) (now : Time) (u : User)
    → update_details g user name display role now ≡ ok u
    → (v : User) × (new_user g user.id name display role now ≡ ok v)
      × (u ≡ record v { active = user.active; created_at = user.created_at })
unfolding update_details
new_user_cases g user name display role now u h = ground arith

-- An update that is accepted gives a well-formed user with the ID, the activation and the creation time
-- of the old one.
pub update_details_keeps :
    (g : Platform) (user : User) (name display : Text) (role : Role) (now : Time) (u : User)
    → update_details g user name display role now ≡ ok u
    → IsUser g u × (u.id ≡ user.id) × (u.active ≡ user.active) × (u.created_at ≡ user.created_at)
unfolding update_details
update_details_keeps g user name display role now u h =
    let (v, e, f) = new_user_cases g user name display role now u h in
    ground (arith, new_user-IsUser g user.id name display role now v)
