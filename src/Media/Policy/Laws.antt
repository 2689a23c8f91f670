-- ===== src/Media/Policy/Laws.antt =====
-- What `Authorize` decides, in terms of ownership and explicit grants.
use go_mediaarchive.Base.{
  ℕ, ◌≡◌, refl, Bool, true, false, ◌&&◌, ◌||◌, List, [], ◌∷◌, arith, any, every,
}
use go_mediaarchive.Go.Text.{text_eq}
use go_mediaarchive.Go.Failure.{ok, is_ok}
use go_mediaarchive.Identity.Username.{Platform, Role, canonical_uuid}
use go_mediaarchive.Identity.User.{User}
use go_mediaarchive.Media.Permission.{valid_permission, has}
use go_mediaarchive.Media.Grant.{Item, Grant, validate_grant}
use go_mediaarchive.Media.Policy.{grant_allows, scan_grants, authorize}

scan_grants-any :
    (g : Platform) (user : User) (item : Item) (p : ℕ) (allowed : Bool) (grants : List Grant)
    (b : Bool)
    → scan_grants g user item p allowed grants ≡ ok b
    → b ≡ (any (grant_allows user item p) grants || allowed)
unfolding scan_grants
scan_grants-any g user item p allowed [] b e = ground arith
scan_grants-any g user item p allowed (grant ∷ grants) b e =
    ground
      (arith, scan_grants-any g user item p (grant_allows user item p grant || allowed) grants b)

-- The loop fails exactly on a list with an invalid grant, wherever it stands.
pub is_ok-scan_grants :
    (g : Platform) (user : User) (item : Item) (p : ℕ) (allowed : Bool) (grants : List Grant)
    → is_ok (scan_grants g user item p allowed grants)
      ≡ every (λ x. is_ok (validate_grant g x)) grants
unfolding scan_grants
is_ok-scan_grants g user item p allowed [] = refl
is_ok-scan_grants g user item p allowed (grant ∷ grants) =
    ground
      (arith, is_ok-scan_grants g user item p (grant_allows user item p grant || allowed) grants)

pub authorize-any :
    (g : Platform) (user : User) (item : Item) (p : ℕ) (grants : List Grant) (b : Bool)
    → authorize g user item p grants ≡ ok b
    → b ≡ (user.active && (text_eq user.id item.owner_id || any (grant_allows user item p) grants))
unfolding authorize
authorize-any g user item p grants b e =
    ground (arith, scan_grants-any g user item p false grants b)

-- A decision allows the operation exactly if the user is active and owns the item, or is active and
-- one of the grants is for this item and this user and has the permission.
pub authorize_iff :
    (g : Platform) (user : User) (item : Item) (p : ℕ) (grants : List Grant) (b : Bool)
    → authorize g user item p grants ≡ ok b
    → b ≡ (
        user.active
        && (text_eq user.id item.owner_id
            || any
                (λ r.
                  text_eq r.media_id item.id && text_eq r.user_id user.id && has r.permissions p)
                grants))
unfolding grant_allows
authorize_iff g user item p grants b e = authorize-any g user item p grants b e

-- The role takes no part in the decision: two users that differ in nothing but their role get
-- the same answer, so an administrator has no access of its own.
pub authorize_role :
    (g : Platform) (user : User) (role : Role) (item : Item) (p : ℕ) (grants : List Grant)
    → authorize g (record user { role = role }) item p grants ≡ authorize g user item p grants
unfolding authorize scan_grants
authorize_role g user role item p [] = ground arith
authorize_role g user role item p (x ∷ grants) = ground arith

-- An active, well-identified user gets an answer for a supported operation on a well-identified item,
-- unless a grant of the list is invalid and the user is not the owner.
pub is_ok-authorize :
    (g : Platform) (user : User) (item : Item) (p : ℕ) (grants : List Grant)
    → user.active ≡ true
    → canonical_uuid g user.id ≡ true
    → canonical_uuid g item.id ≡ true
    → canonical_uuid g item.owner_id ≡ true
    → valid_permission p ≡ true
    → is_ok (authorize g user item p grants)
      ≡ (text_eq user.id item.owner_id || every (λ x. is_ok (validate_grant g x)) grants)
unfolding authorize
is_ok-authorize g user item p grants a u m o v =
    ground (arith, is_ok-scan_grants g user item p false grants)
