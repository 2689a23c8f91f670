-- ===== src/Media/Policy.antt =====
-- internal/media/policy.go: `Authorize`.
pub mod Laws
use go_mediaarchive.Base.{ℕ, Bool, true, false, not, ◌&&◌, ◌||◌, List, [], ◌∷◌, if◌then◌else◌}
use go_mediaarchive.Go.Text.{text_eq}
use go_mediaarchive.Go.Failure.{
  Result, ok, err, invalid_permission, invalid_user_id, invalid_media_id, invalid_owner_id,
}
use go_mediaarchive.Identity.Username.{Platform, canonical_uuid, validate_user_id}
use go_mediaarchive.Identity.User.{User}
use go_mediaarchive.Media.Permission.{valid_permission, has}
use go_mediaarchive.Media.Grant.{Item, Grant, validate_grant}

-- The grant names this item and this user, and allows the operation.
unfoldable pub grant_allows : User → Item → ℕ → Grant → Bool
grant_allows user item permission grant =
    text_eq grant.media_id item.id
    && text_eq grant.user_id user.id
    && has grant.permissions permission

-- The loop over the grants: it goes on after a match, so a later invalid grant is still an error.
unfoldable pub scan_grants : Platform → User → Item → ℕ → Bool → List Grant → Result Bool
unfolding grant_allows
scan_grants g user item permission allowed [] = ok allowed
scan_grants g user item permission allowed (grant ∷ grants) =
    let rest =
      scan_grants g user item permission (grant_allows user item permission grant || allowed)
        grants in
    elim (validate_grant g grant) [ ok _ ↦ rest | err e ↦ err e ]

unfoldable pub authorize : Platform → User → Item → ℕ → List Grant → Result Bool
unfolding scan_grants
authorize g user item permission grants =
    if not (valid_permission permission)
    then err (invalid_permission ∷ [])
    else if not user.active
    then ok false
    else if not (canonical_uuid g user.id)
    then err (invalid_user_id ∷ [])
    else if not (canonical_uuid g item.id)
    then err (invalid_media_id ∷ [])
    else if not (canonical_uuid g item.owner_id)
    then err (invalid_owner_id ∷ [])
    else if text_eq user.id item.owner_id
    then ok true
    else scan_grants g user item permission false grants
