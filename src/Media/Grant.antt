-- ===== src/Media/Grant.antt =====
-- internal/media/permission.go: `Grant`; internal/media/item.go: `Type` and `Item`.
use go_mediaarchive.Base.{ℕ, not, List, [], ◌∷◌, if◌then◌else◌}
use go_mediaarchive.Go.Text.{Text}
use go_mediaarchive.Go.Time.{Time}
use go_mediaarchive.Go.Failure.{
  Result, ok, err, invalid_grant, invalid_media_id, invalid_permission_set, invalid_user_id,
}
use go_mediaarchive.Identity.Username.{Platform, canonical_uuid, validate_user_id}
use go_mediaarchive.Media.Permission.{valid_set}

-- `Type`; `other` is any text but the constants.
pub data MediaType : Type 0 where
  book document video : MediaType
  other : Text → MediaType

-- Sizes are never negative where the program stores one; a checksum is its 32 bytes.
pub record Item : Type 0 where
  pub id : Text
  pub title : Text
  pub authors : List Text
  pub original_filename : Text
  pub type : MediaType
  pub mime_type : Text
  pub size : ℕ
  pub checksum : Text
  pub owner_id : Text
  pub created_at : Time
  pub updated_at : Time

pub record Grant : Type 0 where
  pub media_id : Text
  pub user_id : Text
  pub permissions : ℕ

-- `Grant.Validate`
unfoldable pub validate_grant : Platform → Grant → Result (Unit {0})
unfolding validate_user_id
validate_grant g grant =
    if not (canonical_uuid g grant.media_id)
    then err (invalid_grant ∷ invalid_media_id ∷ [])
    else if not (canonical_uuid g grant.user_id)
    then err (invalid_grant ∷ invalid_user_id ∷ [])
    else if not (valid_set grant.permissions)
    then err (invalid_grant ∷ invalid_permission_set ∷ [])
    else ok tt

checked_grant : Grant → Result (Unit {0}) → Result Grant
checked_grant grant (ok _) = ok grant
checked_grant grant (err e) = err e

-- `NewGrant`
unfoldable pub new_grant : Platform → Text → Text → ℕ → Result Grant
unfolding checked_grant validate_grant
new_grant g media_id user_id permissions =
    let grant : Grant = record {
      media_id = media_id;
      user_id = user_id;
      permissions = permissions;
    } in
    checked_grant grant (validate_grant g grant)
