-- ===== src/Tests/Media.antt =====
-- Permissions, and decisions on the item of the small archive.
use go_mediaarchive.Base.{ℕ, ◌<◌, ◌≡◌, refl, true, ◌&&◌, ◌||◌, ◌==◌, any, List, [], ◌∷◌, arith}
use go_mediaarchive.Go.Text.{text_eq}
use go_mediaarchive.Go.Failure.{ok, is_ok}
use go_mediaarchive.Identity.Username.{canonical_uuid, validate_user_id}
use go_mediaarchive.Media.Permission.{
  valid_permission, new_permission_set, combine, has, values, valid_set, read, discover, delete,
}
use go_mediaarchive.Media.Permission.Laws.{
  is_request, has-new_permission_set, new_permission_set-values, is_ok-new_permission_set,
}
use go_mediaarchive.Media.Grant.{validate_grant}
use go_mediaarchive.Media.Policy.{authorize, scan_grants, grant_allows}
use go_mediaarchive.Media.Policy.Laws.{authorize_iff}
use go_mediaarchive.Tests.Fixtures.{platform, bob, item, grant}

abbrev asked : List ℕ
asked = discover ∷ read ∷ []

accepted : new_permission_set asked ≡ ok 3
unfolding new_permission_set combine valid_permission
accepted = refl

has-new_permission_set_example : (3 < 64) × (has 3 delete ≡ any (λ p. delete == p) asked)
unfolding valid_permission
has-new_permission_set_example = has-new_permission_set asked 3 delete accepted refl

new_permission_set-values_example : new_permission_set (values 3) ≡ ok 3
unfolding valid_set
new_permission_set-values_example = new_permission_set-values 3 (omega arith) refl

is_ok-new_permission_set_example : is_ok (new_permission_set asked) ≡ (is_request asked && true)
is_ok-new_permission_set_example = is_ok-new_permission_set asked

allowed : authorize platform bob item read (grant ∷ []) ≡ ok true
unfolding authorize scan_grants grant_allows validate_grant validate_user_id canonical_uuid text_eq
    valid_permission valid_set has
allowed = refl

authorize_iff_example : true ≡ (
    bob.active
    && (text_eq bob.id item.owner_id
        || any
            (λ r. text_eq r.media_id item.id && text_eq r.user_id bob.id && has r.permissions read)
            (grant ∷ [])))
authorize_iff_example = authorize_iff platform bob item read (grant ∷ []) true allowed
