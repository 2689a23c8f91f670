-- ===== src/Media/Permission.antt =====
-- internal/media/permission.go: a permission is one bit of a `uint8`, a permission set a mask.
pub mod Bits
pub mod Laws
use Prim.Native.Nat.{bit_and, bit_or, bit_xor}
use go_mediaarchive.Base.{
  ℕ, Bool, true, false, not, ◌&&◌, ◌||◌, List, [], ◌∷◌, ◌==◌, if◌then◌else◌, keep,
}
use go_mediaarchive.Go.Text.{Text, codes, text_eq}
use go_mediaarchive.Go.Failure.{Result, ok, err, invalid_permission, invalid_permission_set}

abbrev pub discover : ℕ
discover = 1

abbrev pub read : ℕ
read = 2

abbrev pub download : ℕ
download = 4

abbrev pub update : ℕ
update = 8

abbrev pub delete : ℕ
delete = 16

abbrev pub share : ℕ
share = 32

abbrev pub all_permissions : ℕ
all_permissions = 63

-- `Permission.Valid`: exactly one supported operation.
unfoldable pub valid_permission : ℕ → Bool
valid_permission p =
    p == discover || p == read || p == download || p == update || p == delete || p == share

-- `Permission.String`, on the supported operations; the text for any other is not modelled.
unfoldable pub permission_name : ℕ → Text
permission_name p =
    if p == discover
    then codes "discover"
    else if p == read
    then codes "read"
    else if p == download
    then codes "download"
    else if p == update
    then codes "update"
    else if p == delete
    then codes "delete"
    else if p == share
    then codes "share"
    else []

-- `ParsePermission`
unfoldable pub parse_permission : Text → Result ℕ
unfolding text_eq
parse_permission name =
    if text_eq name (codes "discover")
    then ok discover
    else if text_eq name (codes "read")
    then ok read
    else if text_eq name (codes "download")
    then ok download
    else if text_eq name (codes "update")
    then ok update
    else if text_eq name (codes "delete")
    then ok delete
    else if text_eq name (codes "share")
    then ok share
    else err (invalid_permission ∷ [])

-- `a &^ b` on `uint8`
abbrev pub and_not : ℕ → ℕ → ℕ
and_not a b = bit_and a (bit_xor b 255)

-- `PermissionSet.Valid`
unfoldable pub valid_set : ℕ → Bool
valid_set s = not (s == 0) && and_not s all_permissions == 0

-- `PermissionSet.Has`
unfoldable pub has : ℕ → ℕ → Bool
unfolding valid_set valid_permission
has s p = valid_set s && valid_permission p && not (bit_and s p == 0)

abbrev pub ordered_permissions : List ℕ
ordered_permissions = discover ∷ read ∷ download ∷ update ∷ delete ∷ share ∷ []

-- `PermissionSet.Values`
unfoldable pub values : ℕ → List ℕ
unfolding has
values s = if valid_set s then keep (has s) ordered_permissions else []

-- The loop of `NewPermissionSet`, from the bits collected so far.
unfoldable pub combine : ℕ → List ℕ → Result ℕ
unfolding valid_permission
combine s [] = ok s
combine s (p ∷ ps) =
    let rest = combine (bit_or s p) ps in
    if not (valid_permission p)
    then err (invalid_permission_set ∷ invalid_permission ∷ [])
    else if not (bit_and s p == 0)
    then err (invalid_permission_set ∷ [])
    else rest

check_set : Result ℕ → Result ℕ
check_set (ok s) = if valid_set s then ok s else err (invalid_permission_set ∷ [])
check_set (err e) = err e

-- `NewPermissionSet`
unfoldable pub new_permission_set : List ℕ → Result ℕ
unfolding combine check_set valid_set
new_permission_set ps = check_set (combine 0 ps)
