-- ===== src/Identity/Username.antt =====
-- internal/identity/user.go: `Role`, `NormalizeUsername` and `ValidateUserID`.
pub mod Laws
use go_mediaarchive.Base.{
  ℕ, ◌≡◌, Bool, true, false, not, ◌&&◌, ◌||◌, Option, none, some, List, [], ◌∷◌, ltb, leb, ◌==◌,
  if◌then◌else◌, length, every,
}
use go_mediaarchive.Go.Text.{Text, text_eq, trim_space, to_lower, utf8}
use go_mediaarchive.Go.Failure.{Result, ok, err, invalid_username, invalid_user_id}

-- Code outside the repository: `uuid.Parse` and `UUID.String` of github.com/google/uuid, over
-- 128-bit values with `uuid.Nil` as 0, the lower case of code points above ASCII, and
-- `mime.ParseMediaType`, with whether there were parameters.
pub record Platform : Type 0 where
  pub parse_uuid : Text → Option ℕ
  pub print_uuid : ℕ → Text
  pub lower_case : ℕ → ℕ
  pub parse_media_type : Text → Option (Text × Bool)

-- `other` is any text but the three constants.
pub data Role : Type 0 where
  viewer editor admin : Role
  other : Text → Role

unfoldable pub valid_role : Role → Bool
valid_role viewer = true
valid_role editor = true
valid_role admin = true
valid_role (other _) = false

-- `role == RoleAdmin`
abbrev pub is_admin : Role → Bool
is_admin admin = true
is_admin _ = false

-- `isASCIIAlphanumeric`
unfoldable pub is_alphanumeric : ℕ → Bool
is_alphanumeric c = (leb b'a' c && leb c b'z') || (leb b'0' c && leb c b'9')

-- A byte that the loop of `NormalizeUsername` lets pass.
unfoldable pub is_allowed : ℕ → Bool
unfolding is_alphanumeric
is_allowed c = is_alphanumeric c || c == b'-' || c == b'_'

-- The tests on the bytes of the trimmed, lower-case text; the loop starts at the second byte.
unfoldable pub username_bytes : List ℕ → Bool
unfolding is_allowed
username_bytes [] = false
username_bytes (c ∷ s) = is_alphanumeric c && every is_allowed s

unfoldable pub normalize_username : Platform → Text → Result Text
unfolding username_bytes
normalize_username g username =
    let normalized = to_lower g.lower_case (trim_space username) in
    let bytes = utf8 normalized in
    if ltb (length bytes) 3 || ltb 32 (length bytes)
    then err (invalid_username ∷ [])
    else if username_bytes bytes
    then ok normalized
    else err (invalid_username ∷ [])

-- The test that `ValidateUserID` and its copies in the other packages make.
unfoldable pub canonical_uuid : Platform → Text → Bool
canonical_uuid g id = elim (g.parse_uuid id) [
  | none ↦ false
  | some u ↦ not (u == 0) && text_eq (g.print_uuid u) id
]

unfoldable pub validate_user_id : Platform → Text → Result (Unit {0})
validate_user_id g id = if canonical_uuid g id then ok tt else err (invalid_user_id ∷ [])
