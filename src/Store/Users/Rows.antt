-- ===== src/Store/Users/Rows.antt =====
-- What the statements of internal/storage/sqlite/user_repository.go do to the rows.
use go_mediaarchive.Base.{
  ℕ, suc, Bool, not, ◌&&◌, ◌||◌, Option, none, some, List, [], ◌∷◌, if◌then◌else◌, any, keep, map,
}
use go_mediaarchive.Go.Text.{Text, text_eq}
use go_mediaarchive.Go.Failure.{Result, ok, err, user_conflict, user_not_found, driver}
use go_mediaarchive.Identity.Username.{is_admin}
use go_mediaarchive.Identity.User.{User}
use go_mediaarchive.Store.Tables.{Database}

-- `existingUser.Active && existingUser.Role == identity.RoleAdmin`
abbrev pub is_active_admin : User → Bool
is_active_admin u = u.active && is_admin u.role

-- `sql.ErrNoRows` becomes `ErrUserNotFound`.
abbrev pub one_row : Option User → Result User
one_row none = err (user_not_found ∷ [])
one_row (some u) = ok u

-- INSERT INTO users
unfoldable pub add_user : User → Database → Result Database
add_user user db =
    if any (λ u. text_eq u.id user.id || text_eq u.username user.username) db.users
    then err (user_conflict ∷ driver ∷ [])
    else ok (record db { users = user ∷ db.users })

-- The columns that UPDATE users SET names, in the row with the user's ID.
unfoldable pub changed_row : User → User → User
changed_row user row =
    if text_eq row.id user.id
    then record row {
      username = user.username;
      display_name = user.display_name;
      role = user.role;
      active = user.active;
      updated_at = user.updated_at;
    }
    else row

-- UPDATE users, with the test on the number of rows that it changed.
unfoldable pub change_user : User → Database → Result Database
unfolding changed_row
change_user user db =
    if not (any (λ u. text_eq u.id user.id) db.users)
    then err (user_not_found ∷ [])
    else if any (λ u. not (text_eq u.id user.id) && text_eq u.username user.username) db.users
    then err (user_conflict ∷ driver ∷ [])
    else ok (record db { users = map (changed_row user) db.users })

-- SELECT COUNT(*) FROM users WHERE role = 'admin' AND active = 1
abbrev pub administrators : List User → ℕ
administrators [] = 0
administrators (u ∷ us) = if is_active_admin u then suc (administrators us) else administrators us

abbrev pub count_administrators : Database → ℕ
count_administrators db = administrators db.users

-- SELECT EXISTS(SELECT 1 FROM media_items WHERE owner_id = ?)
abbrev pub owns_media : Text → Database → Bool
owns_media id db = any (λ i. text_eq i.owner_id id) db.items

-- DELETE FROM media_grants, password_enrollments, sessions, password_credentials WHERE user_id = ?
unfoldable pub drop_grants : Text → Database → Database
drop_grants id db = record db { grants = keep (λ r. not (text_eq r.user_id id)) db.grants }

unfoldable pub drop_enrollments : Text → Database → Database
drop_enrollments id db = record db {
  enrollments = keep (λ r. not (text_eq r.user_id id)) db.enrollments;
}

unfoldable pub drop_sessions : Text → Database → Database
drop_sessions id db = record db { sessions = keep (λ r. not (text_eq r.user_id id)) db.sessions }

unfoldable pub drop_credentials : Text → Database → Database
drop_credentials id db = record db {
  credentials = keep (λ r. not (text_eq r.user_id id)) db.credentials;
}

-- A row of another table refers to the user.
unfoldable pub is_referenced : Text → Database → Bool
is_referenced id db =
    any (λ r. text_eq r.user_id id) db.grants
    || any (λ r. text_eq r.user_id id) db.enrollments
    || any (λ r. text_eq r.user_id id) db.sessions
    || any (λ r. text_eq r.user_id id) db.credentials
    || any (λ i. text_eq i.owner_id id) db.items

-- DELETE FROM users WHERE id = ?, which the references restrict.
unfoldable pub remove_user : Text → Database → Result Database
unfolding is_referenced
remove_user id db =
    if is_referenced id db
    then err (driver ∷ [])
    else ok (record db { users = keep (λ u. not (text_eq u.id id)) db.users })
