-- ===== src/Store/Users.antt =====
-- internal/storage/sqlite/user_repository.go. The `users` table has the primary key `id` and unique
-- usernames, which are stored in lower case; rows of the other tables refer to it with RESTRICT.
pub mod Rows
pub mod Effects
pub mod Deletion
pub mod Administrators
pub mod Integrity
use go_mediaarchive.Base.{
  ℕ, Bool, true, false, not, ◌&&◌, ◌||◌, Option, none, some, List, [], ◌∷◌, leb, if◌then◌else◌, any,
  find,
}
use go_mediaarchive.Go.Text.{Text, text_eq}
use go_mediaarchive.Go.Failure.{
  Result, ok, err, user_not_found, last_administrator, user_owns_media,
}
use go_mediaarchive.Go.Action.{Action, pure, fail, lift, ◌>>=◌, ◌>>◌, fail_if}
use go_mediaarchive.Identity.Username.{Platform, Role, is_admin, normalize_username}
use go_mediaarchive.Identity.User.{User}
use go_mediaarchive.Audit.{Event}
use go_mediaarchive.Store.Tables.{Database, World}
use go_mediaarchive.Store.Statements.{query, exec, transaction}
use go_mediaarchive.Store.Events.{insert_audit_event, insert_optional_event}
use Rows.{
  add_user, change_user, remove_user, drop_grants, drop_enrollments, drop_sessions,
  drop_credentials, count_administrators, owns_media, is_active_admin, one_row,
}

-- `insertUser`
unfoldable pub insert_user : User → Action World (Unit {0})
insert_user user = exec (add_user user)

-- `CreateWithAudit`
unfoldable pub create_with_audit : Platform → User → Event → Action World (Unit {0})
unfolding insert_user
create_with_audit g user event = transaction (do insert_user user; insert_audit_event g event)

-- `findUserByID`
unfoldable pub find_user_by_id : Text → Action World User
find_user_by_id id = query (λ db. one_row (find (λ u. text_eq u.id id) db.users))

-- `FindByUsername`
unfoldable pub find_user_by_username : Platform → Text → Action World User
find_user_by_username g username = do
  normalized ← lift (normalize_username g username)
  query (λ db. one_row (find (λ u. text_eq u.username normalized) db.users))

-- `updateUser`
unfoldable pub update_user : User → Action World (Unit {0})
update_user user = exec (change_user user)

-- `SELECT COUNT(*) FROM users WHERE role = 'admin' AND active = 1`, and the test on the count.
unfoldable pub guard_administrators : Bool → Action World (Unit {0})
guard_administrators false = pure tt
guard_administrators true = do
  count ← query (λ db. ok (count_administrators db))
  fail_if (leb count 1) (last_administrator ∷ [])

-- `updatePreservingLastAdministrator`
unfoldable pub update_preserving : Platform → User → Option Event → Action World (Unit {0})
unfolding find_user_by_id guard_administrators update_user
update_preserving g user event = transaction (do
  existing ← find_user_by_id user.id
  guard_administrators (is_active_admin existing && not (is_active_admin user))
  update_user user
  insert_optional_event g event)

-- `UserDeletionEventFactory`: called with the row that will go.
abbrev pub EventFactory : Type 0
EventFactory = User → Action World Event

unfoldable pub make_event : Option EventFactory → User → Action World (Option Event)
make_event none user = pure none
make_event (some factory) user = do event ← factory user; pure (some event)

-- `SELECT EXISTS(SELECT 1 FROM media_items WHERE owner_id = ?)`, and the test on it.
unfoldable pub guard_ownership : Text → Action World (Unit {0})
guard_ownership id = do
  owns ← query (λ db. ok (owns_media id db))
  fail_if owns (user_owns_media ∷ [])

-- `deletePreservingLastAdministrator`
unfoldable pub delete_preserving : Platform → Text → Option EventFactory → Action World (Unit {0})
unfolding find_user_by_id guard_administrators guard_ownership make_event
delete_preserving g id factory = transaction (do
  existing ← find_user_by_id id
  event ← make_event factory existing
  guard_administrators (is_active_admin existing)
  exec (λ db. ok (drop_grants id db))
  guard_ownership id
  exec (λ db. ok (drop_enrollments id db))
  exec (λ db. ok (drop_sessions id db))
  exec (λ db. ok (drop_credentials id db))
  exec (remove_user id)
  insert_optional_event g event)
