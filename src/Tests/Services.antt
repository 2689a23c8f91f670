-- ===== src/Tests/Services.antt =====
-- The services on the small archive.
use go_mediaarchive.Base.{◌≡◌, refl, true, false, some, [], ◌∷◌, find}
use go_mediaarchive.Go.Text.{
  text_eq, codes, utf8, encode_rune, to_lower, lower_rune, trim_space, trim_left, trim_right,
  is_space, is_control,
}
use go_mediaarchive.Go.Time.{pos}
use go_mediaarchive.Go.Failure.{Result, ok, last_administrator}
use go_mediaarchive.Go.Action.{◌>>=◌, catch}
use go_mediaarchive.Identity.Username.{
  valid_role, editor, canonical_uuid, validate_user_id, normalize_username, username_bytes,
  is_allowed, is_alphanumeric,
}
use go_mediaarchive.Identity.User.{User, update_details, new_user}
use go_mediaarchive.Session.{Session, is_valid_at}
use go_mediaarchive.Audit.Kinds.{valid_type, valid_outcome, valid_target_type, valid_reason}
use go_mediaarchive.Audit.{
  Event, new_event, validate_actor, validate_target, valid_snapshot, contains_unsafe_text,
}
use go_mediaarchive.Store.Tables.{Database, World}
use go_mediaarchive.Store.Statements.{
  statement, query, exec, store_result, commit, finish, transaction,
}
use go_mediaarchive.Store.Statements.Success.{Succeeds}
use go_mediaarchive.Store.Events.{add_event, insert_audit_event, insert_optional_event}
use go_mediaarchive.Store.Users.Rows.{
  changed_row, change_user, drop_grants, drop_enrollments, drop_sessions, drop_credentials,
  is_referenced, remove_user,
}
use go_mediaarchive.Store.Users.{
  find_user_by_id, guard_administrators, update_user, update_preserving, make_event,
  guard_ownership, delete_preserving,
}
use go_mediaarchive.Store.Users.Effects.{Updated, Recorded}
use go_mediaarchive.Store.Users.Deletion.{Deleted}
use go_mediaarchive.Store.Sessions.Rows.{touch_rows, has_open_session, stored_session}
use go_mediaarchive.Store.Sessions.{find_by_token_hash, touch}
use go_mediaarchive.Services.Events.{next_event_id, new_actor_event, append_and_fail}
use go_mediaarchive.Services.Events.Failures.{IsLogged}
use go_mediaarchive.Services.Users.Failures.{UserRequest, Fails, failed_request-IsLogged}
use go_mediaarchive.Services.Users.{
  UserInput, new_user_event, persist_updated, update_existing, with_user, update_user_service,
  delete_user, deletion_event, deny_deletion, deny_or_fail, record_denied_change,
  user_deletion_denial_reason,
}
use go_mediaarchive.Services.Users.Changes.{locks_out, update_user_service-Succeeds}
use go_mediaarchive.Services.Users.Removal.{delete_user-Succeeds}
use go_mediaarchive.Services.Sessions.{SessionService, resolve, resolve_found}
use go_mediaarchive.Services.Sessions.Resolution.{resolve-Succeeds}
use go_mediaarchive.Tests.Fixtures.{platform, at, ann, bob, world}

abbrev input : UserInput
input = record { username = codes "bob"; display_name = codes "Bo"; role = editor }

abbrev promoted : User
promoted = record bob { display_name = codes "Bo"; role = editor; updated_at = at 60 }

abbrev updated_world : World
updated_world = (update_user_service platform ann (b'b' ∷ []) input (at 60) world).1

update_ok :
    Succeeds
      (update_user_service platform ann (b'b' ∷ []) input (at 60))
      world
      promoted
      updated_world
unfolding update_user_service with_user update_existing persist_updated new_user_event
    new_actor_event next_event_id update_details new_user normalize_username username_bytes
    is_allowed is_alphanumeric validate_user_id utf8 encode_rune to_lower lower_rune trim_space
    trim_left trim_right is_space is_control text_eq canonical_uuid valid_role new_event
    validate_actor validate_target valid_snapshot contains_unsafe_text valid_type valid_outcome
    valid_target_type valid_reason update_preserving find_user_by_id guard_administrators
    update_user change_user changed_row insert_optional_event insert_audit_event add_event ◌>>=◌
    catch transaction finish commit statement query exec store_result
update_ok = refl

update_user_service-Succeeds_example :
    (existing : User) × (canonical_uuid platform (b'b' ∷ []) ≡ true)
    × (find (λ u. text_eq u.id (b'b' ∷ [])) world.db.users ≡ some existing)
    × (update_details platform existing input.username input.display_name input.role (at 60)
        ≡ ok promoted)
    × (locks_out ann existing promoted ≡ false)
    × ((event : Event) × (db : Database) × Updated promoted world.db db
        × Recorded platform (some event) db updated_world.db)
update_user_service-Succeeds_example =
    update_user_service-Succeeds platform ann (b'b' ∷ []) input (at 60) world promoted updated_world
      update_ok

abbrev deleted_world : World
deleted_world = (delete_user platform ann (b'b' ∷ []) (at 60) world).1

delete_ok : Succeeds (delete_user platform ann (b'b' ∷ []) (at 60)) world tt deleted_world
unfolding delete_user deletion_event new_user_event new_actor_event next_event_id trim_space
    trim_left trim_right is_space is_control text_eq canonical_uuid valid_role new_event
    validate_actor validate_target valid_snapshot contains_unsafe_text valid_type valid_outcome
    valid_target_type valid_reason delete_preserving find_user_by_id guard_administrators
    guard_ownership make_event drop_grants drop_enrollments drop_sessions drop_credentials
    is_referenced remove_user insert_optional_event insert_audit_event add_event ◌>>=◌ catch
    transaction finish commit statement query exec store_result
delete_ok = refl

delete_user-Succeeds_example :
    (canonical_uuid platform (b'b' ∷ []) ≡ true)
    × (text_eq ann.id (b'b' ∷ []) ≡ false)
    × ((existing : User) × (db : Database) × Deleted (b'b' ∷ []) existing world.db db
        × ((x : World) × (event : Event) × ((deletion_event platform ann (at 60) existing x).0
              ≡ ok event)
            × Recorded platform (some event) db deleted_world.db))
delete_user-Succeeds_example =
    delete_user-Succeeds platform ann (b'b' ∷ []) (at 60) world deleted_world delete_ok

-- A hash that is its text.
abbrev sessions : SessionService
sessions = record { hash_token = λ t. t; absolute_lifetime = pos 60; idle_timeout = pos 30 }

abbrev resolved_world : World
resolved_world = (resolve sessions (5 ∷ []) (at 50) world).1

resolve_ok : Succeeds (resolve sessions (5 ∷ []) (at 50)) world bob resolved_world
unfolding resolve resolve_found find_by_token_hash stored_session find_user_by_id is_valid_at touch
    touch_rows text_eq catch statement query exec store_result
resolve_ok = refl

resolve-Succeeds_example :
    (stored : Session) × (stored_session
        (find (λ r. text_eq r.token_hash (5 ∷ [])) world.db.sessions)
      ≡ ok stored)
    × (find (λ v. text_eq v.id stored.user_id) world.db.users ≡ some bob)
    × (is_valid_at stored (at 50) (pos 30) bob.active ≡ true)
    × (has_open_session (5 ∷ []) world.db ≡ true)
resolve-Succeeds_example =
    resolve-Succeeds sessions (5 ∷ []) (at 50) world bob resolved_world resolve_ok

-- A request to delete the only administrator.
abbrev last_deletion : Result (Unit {0}) × World
last_deletion = delete_user platform bob (b'a' ∷ []) (at 60) world

deletion_denied :
    Fails platform bob
      (at 60)
      (UserRequest.deletes (b'a' ∷ []))
      world
      (last_administrator ∷ [])
      last_deletion.1
unfolding delete_user deny_deletion deny_or_fail record_denied_change user_deletion_denial_reason
    append_and_fail deletion_event new_user_event new_actor_event next_event_id trim_space trim_left
    trim_right is_space is_control text_eq canonical_uuid valid_role new_event validate_actor
    validate_target valid_snapshot contains_unsafe_text valid_type valid_outcome valid_target_type
    valid_reason delete_preserving find_user_by_id guard_administrators guard_ownership make_event
    drop_grants drop_enrollments drop_sessions drop_credentials is_referenced remove_user
    insert_optional_event insert_audit_event add_event ◌>>=◌ catch transaction finish commit
    statement query exec store_result
deletion_denied = refl

failed_request-IsLogged_example : IsLogged world.db last_deletion.1.db
failed_request-IsLogged_example =
    failed_request-IsLogged platform bob (at 60) (UserRequest.deletes (b'a' ∷ [])) world
      (last_administrator ∷ []) last_deletion.1 deletion_denied
