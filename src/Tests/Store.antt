-- ===== src/Tests/Store.antt =====
-- The repositories on the small archive.
use go_mediaarchive.Base.{◌≡◌, refl, true, none, List, [], ◌∷◌, arith}
use go_mediaarchive.Go.Text.{
  text_eq, codes, trim_space, trim_left, trim_right, is_space, is_control,
}
use go_mediaarchive.Go.Failure.{ok, err, last_administrator}
use go_mediaarchive.Go.Action.{◌>>=◌}
use go_mediaarchive.Identity.Username.{valid_role, canonical_uuid}
use go_mediaarchive.Identity.User.{User}
use go_mediaarchive.Audit.Kinds.{valid_type, valid_outcome, valid_target_type, valid_reason}
use go_mediaarchive.Audit.{
  new_event, validate_actor, validate_target, valid_snapshot, contains_unsafe_text,
}
use go_mediaarchive.Store.Tables.{World}
use go_mediaarchive.Store.Statements.{
  statement, query, exec, store_result, commit, finish, transaction, finish_or_return,
  transaction_or_return,
}
use go_mediaarchive.Store.Statements.Success.{Succeeds}
use go_mediaarchive.Store.Events.{add_event, insert_audit_event, insert_optional_event}
use go_mediaarchive.Store.Users.Rows.{
  changed_row, change_user, drop_grants, drop_enrollments, drop_sessions, drop_credentials,
  is_referenced, remove_user,
}
use go_mediaarchive.Store.Users.{
  find_user_by_id, guard_administrators, update_user, update_preserving, make_event,
  guard_ownership, delete_preserving,
}
use go_mediaarchive.Store.Users.Integrity.{
  IsAdministered, UserCall, history, history-IsAdministered,
}
use go_mediaarchive.Store.Sessions.Rows.{revoke_first}
use go_mediaarchive.Store.Sessions.{revoke_with_audit, revoke_open, record_revocation}
use go_mediaarchive.Store.Sessions.Effects.{IsClosed}
use go_mediaarchive.Store.Sessions.Revocation.{
  SessionCall, session_history, revoke_with_audit-closes, session_history-IsClosed,
}
use go_mediaarchive.Tests.Fixtures.{platform, at, bob, cleo, event, world}

-- A user is renamed, the only administrator is not deleted, and another user is.
abbrev calls : List UserCall
calls =
    UserCall.creates cleo event
    ∷ UserCall.updates (record bob { display_name = codes "Robert" }) none
    ∷ UserCall.deletes (b'a' ∷ []) none
    ∷ UserCall.deletes (b'b' ∷ []) none
    ∷ []

world-IsAdministered : IsAdministered world.db
unfolding text_eq
world-IsAdministered = record { unique = (refl, (refl, tt)); administrator = omega arith }

history-IsAdministered_example : IsAdministered (history platform calls world).db
history-IsAdministered_example =
    history-IsAdministered platform calls world (tt, (tt, (tt, (tt, tt)))) world-IsAdministered

abbrev renamed : User
renamed = record bob { display_name = codes "Robert" }

abbrev updated_world : World
updated_world = (update_preserving platform renamed none world).1

update_ok : Succeeds (update_preserving platform renamed none) world tt updated_world
unfolding text_eq update_preserving find_user_by_id guard_administrators update_user change_user
    changed_row insert_optional_event ◌>>=◌ transaction finish commit statement query exec
    store_result
update_ok = refl

abbrev deleted_world : World
deleted_world = (delete_preserving platform (b'b' ∷ []) none world).1

delete_ok : Succeeds (delete_preserving platform (b'b' ∷ []) none) world tt deleted_world
unfolding text_eq delete_preserving find_user_by_id guard_administrators guard_ownership make_event
    drop_grants drop_enrollments drop_sessions drop_credentials is_referenced remove_user
    insert_optional_event ◌>>=◌ transaction finish commit statement query exec store_result
delete_ok = refl

-- The deletion of the only administrator fails, after the grants of that user have gone.
deletion_refused :
    (delete_preserving platform (b'a' ∷ []) none world).0 ≡ err (last_administrator ∷ [])
unfolding text_eq delete_preserving find_user_by_id guard_administrators guard_ownership make_event
    drop_grants drop_enrollments drop_sessions drop_credentials is_referenced remove_user
    insert_optional_event ◌>>=◌ transaction finish commit statement query exec store_result
deletion_refused = refl

abbrev revoked_world : World
revoked_world = (revoke_with_audit platform (5 ∷ []) (at 50) event world).1

revoke_ok : (revoke_with_audit platform (5 ∷ []) (at 50) event world).0 ≡ ok true
unfolding text_eq revoke_with_audit transaction_or_return finish_or_return commit statement exec
    store_result ◌>>=◌ revoke_open record_revocation revoke_first insert_audit_event add_event
    new_event canonical_uuid validate_actor validate_target valid_snapshot contains_unsafe_text
    is_control trim_space trim_left trim_right is_space valid_role valid_type valid_outcome
    valid_target_type valid_reason
revoke_ok = refl

-- A closed session is touched and revoked again.
session_history-IsClosed_example :
    IsClosed
      (5 ∷ [])
      (session_history platform
        (SessionCall.touches (5 ∷ []) (at 60) ∷ SessionCall.revokes (5 ∷ []) (at 70) ∷ [])
        revoked_world).db
session_history-IsClosed_example =
    session_history-IsClosed platform (5 ∷ [])
      (SessionCall.touches (5 ∷ []) (at 60) ∷ SessionCall.revokes (5 ∷ []) (at 70) ∷ [])
      revoked_world (revoke_with_audit-closes platform (5 ∷ []) (at 50) event world revoke_ok)
