-- ===== src/Tests/Logins.antt =====
-- Passwords, logins and activation on the small archive.
use go_mediaarchive.Base.{◌≡◌, refl, true, false, none, some, [], ◌∷◌, find}
use go_mediaarchive.Go.Text.{
  Text, text_eq, codes, utf8, encode_rune, to_lower, lower_rune, trim_space, trim_left, trim_right,
  is_space, is_control,
}
use go_mediaarchive.Go.Time.{pos}
use go_mediaarchive.Go.Failure.{ok}
use go_mediaarchive.Go.Action.{Action, pure, ◌>>=◌, catch}
use go_mediaarchive.Identity.Username.{
  valid_role, canonical_uuid, normalize_username, username_bytes, is_allowed, is_alphanumeric,
}
use go_mediaarchive.Identity.User.{User, set_active}
use go_mediaarchive.Session.{new_session}
use go_mediaarchive.Credential.{PasswordCredential}
use go_mediaarchive.Audit.Kinds.{valid_type, valid_outcome, valid_target_type, valid_reason}
use go_mediaarchive.Audit.{
  new_event, validate_actor, validate_target, valid_snapshot, contains_unsafe_text,
}
use go_mediaarchive.Store.Tables.{World}
use go_mediaarchive.Store.Statements.{
  statement, query, exec, store_result, commit, finish, transaction,
}
use go_mediaarchive.Store.Statements.Success.{Succeeds}
use go_mediaarchive.Store.Events.{add_event, insert_audit_event, insert_optional_event}
use go_mediaarchive.Store.Users.Rows.{changed_row, change_user}
use go_mediaarchive.Store.Users.{
  find_user_by_id, find_user_by_username, guard_administrators, update_user, update_preserving,
}
use go_mediaarchive.Store.Sessions.Rows.{add_session}
use go_mediaarchive.Store.Sessions.{insert_session, create_session_with_audit}
use go_mediaarchive.Store.Credentials.{
  change_credential, end_sessions, change_password, find_credential,
}
use go_mediaarchive.Services.Events.{next_event_id, new_actor_event}
use go_mediaarchive.Services.Users.{
  new_user_event, persist_updated, activate_existing, with_user, set_user_active,
}
use go_mediaarchive.Services.Users.Activation.{
  deactivates_self, Activates, set_user_active-Succeeds,
}
use go_mediaarchive.Services.Authentication.{
  Verifier, compare_password, authenticate_user, authenticate,
}
use go_mediaarchive.Services.Authentication.Verdicts.{authenticate-Succeeds}
use go_mediaarchive.Services.Sessions.{SessionService, Created, create_for, create_session}
use go_mediaarchive.Services.Sessions.Creation.{Opened, create_session-Succeeds}
use go_mediaarchive.Tests.Fixtures.{platform, at, ann, bob, credential_of_bob, world}

abbrev new_credential : PasswordCredential
new_credential = record credential_of_bob { password_hash = codes "better"; updated_at = at 60 }

abbrev changed_world : World
changed_world = (change_password platform new_credential none world).1

change_ok : Succeeds (change_password platform new_credential none) world tt changed_world
unfolding text_eq change_password change_credential end_sessions insert_optional_event ◌>>=◌
    transaction finish commit statement exec store_result
change_ok = refl

-- A hash that is the password.
abbrev verifier : Verifier
verifier = record { verify = λ p h. ok (text_eq p h); dummy_hash = codes "dummy" }

authenticate_ok :
    Succeeds (authenticate platform verifier (codes "Bob") (codes "secret")) world bob world
unfolding text_eq authenticate authenticate_user compare_password find_credential
    find_user_by_username normalize_username username_bytes is_allowed is_alphanumeric utf8
    encode_rune to_lower lower_rune trim_space trim_left trim_right is_space ◌>>=◌ catch statement
    query
authenticate_ok = refl

authenticate-Succeeds_example :
    (n : Text) × (c : PasswordCredential) × (normalize_username platform (codes "Bob") ≡ ok n)
    × (find (λ u. text_eq u.username n) world.db.users ≡ some bob)
    × (bob.active ≡ true)
    × (find (λ c. text_eq c.user_id bob.id) world.db.credentials ≡ some c)
    × (verifier.verify (codes "secret") c.password_hash ≡ ok true)
authenticate-Succeeds_example =
    authenticate-Succeeds platform verifier (codes "Bob") (codes "secret") world bob world
      authenticate_ok

abbrev stranger : Action World User
stranger = authenticate platform verifier (codes "Carl") (codes "secret")

abbrev sessions : SessionService
sessions = record { hash_token = λ t. t; absolute_lifetime = pos 60; idle_timeout = pos 30 }

abbrev login : Action World User
login = authenticate platform verifier (codes "Bob") (codes "secret")

abbrev next_token : Action World (Text × Text)
next_token = pure (6 ∷ [], 6 ∷ [])

abbrev created : Created
created = record { access_token = 6 ∷ []; expires_at = at 120 }

abbrev opened_world : World
opened_world = (create_session platform sessions login next_token (codes "Bob") (at 60) world).1

create_ok :
    Succeeds
      (create_session platform sessions login next_token (codes "Bob") (at 60))
      world
      created
      opened_world
unfolding text_eq create_session create_for new_session canonical_uuid new_actor_event next_event_id
    new_event validate_actor validate_target valid_snapshot contains_unsafe_text valid_type
    valid_outcome valid_target_type valid_reason valid_role create_session_with_audit insert_session
    add_session insert_audit_event add_event authenticate authenticate_user compare_password
    find_credential find_user_by_username normalize_username username_bytes is_allowed
    is_alphanumeric utf8 encode_rune to_lower lower_rune trim_space trim_left trim_right is_space
    is_control ◌>>=◌ catch transaction finish commit statement query exec store_result
create_ok = refl

create_session-Succeeds_example :
    (user : User) × (token : Text × Text) × (v x : World) × Succeeds login world user v
    × Succeeds next_token v token x
    × Opened platform sessions user token (at 60) created x.db opened_world.db
create_session-Succeeds_example =
    create_session-Succeeds platform sessions login next_token (codes "Bob") (at 60) world created
      opened_world create_ok

abbrev inactive : User
inactive = record bob { active = false; updated_at = at 60 }

abbrev deactivated_world : World
deactivated_world = (set_user_active platform ann (b'b' ∷ []) false (at 60) world).1

deactivate_ok :
    Succeeds
      (set_user_active platform ann (b'b' ∷ []) false (at 60))
      world
      inactive
      deactivated_world
unfolding text_eq set_user_active with_user activate_existing set_active persist_updated
    new_user_event canonical_uuid new_actor_event next_event_id new_event validate_actor
    validate_target valid_snapshot contains_unsafe_text valid_type valid_outcome valid_target_type
    valid_reason valid_role update_preserving find_user_by_id guard_administrators update_user
    change_user changed_row insert_optional_event insert_audit_event add_event trim_space trim_left
    trim_right is_space is_control ◌>>=◌ catch transaction finish commit statement query exec
    store_result
deactivate_ok = refl

set_user_active-Succeeds_example :
    (existing : User) × (canonical_uuid platform (b'b' ∷ []) ≡ true)
    × (find (λ u. text_eq u.id (b'b' ∷ [])) world.db.users ≡ some existing)
    × (deactivates_self ann existing false ≡ false)
    × Activates platform existing false (at 60) inactive world.db deactivated_world.db
set_user_active-Succeeds_example =
    set_user_active-Succeeds platform ann (b'b' ∷ []) false (at 60) world inactive deactivated_world
      deactivate_ok
