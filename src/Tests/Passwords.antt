-- ===== src/Tests/Passwords.antt =====
-- Enrollments, password changes and the bootstrap at concrete inputs.
use go_mediaarchive.Base.{◌≡◌, ◌≢◌, refl, true, false, none, some, List, [], ◌∷◌, ◌++◌, find}
use go_mediaarchive.Go.Text.{
  Text, text_eq, codes, trim_space, trim_left, trim_right, is_space, is_control, utf8, encode_rune,
  to_lower, lower_rune,
}
use go_mediaarchive.Go.Failure.{ok}
use go_mediaarchive.Go.Action.{◌>>=◌, catch}
use go_mediaarchive.Identity.Username.{
  valid_role, canonical_uuid, normalize_username, username_bytes, is_allowed, is_alphanumeric,
  validate_user_id,
}
use go_mediaarchive.Identity.User.{User, new_user}
use go_mediaarchive.Credential.{
  PasswordCredential, PasswordEnrollment, new_password_credential, with_password_hash,
  enrollment_valid_at, has_prefix,
}
use go_mediaarchive.Audit.Kinds.{valid_type, valid_outcome, valid_target_type, valid_reason}
use go_mediaarchive.Audit.{
  new_event, validate_actor, validate_target, valid_snapshot, contains_unsafe_text,
}
use go_mediaarchive.Store.Tables.{World}
use go_mediaarchive.Store.Statements.{
  statement, query, exec, store_result, commit, finish, transaction,
}
use go_mediaarchive.Store.Statements.Success.{Succeeds}
use go_mediaarchive.Store.Events.{add_event, insert_audit_event, insert_optional_event}
use go_mediaarchive.Store.Users.{find_user_by_id}
use go_mediaarchive.Store.Users.Rows.{add_user}
use go_mediaarchive.Store.Users.Integrity.{IsAdministered, UserCall, history}
use go_mediaarchive.Store.Credentials.{
  find_credential, change_credential, end_sessions, change_password,
}
use go_mediaarchive.Store.Enrollments.{
  refuse_credential, find_enrollment, add_credential, remove_enrollment, consume_row,
  consume_enrollment, save_enrollment,
}
use go_mediaarchive.Store.Enrollments.Finality.{
  PasswordCall, password_history, password_history-once,
}
use go_mediaarchive.Services.Events.{next_event_id, new_actor_event, append_and_fail}
use go_mediaarchive.Services.Passwords.{
  Hasher, validate_password, safe_enrollment_target, new_completion_event, deny_completion,
  deny_enrollment, enroll, complete_found, complete_enrollment, new_change_event, deny_change,
  replace_password, change_verified, change_own_password,
}
use go_mediaarchive.Services.Passwords.Changes.{Enrolled, complete_enrollment-Succeeds}
use go_mediaarchive.Services.Passwords.Replacement.{Replaces, change_own_password-Succeeds}
use go_mediaarchive.Services.Bootstrap.{
  require_no_user, store_administrator, bootstrap_admin, bootstrap_admin-once,
}
use go_mediaarchive.Tests.Fixtures.{
  event, platform, at, ann, bob, credential_of_bob, world, archive,
}

abbrev encode : Text → Text
encode p = codes "$argon2id$" ++ p

abbrev hasher : Hasher
hasher = record {
  runes = some;
  hash = λ p. ok (encode p);
  verify = λ p e. ok (text_eq (encode p) e);
  hash_token = λ t. t;
}

abbrev invited : World
invited = record world {
  db = record archive {
    enrollments =
        record {
          user_id = b'a' ∷ [];
          token_hash = codes "t";
          created_at = at 10;
          expires_at = at 100;
        }
        ∷ [];
  };
}

abbrev long_password : Text
long_password = codes "a long password"

abbrev first_credential : PasswordCredential
first_credential = record {
  user_id = b'a' ∷ [];
  password_hash = encode long_password;
  created_at = at 50;
  updated_at = at 50;
}

abbrev enrolled_world : World
enrolled_world = (complete_enrollment platform hasher (codes "t") long_password (at 50) invited).1

enrollment_ok :
    Succeeds
      (complete_enrollment platform hasher (codes "t") long_password (at 50))
      invited
      tt
      enrolled_world
unfolding complete_enrollment complete_found enroll deny_enrollment deny_completion
    new_completion_event safe_enrollment_target validate_password find_user_by_id
    enrollment_valid_at new_password_credential find_enrollment consume_enrollment consume_row
    refuse_credential add_credential remove_enrollment canonical_uuid validate_user_id text_eq ◌>>=◌
    catch transaction finish commit statement query exec store_result next_event_id new_actor_event
    append_and_fail new_event validate_actor validate_target valid_snapshot contains_unsafe_text
    valid_type valid_outcome valid_target_type valid_reason valid_role add_event insert_audit_event
    insert_optional_event normalize_username username_bytes is_allowed is_alphanumeric utf8
    encode_rune to_lower lower_rune trim_space trim_left trim_right is_space is_control has_prefix
enrollment_ok = refl

complete_enrollment-Succeeds_example :
    (enrollment : PasswordEnrollment) × (find
        (λ r. text_eq r.token_hash (hasher.hash_token (codes "t")))
        invited.db.enrollments
      ≡ some enrollment)
    × (enrollment_valid_at enrollment (at 50) ≡ true)
    × (validate_password (hasher.runes long_password) ≡ ok tt)
    × Enrolled platform hasher
        (codes "t")
        long_password
        (at 50)
        enrollment
        invited.db
        enrolled_world.db
complete_enrollment-Succeeds_example =
    complete_enrollment-Succeeds platform hasher (codes "t") long_password (at 50) invited
      enrolled_world enrollment_ok

abbrev consumed_world : World
consumed_world = (consume_enrollment platform (codes "t") first_credential (at 50) none invited).1

consumption_ok :
    Succeeds
      (consume_enrollment platform (codes "t") first_credential (at 50) none)
      invited
      tt
      consumed_world
unfolding find_enrollment consume_enrollment consume_row refuse_credential add_credential
    remove_enrollment canonical_uuid validate_user_id text_eq ◌>>=◌ catch transaction finish commit
    statement query exec store_result next_event_id new_actor_event append_and_fail new_event
    validate_actor validate_target valid_snapshot contains_unsafe_text valid_type valid_outcome
    valid_target_type valid_reason valid_role add_event insert_audit_event insert_optional_event
    normalize_username username_bytes is_allowed is_alphanumeric utf8 encode_rune to_lower
    lower_rune trim_space trim_left trim_right is_space is_control has_prefix
consumption_ok = refl

abbrev next_enrollment : PasswordEnrollment
next_enrollment = record {
  user_id = b'a' ∷ [];
  token_hash = codes "u";
  created_at = at 60;
  expires_at = at 90;
}

-- Afterwards another token is asked for, and the old one used again.
abbrev later_calls : List PasswordCall
later_calls =
    PasswordCall.saves next_enrollment none
    ∷ PasswordCall.consumes (codes "t") first_credential (at 60) none
    ∷ []

password_history-once_example :
    ((consume_enrollment platform
        (codes "u")
        first_credential
        (at 70)
        none
        (password_history platform later_calls consumed_world)).0
      ≢ ok tt)
    × ((save_enrollment platform next_enrollment none
          (password_history platform later_calls consumed_world)).0
        ≢ ok tt)
password_history-once_example =
    password_history-once platform (codes "t") first_credential (at 50) none invited consumed_world
      consumption_ok later_calls (codes "u") first_credential (at 70) next_enrollment none refl refl

abbrev known : World
known = record world {
  db = record archive {
    credentials = record credential_of_bob { password_hash = encode (codes "old") } ∷ [];
  };
}

abbrev after_change : World
after_change = (change_own_password platform hasher bob (codes "old") long_password (at 60) known).1

change_own_ok :
    Succeeds
      (change_own_password platform hasher bob (codes "old") long_password (at 60))
      known
      tt
      after_change
unfolding change_own_password change_verified replace_password new_change_event deny_change
    validate_password with_password_hash find_credential change_password change_credential
    end_sessions canonical_uuid validate_user_id text_eq ◌>>=◌ catch transaction finish commit
    statement query exec store_result next_event_id new_actor_event append_and_fail new_event
    validate_actor validate_target valid_snapshot contains_unsafe_text valid_type valid_outcome
    valid_target_type valid_reason valid_role add_event insert_audit_event insert_optional_event
    normalize_username username_bytes is_allowed is_alphanumeric utf8 encode_rune to_lower
    lower_rune trim_space trim_left trim_right is_space is_control has_prefix
change_own_ok = refl

change_own_password-Succeeds_example :
    (stored : PasswordCredential) × (find (λ c. text_eq c.user_id bob.id) known.db.credentials
      ≡ some stored)
    × (hasher.verify (codes "old") stored.password_hash ≡ ok true)
    × (validate_password (hasher.runes long_password) ≡ ok tt)
    × (text_eq (codes "old") long_password ≡ false)
    × Replaces platform hasher long_password (at 60) stored known.db after_change.db
change_own_password-Succeeds_example =
    change_own_password-Succeeds platform hasher bob (codes "old") long_password (at 60) known
      after_change change_own_ok

abbrev empty_world : World
empty_world = record world {
  db = record archive { users = []; credentials = []; sessions = []; items = []; grants = [] };
}

abbrev first_admin : User
first_admin = record ann { created_at = at 50; updated_at = at 50 }

-- Afterwards a second user is created.
abbrev later_users : List UserCall
later_users = UserCall.creates bob event ∷ []

abbrev started : World
started =
    (bootstrap_admin platform hasher (b'a' ∷ []) (codes "Ann") (codes "Ann") long_password (at 50)
      empty_world).1

bootstrap_ok :
    Succeeds
      (bootstrap_admin platform hasher
        (b'a' ∷ [])
        (codes "Ann")
        (codes "Ann")
        long_password
        (at 50))
      empty_world
      first_admin
      started
unfolding bootstrap_admin store_administrator require_no_user add_user add_credential
    validate_password new_password_credential new_user canonical_uuid validate_user_id text_eq ◌>>=◌
    catch transaction finish commit statement query exec store_result next_event_id new_actor_event
    append_and_fail new_event validate_actor validate_target valid_snapshot contains_unsafe_text
    valid_type valid_outcome valid_target_type valid_reason valid_role add_event insert_audit_event
    insert_optional_event normalize_username username_bytes is_allowed is_alphanumeric utf8
    encode_rune to_lower lower_rune trim_space trim_left trim_right is_space is_control has_prefix
bootstrap_ok = refl

bootstrap_admin-once_example :
    (empty_world.db.users ≡ [])
    × (started.db.users ≡ first_admin ∷ [])
    × ((encoded : Text) × (c : PasswordCredential) × (hasher.hash long_password ≡ ok encoded)
        × (validate_password (hasher.runes long_password) ≡ ok tt)
        × (new_password_credential platform first_admin.id encoded (at 50) ≡ ok c)
        × (started.db.credentials ≡ c ∷ empty_world.db.credentials))
    × IsAdministered (history platform later_users started).db
    × ((store_administrator bob credential_of_bob (history platform later_users started)).0 ≢ ok tt)
bootstrap_admin-once_example =
    bootstrap_admin-once platform hasher (b'a' ∷ []) (codes "Ann") (codes "Ann") long_password
      (at 50) empty_world first_admin started bootstrap_ok later_users (tt, tt) bob
      credential_of_bob
