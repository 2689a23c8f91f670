-- ===== src/Go/Failure.antt =====
-- Errors as `errors.Is` sees them: the sentinels that an error wraps, outermost first. The texts
-- that `fmt.Errorf` puts round them are left out.
use go_mediaarchive.Base.{ℕ, Bool, true, false, ◌||◌, List, [], ◌∷◌, ◌==◌}

pub data Sentinel : Type 0 where
  invalid_username invalid_user_id invalid_display_name invalid_role invalid_timestamp : Sentinel
  user_not_found user_conflict last_administrator user_owns_media : Sentinel
  invalid_permission invalid_permission_set invalid_grant invalid_media_id : Sentinel
  invalid_owner_id item_not_found grant_not_found : Sentinel
  invalid_token_hash invalid_session_user_id invalid_session_timestamp : Sentinel
  invalid_lifetime session_not_found : Sentinel
  invalid_event_id invalid_audit_timestamp invalid_event_type invalid_outcome : Sentinel
  invalid_actor invalid_target invalid_reason invalid_range event_conflict : Sentinel
  self_lockout self_deletion invalid_page_limit invalid_cursor : Sentinel
  invalid_credentials unauthenticated credential_not_found : Sentinel
  media_not_found owner_grant inactive_grantee creation_forbidden : Sentinel
  invalid_content_range : Sentinel
  invalid_credential_user_id invalid_password_hash invalid_credential_timestamp : Sentinel
  invalid_enrollment_token_hash invalid_enrollment_user_id : Sentinel
  invalid_enrollment_timestamp invalid_enrollment_lifetime : Sentinel
  invalid_title invalid_authors invalid_original_filename invalid_media_type : Sentinel
  invalid_mime_type invalid_size invalid_checksum invalid_media_timestamp item_conflict : Sentinel
  invalid_storage_key invalid_stored_at invalid_content_media_id location_conflict : Sentinel
  location_not_found location_mismatch upload_compensation_failed : Sentinel
  invalid_enrollment invalid_password password_unchanged invalid_current_password : Sentinel
  enrollment_not_found credential_exists already_bootstrapped : Sentinel
  -- Failures of code outside the repository: the database driver, a random source, a hash.
  driver external : Sentinel

abbrev pub number : Sentinel → ℕ
number invalid_username = 0
number invalid_user_id = 1
number invalid_display_name = 2
number invalid_role = 3
number invalid_timestamp = 4
number user_not_found = 5
number user_conflict = 6
number last_administrator = 7
number user_owns_media = 8
number invalid_permission = 9
number invalid_permission_set = 10
number invalid_grant = 11
number invalid_media_id = 12
number invalid_owner_id = 13
number item_not_found = 14
number grant_not_found = 15
number invalid_token_hash = 16
number invalid_session_user_id = 17
number invalid_session_timestamp = 18
number invalid_lifetime = 19
number session_not_found = 20
number invalid_event_id = 21
number invalid_audit_timestamp = 22
number invalid_event_type = 23
number invalid_outcome = 24
number invalid_actor = 25
number invalid_target = 26
number invalid_reason = 27
number invalid_range = 28
number event_conflict = 29
number self_lockout = 30
number self_deletion = 31
number invalid_page_limit = 32
number invalid_cursor = 33
number invalid_credentials = 34
number unauthenticated = 35
number credential_not_found = 36
number media_not_found = 37
number owner_grant = 38
number inactive_grantee = 39
number creation_forbidden = 40
number invalid_content_range = 41
number driver = 42
number external = 43
number invalid_credential_user_id = 44
number invalid_password_hash = 45
number invalid_credential_timestamp = 46
number invalid_enrollment_token_hash = 47
number invalid_enrollment_user_id = 48
number invalid_enrollment_timestamp = 49
number invalid_enrollment_lifetime = 50
number invalid_title = 51
number invalid_authors = 52
number invalid_original_filename = 53
number invalid_media_type = 54
number invalid_mime_type = 55
number invalid_size = 56
number invalid_checksum = 57
number invalid_media_timestamp = 58
number item_conflict = 59
number invalid_storage_key = 60
number invalid_stored_at = 61
number invalid_content_media_id = 62
number location_conflict = 63
number location_not_found = 64
number location_mismatch = 65
number upload_compensation_failed = 66
number invalid_enrollment = 67
number invalid_password = 68
number password_unchanged = 69
number invalid_current_password = 70
number enrollment_not_found = 71
number credential_exists = 72
number already_bootstrapped = 73

abbrev pub Error : Type 0
Error = List Sentinel

-- `errors.Is(err, sentinel)`
abbrev pub is : Sentinel → Error → Bool
is k [] = false
is k (s ∷ e) = number k == number s || is k e

-- What a function of the program returns: a value, or an error.
pub data Result {ℓ} (A : Type ℓ) : Type ℓ where
  ok : A → Result A
  err : Error → Result A

-- `err == nil`
abbrev pub is_ok {ℓ} : {A : Type ℓ} → Result A → Bool
is_ok (ok _) = true
is_ok (err _) = false
