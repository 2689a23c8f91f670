-- ===== src/Tests/Records.antt =====
-- Users, sessions, credentials and ranges.
use go_mediaarchive.Base.{
  ◌≡◌, ◌&&◌, if◌then◌else◌, ◌↔◌, ◌+◌, ◌<◌, ◌≤◌, refl, true, some, [], ◌∷◌, ◌++◌, arith,
}
use go_mediaarchive.Go.Text.{
  codes, text_eq, utf8, encode_rune, to_lower, lower_rune, trim_space, trim_left, trim_right,
  is_space,
}
use go_mediaarchive.Go.Time.{pos, shift}
use go_mediaarchive.Go.Failure.{ok}
use go_mediaarchive.Identity.Username.{
  viewer, editor, canonical_uuid, validate_user_id, normalize_username, username_bytes, is_allowed,
  is_alphanumeric, valid_role,
}
use go_mediaarchive.Identity.User.{User, new_user, update_details}
use go_mediaarchive.Identity.User.Laws.{IsUser, new_user-IsUser}
use go_mediaarchive.Session.{Session, new_session, is_valid_at}
use go_mediaarchive.Session.Laws.{is_valid_at-new_session}
use go_mediaarchive.Credential.{
  PasswordCredential, PasswordEnrollment, with_password_hash, has_prefix, new_password_enrollment,
}
use go_mediaarchive.Api.ContentRange.{invalid, parse_content_range, is_digit, decimal}
use go_mediaarchive.Api.ContentRange.Bounds.{IsServable, parse_content_range-IsServable}
use go_mediaarchive.Api.ContentRange.Texts.{fits_int64, rfc_range, parse_content_range-rfc_range}
use go_mediaarchive.Tests.Fixtures.{platform, at, bob}

normalized : normalize_username platform (codes "  Bob_1") ≡ ok (codes "bob_1")
unfolding normalize_username username_bytes is_allowed is_alphanumeric utf8 encode_rune to_lower
    lower_rune trim_space trim_left trim_right is_space
normalized = refl

created : new_user platform (b'b' ∷ []) (codes "Bob") (codes " Bob ") viewer (at 20) ≡ ok bob
unfolding new_user validate_user_id canonical_uuid text_eq valid_role normalize_username
    username_bytes is_allowed is_alphanumeric utf8 encode_rune to_lower lower_rune trim_space
    trim_left trim_right is_space
created = refl

new_user-IsUser_example :
    IsUser platform bob
    × (bob.active ≡ true)
    × (bob.id ≡ b'b' ∷ [])
    × (normalize_username platform (codes "Bob") ≡ ok bob.username)
    × (bob.display_name ≡ trim_space (codes " Bob "))
    × (bob.role ≡ viewer)
    × (bob.created_at.instant ≡ 20)
    × (bob.updated_at.instant ≡ 20)
new_user-IsUser_example =
    new_user-IsUser platform (b'b' ∷ []) (codes "Bob") (codes " Bob ") viewer (at 20) bob created

abbrev promoted : User
promoted = record bob { display_name = codes "Bo"; role = editor; updated_at = at 60 }

updated : update_details platform bob (codes "bob") (codes "Bo") editor (at 60) ≡ ok promoted
unfolding update_details new_user validate_user_id canonical_uuid text_eq valid_role
    normalize_username username_bytes is_allowed is_alphanumeric utf8 encode_rune to_lower
    lower_rune trim_space trim_left trim_right is_space
updated = refl

abbrev session : Session
session = record {
  token_hash = 5 ∷ [];
  user_id = b'b' ∷ [];
  created_at = at 40;
  last_seen_at = at 40;
  expires_at = at 100;
  revoked_at = at 0;
}

opened : new_session platform (5 ∷ []) (b'b' ∷ []) (at 40) (pos 60) ≡ ok session
unfolding new_session canonical_uuid text_eq
opened = refl

is_valid_at-new_session_example :
    (is_valid_at session (at 69) (pos 30) true ≡ true)
    ↔ ((true ≡ true) × (40 ≤ 69) × (69 < shift 40 (pos 60)) × (69 < 40 + 30))
is_valid_at-new_session_example =
    is_valid_at-new_session platform (5 ∷ []) (b'b' ∷ []) (at 40) (at 69) (pos 60) 30 true session
      opened (omega arith)

abbrev enrollment : PasswordEnrollment
enrollment = record {
  user_id = b'b' ∷ [];
  token_hash = 6 ∷ [];
  created_at = at 40;
  expires_at = at 100;
}

enrolled : new_password_enrollment platform (b'b' ∷ []) (6 ∷ []) (at 40) (pos 60) ≡ ok enrollment
unfolding new_password_enrollment canonical_uuid text_eq
enrolled = refl

abbrev credential : PasswordCredential
credential = record {
  user_id = b'b' ∷ [];
  password_hash = codes "$argon2id$a";
  created_at = at 40;
  updated_at = at 40;
}

abbrev changed : PasswordCredential
changed = record credential { password_hash = codes "$argon2id$b"; updated_at = at 70 }

password_changed : with_password_hash credential (codes "$argon2id$b") (at 70) ≡ ok changed
unfolding with_password_hash has_prefix
password_changed = refl

parse_content_range-rfc_range_example :
    parse_content_range ((codes "bytes=" ++ codes "10" ++ b'-' ∷ codes "19") ∷ []) 1000 ≡ (
      if fits_int64 (some 10) && fits_int64 (some 19)
      then rfc_range (some 10) (some 19) 1000
      else invalid)
unfolding is_digit decimal
parse_content_range-rfc_range_example =
    parse_content_range-rfc_range (codes "10") (codes "19") 1000 refl refl (omega arith)
      (omega arith)

parse_content_range-IsServable_example :
    IsServable 1000 (parse_content_range (codes "Bytes=-300" ∷ []) 1000)
parse_content_range-IsServable_example =
    parse_content_range-IsServable (codes "Bytes=-300" ∷ []) 1000
