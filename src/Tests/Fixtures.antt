-- ===== src/Tests/Fixtures.antt =====
-- A platform whose UUIDs are single code points, and a small archive.
use go_mediaarchive.Base.{ℕ, Option, none, some, [], ◌∷◌, true, false}
use go_mediaarchive.Go.Text.{Text, codes}
use go_mediaarchive.Go.Time.{Time}
use go_mediaarchive.Identity.Username.{Platform, viewer, admin}
use go_mediaarchive.Identity.User.{User}
use go_mediaarchive.Credential.{PasswordCredential}
use go_mediaarchive.Media.Grant.{Item, Grant, book}
use go_mediaarchive.Audit.Kinds.{EventType, Outcome, TargetType, Reason}
use go_mediaarchive.Audit.{Event}
use go_mediaarchive.Store.Tables.{ItemRow, Database, World, SessionRow}

abbrev single : Text → Option ℕ
single [] = none
single (c ∷ []) = some c
single (c ∷ d ∷ s) = none

abbrev pub platform : Platform
platform = record {
  parse_uuid = single;
  print_uuid = λ c. c ∷ [];
  lower_case = λ c. c;
  parse_media_type = λ t. some (t, false);
}

abbrev pub at : ℕ → Time
at n = record { instant = n; utc = true }

abbrev pub ann : User
ann = record {
  id = b'a' ∷ [];
  username = codes "ann";
  display_name = codes "Ann";
  role = admin;
  active = true;
  created_at = at 10;
  updated_at = at 10;
}

abbrev pub bob : User
bob = record {
  id = b'b' ∷ [];
  username = codes "bob";
  display_name = codes "Bob";
  role = viewer;
  active = true;
  created_at = at 20;
  updated_at = at 20;
}

abbrev pub cleo : User
cleo = record {
  id = b'c' ∷ [];
  username = codes "cleo";
  display_name = codes "Cleo";
  role = viewer;
  active = true;
  created_at = at 30;
  updated_at = at 30;
}

abbrev pub event : Event
event = record {
  id = 7 ∷ [];
  occurred_at = at 30;
  type = EventType.user_created;
  outcome = Outcome.success;
  actor_id = b'a' ∷ [];
  actor_username = codes "ann";
  actor_role = some admin;
  target_type = TargetType.user_target;
  target_id = b'c' ∷ [];
  target_name = codes "cleo";
  reason = Reason.no_reason;
  range = none;
}

abbrev pub session_of_bob : SessionRow
session_of_bob = record {
  token_hash = 5 ∷ [];
  user_id = b'b' ∷ [];
  created_at = at 40;
  last_seen_at = at 40;
  expires_at = at 100;
  revoked_at = none;
}

abbrev pub item : Item
item = record {
  id = 9 ∷ [];
  title = codes "T";
  authors = [];
  original_filename = codes "t.pdf";
  type = book;
  mime_type = codes "application/pdf";
  size = 5;
  checksum = [];
  owner_id = b'a' ∷ [];
  created_at = at 10;
  updated_at = at 10;
}

abbrev pub item_row : ItemRow
item_row = record {
  id = item.id;
  title = item.title;
  original_filename = item.original_filename;
  type = item.type;
  mime_type = item.mime_type;
  size = item.size;
  checksum = item.checksum;
  owner_id = item.owner_id;
  created_at = item.created_at;
  updated_at = item.updated_at;
}

abbrev pub credential_of_bob : PasswordCredential
credential_of_bob = record {
  user_id = b'b' ∷ [];
  password_hash = codes "secret";
  created_at = at 20;
  updated_at = at 20;
}

-- Bob may discover and read the item.
abbrev pub grant : Grant
grant = record { media_id = 9 ∷ []; user_id = b'b' ∷ []; permissions = 3 }

abbrev pub archive : Database
archive = record {
  users = ann ∷ bob ∷ [];
  credentials = credential_of_bob ∷ [];
  enrollments = [];
  sessions = session_of_bob ∷ [];
  items = item_row ∷ [];
  authors = [];
  contents = [];
  grants = grant ∷ [];
  events = [];
}

abbrev pub world : World
world = record {
  db = archive;
  faults = [];
  event_ids = (8 ∷ []) ∷ (11 ∷ []) ∷ [];
  selected = none;
  files = [];
}
