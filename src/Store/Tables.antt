-- ===== src/Store/Tables.antt =====
-- The tables of internal/storage/sqlite/migrations, one list for each, and what a call can touch.
use go_mediaarchive.Base.{ℕ, Bool, Option, List}
use go_mediaarchive.Go.Text.{Text}
use go_mediaarchive.Go.Time.{Time}
use go_mediaarchive.Identity.User.{User}
use go_mediaarchive.Credential.{PasswordCredential, PasswordEnrollment}
use go_mediaarchive.Media.Grant.{MediaType, Grant}
use go_mediaarchive.Content.{Location}
use go_mediaarchive.Audit.{Event}

-- A row of `sessions`; `revoked_at` is NULL in a session that is not revoked.
pub record SessionRow : Type 0 where
  pub token_hash : Text
  pub user_id : Text
  pub created_at : Time
  pub last_seen_at : Time
  pub expires_at : Time
  pub revoked_at : Option Time

-- A row of `media_items`, and one of `media_authors`.
pub record ItemRow : Type 0 where
  pub id : Text
  pub title : Text
  pub original_filename : Text
  pub type : MediaType
  pub mime_type : Text
  pub size : ℕ
  pub checksum : List ℕ
  pub owner_id : Text
  pub created_at : Time
  pub updated_at : Time

pub record AuthorRow : Type 0 where
  pub media_id : Text
  pub position : ℕ
  pub name : Text

pub record Database : Type 0 where
  pub users : List User
  pub credentials : List PasswordCredential
  pub enrollments : List PasswordEnrollment
  pub sessions : List SessionRow
  pub items : List ItemRow
  pub authors : List AuthorRow
  pub contents : List Location
  pub grants : List Grant
  pub events : List Event

-- The database, the driver's failures to come, the identifiers that the generator of audit events
-- will return, the variable that the event factory of a user's deletion assigns, and the keys under which the
-- content store holds a file.
pub record World : Type 0 where
  pub db : Database
  pub faults : List Bool
  pub event_ids : List Text
  pub selected : Option User
  pub files : List Text
