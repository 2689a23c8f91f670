-- ===== src/Tests/Uploads.antt =====
-- Uploads to the small library, and deletions from it.
use go_mediaarchive.Base.{◌≡◌, refl, true, false, [], ◌∷◌, any}
use go_mediaarchive.Go.Text.{
  text_eq, codes, trim_space, trim_left, trim_right, is_space, is_control, cut, contains, utf8,
  encode_rune, to_lower, lower_rune,
}
use go_mediaarchive.Go.Failure.{ok, err, invalid_title, driver}
use go_mediaarchive.Go.Action.{◌>>=◌, catch}
use go_mediaarchive.Identity.Username.{
  valid_role, canonical_uuid, normalize_username, username_bytes, is_allowed, is_alphanumeric,
  validate_user_id,
}
use go_mediaarchive.Media.Permission.{has, valid_permission, valid_set}
use go_mediaarchive.Media.Grant.{Item, validate_grant}
use go_mediaarchive.Media.Item.{
  new_item, validate_media_item, normalize_title, normalize_authors, authors_after,
  normalize_original_filename, has_path_syntax, normalize_mime_type, checked_mime_type,
  has_two_parts, valid_media_type, check_timestamps, contains_control,
}
use go_mediaarchive.Media.Policy.{authorize, scan_grants, grant_allows}
use go_mediaarchive.Content.{
  new_location, normalize_storage_key, is_clean, are_clean, segments, has_separator,
}
use go_mediaarchive.Audit.Kinds.{valid_type, valid_outcome, valid_target_type, valid_reason}
use go_mediaarchive.Audit.{
  new_event, validate_actor, validate_target, valid_snapshot, contains_unsafe_text,
}
use go_mediaarchive.Store.Tables.{World}
use go_mediaarchive.Store.Statements.{
  statement, query, exec, store_result, commit, finish, transaction,
}
use go_mediaarchive.Store.Statements.Success.{Succeeds}
use go_mediaarchive.Store.Events.{add_event, insert_audit_event, insert_optional_event}
use go_mediaarchive.Store.Contents.{add_content, find_location, remove_matching_content}
use go_mediaarchive.Store.Items.Rows.{
  add_item, add_author, author_names, by_position, place, drop_item_grants, drop_item_authors,
  remove_item, item_is_referenced,
}
use go_mediaarchive.Store.Items.{
  insert_item, insert_authors, store_managed, create_managed, delete_managed, read_item, find_item,
}
use go_mediaarchive.Services.Events.{next_event_id, new_actor_event, append_and_fail}
use go_mediaarchive.Services.Media.{
  authorize_item, authorize_found, deciding_grants, no_grant, mask, may_create_media,
  new_deletion_event, record_deletion_event, deny_media_deletion, authorize_deletion,
}
use go_mediaarchive.Services.Upload.{
  StoredContent, UploadInput, new_upload_event, record_upload_event, compensate, deny_upload,
  refuse_metadata, persist_upload, store_upload, uploaded, describe_upload, upload_item,
}
use go_mediaarchive.Services.Upload.Failures.{Undone, upload_item-Undone}
use go_mediaarchive.Services.Upload.Success.{Persisted, upload_item-Succeeds}
use go_mediaarchive.Services.Deletion.{
  record_failure, restore, finish_deletion, delete_staged, delete_content, without_content,
  delete_authorized, delete_managed_item,
}
use go_mediaarchive.Services.Deletion.Failures.{Left}
use go_mediaarchive.Services.Deletion.Results.{delete_managed_item-Left}
use go_mediaarchive.Tests.Fixtures.{at, ann}
use go_mediaarchive.Tests.Library.{
  library, library-IsMimeParser, document, simple_store, simple_store-IsContentStore,
  simple_store-IsDeletionStore, without_items, with_document,
}

abbrev input : UploadInput
input = record {
  title = codes "T";
  authors = codes "Zoe" ∷ [];
  original_filename = document.original_filename;
  type = document.type;
  mime_type = document.mime_type;
  source = codes "bytes";
}

abbrev published : Item
published = record document { authors = codes "Zoe" ∷ []; created_at = at 50; updated_at = at 50 }

abbrev after_upload : World
after_upload =
    (upload_item simple_store library 100 ann (b'd' ∷ []) input (at 50) (at 51) without_items).1

upload_ok :
    Succeeds
      (upload_item simple_store library 100 ann (b'd' ∷ []) input (at 50) (at 51))
      without_items
      published
      after_upload
unfolding upload_item describe_upload refuse_metadata deny_upload store_upload persist_upload
    compensate record_upload_event new_upload_event may_create_media create_managed store_managed
    add_content insert_item insert_authors add_item add_author validate_media_item new_location
    normalize_storage_key is_clean are_clean segments has_separator new_item normalize_title
    normalize_authors authors_after normalize_original_filename has_path_syntax normalize_mime_type
    checked_mime_type has_two_parts valid_media_type check_timestamps contains_control is_control
    trim_space trim_left trim_right is_space cut contains canonical_uuid validate_user_id text_eq
    ◌>>=◌ catch transaction finish commit statement query exec store_result next_event_id
    new_actor_event append_and_fail new_event validate_actor validate_target valid_snapshot
    contains_unsafe_text valid_type valid_outcome valid_target_type valid_reason valid_role
    add_event insert_audit_event insert_optional_event normalize_username username_bytes is_allowed
    is_alphanumeric utf8 encode_rune to_lower lower_rune
upload_ok = refl

upload_item-Succeeds_example :
    (may_create_media ann ≡ true)
    × ((stored : StoredContent) × ((simple_store.put (b'd' ∷ []) input.source 100 without_items).0
          ≡ ok stored)
        × (new_item library (uploaded ann (b'd' ∷ []) input (at 50) stored) ≡ ok published)
        × Persisted library published stored.storage_key (at 50) without_items.db after_upload.db
        × (any (λ k. text_eq k stored.storage_key) without_items.files ≡ false)
        × (after_upload.files ≡ stored.storage_key ∷ without_items.files))
upload_item-Succeeds_example =
    upload_item-Succeeds simple_store simple_store-IsContentStore library library-IsMimeParser 100
      ann (b'd' ∷ []) input (at 50) (at 51) without_items published after_upload upload_ok

-- An upload without a title: its file is removed.
abbrev untitled : UploadInput
untitled = record input { title = [] }

abbrev after_refusal : World
after_refusal =
    (upload_item simple_store library 100 ann (b'd' ∷ []) untitled (at 50) (at 51) without_items).1

upload_refused :
    upload_item simple_store library 100 ann (b'd' ∷ []) untitled (at 50) (at 51) without_items
    ≡ (err (invalid_title ∷ []), after_refusal)
unfolding upload_item describe_upload refuse_metadata deny_upload store_upload persist_upload
    compensate record_upload_event new_upload_event may_create_media create_managed store_managed
    add_content insert_item insert_authors add_item add_author validate_media_item new_location
    normalize_storage_key is_clean are_clean segments has_separator new_item normalize_title
    normalize_authors authors_after normalize_original_filename has_path_syntax normalize_mime_type
    checked_mime_type has_two_parts valid_media_type check_timestamps contains_control is_control
    trim_space trim_left trim_right is_space cut contains canonical_uuid validate_user_id text_eq
    ◌>>=◌ catch transaction finish commit statement query exec store_result next_event_id
    new_actor_event append_and_fail new_event validate_actor validate_target valid_snapshot
    contains_unsafe_text valid_type valid_outcome valid_target_type valid_reason valid_role
    add_event insert_audit_event insert_optional_event normalize_username username_bytes is_allowed
    is_alphanumeric utf8 encode_rune to_lower lower_rune
upload_refused = refl

upload_item-Undone_example : Undone simple_store without_items after_refusal
upload_item-Undone_example =
    upload_item-Undone simple_store simple_store-IsContentStore library 100 ann (b'd' ∷ []) untitled
      (at 50) (at 51) without_items (invalid_title ∷ []) after_refusal upload_refused

abbrev after_deletion : World
after_deletion =
    (delete_managed_item simple_store library ann (b'd' ∷ []) (at 50) (at 51) with_document).1

-- The driver fails at the first statement of the deletion's transaction: the file is shown again.
abbrev failing : World
failing = record with_document {
  faults = false ∷ false ∷ false ∷ false ∷ false ∷ false ∷ true ∷ [];
}

abbrev after_failure : World
after_failure = (delete_managed_item simple_store library ann (b'd' ∷ []) (at 50) (at 51) failing).1

deletion_failed :
    delete_managed_item simple_store library ann (b'd' ∷ []) (at 50) (at 51) failing
    ≡ (err (driver ∷ []), after_failure)
unfolding delete_managed_item delete_authorized delete_content delete_staged finish_deletion restore
    record_failure without_content authorize_deletion deny_media_deletion new_deletion_event
    record_deletion_event delete_managed remove_matching_content drop_item_grants drop_item_authors
    remove_item item_is_referenced find_location new_location normalize_storage_key is_clean
    are_clean segments has_separator authorize_item authorize_found deciding_grants no_grant mask
    authorize scan_grants grant_allows valid_permission has valid_set validate_grant find_item
    read_item author_names by_position place new_item normalize_title normalize_authors
    authors_after normalize_original_filename has_path_syntax normalize_mime_type checked_mime_type
    has_two_parts valid_media_type check_timestamps contains_control is_control trim_space trim_left
    trim_right is_space cut contains canonical_uuid validate_user_id text_eq ◌>>=◌ catch transaction
    finish commit statement query exec store_result next_event_id new_actor_event append_and_fail
    new_event validate_actor validate_target valid_snapshot contains_unsafe_text valid_type
    valid_outcome valid_target_type valid_reason valid_role add_event insert_audit_event
    insert_optional_event normalize_username username_bytes is_allowed is_alphanumeric utf8
    encode_rune to_lower lower_rune
deletion_failed = refl

delete_managed_item-Left_example : Left simple_store (b'd' ∷ []) failing after_failure
delete_managed_item-Left_example =
    delete_managed_item-Left simple_store simple_store-IsDeletionStore library ann (b'd' ∷ [])
      (at 50) (at 51) failing (driver ∷ []) after_failure deletion_failed
