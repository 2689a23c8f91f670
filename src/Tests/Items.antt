-- ===== src/Tests/Items.antt =====
-- Items and grants of the small library.
use go_mediaarchive.Base.{◌≡◌, refl, inl, inr, true, false, none, some, [], ◌∷◌, find}
use go_mediaarchive.Go.Text.{
  text_eq, trim_space, trim_left, trim_right, is_space, is_control, cut, contains, utf8,
  encode_rune, to_lower, lower_rune,
}
use go_mediaarchive.Go.Failure.{ok, err, media_not_found}
use go_mediaarchive.Go.Action.{◌>>=◌, catch}
use go_mediaarchive.Identity.Username.{
  valid_role, canonical_uuid, normalize_username, username_bytes, is_allowed, is_alphanumeric,
  validate_user_id,
}
use go_mediaarchive.Media.Permission.{discover, share, has, valid_permission, valid_set}
use go_mediaarchive.Media.Grant.{Item, Grant, validate_grant, new_grant}
use go_mediaarchive.Media.Item.{
  new_item, validate_media_item, normalize_title, normalize_authors, authors_after,
  normalize_original_filename, has_path_syntax, normalize_mime_type, checked_mime_type,
  has_two_parts, valid_media_type, check_timestamps, contains_control,
}
use go_mediaarchive.Media.Item.Laws.{new_item_idem}
use go_mediaarchive.Media.Policy.{authorize, scan_grants, grant_allows}
use go_mediaarchive.Audit.Kinds.{valid_type, valid_outcome, valid_target_type, valid_reason}
use go_mediaarchive.Audit.{
  new_event, validate_actor, validate_target, valid_snapshot, contains_unsafe_text,
}
use go_mediaarchive.Store.Tables.{World}
use go_mediaarchive.Store.Statements.{
  statement, query, exec, store_result, commit, finish, transaction,
}
use go_mediaarchive.Store.Statements.Success.{Succeeds}
use go_mediaarchive.Store.Events.{add_event, insert_audit_event, insert_optional_event}
use go_mediaarchive.Store.Users.{find_user_by_id}
use go_mediaarchive.Store.Items.Rows.{
  add_item, change_item, drop_item_authors, add_author, author_names, by_position, place,
  item_row_of,
}
use go_mediaarchive.Store.Items.{
  insert_item, insert_authors, create_item, update_item, read_item, find_item,
}
use go_mediaarchive.Store.Items.Reading.{Stored}
use go_mediaarchive.Store.Items.Updates.{others, find_item-update_item}
use go_mediaarchive.Store.Items.Creation.{find_item-create_item}
use go_mediaarchive.Store.Grants.{
  find_grant, is_grant_of, validate_stored_grant, put_grant, save_grant, remove_grant, delete_grant,
}
use go_mediaarchive.Services.Events.{next_event_id, new_actor_event}
use go_mediaarchive.Services.Media.{
  authorize_item, authorize_found, deciding_grants, no_grant, mask,
}
use go_mediaarchive.Services.Media.Access.{MayUse, authorize_item-Succeeds}
use go_mediaarchive.Services.Media.Masking.{authorize_item-masked}
use go_mediaarchive.Services.Grants.{
  new_grant_event, shared_item, store_grant, replace_for, replace_with, replace_shared,
  replace_grant, revoke_stored, revoke_shared, revoke_grant,
}
use go_mediaarchive.Services.Grants.Changes.{Replaced, replace_grant-Succeeds}
use go_mediaarchive.Services.Grants.Revocation.{Revoked, revoke_grant-Succeeds}
use go_mediaarchive.Tests.Fixtures.{at, ann, bob, cleo}
use go_mediaarchive.Tests.Library.{
  library, library-IsMimeParser, document, raw_document, without_items, with_document,
}

document_ok : new_item library raw_document ≡ ok document
unfolding new_item normalize_title normalize_authors authors_after normalize_original_filename
    has_path_syntax normalize_mime_type checked_mime_type has_two_parts valid_media_type
    check_timestamps contains_control is_control trim_space trim_left trim_right is_space cut
    contains canonical_uuid text_eq
document_ok = refl

new_item_idem_example : validate_media_item library document ≡ ok document
new_item_idem_example = new_item_idem library raw_document document library-IsMimeParser document_ok

abbrev created : World
created = (create_item library document without_items).1

create_ok : Succeeds (create_item library document) without_items tt created
unfolding create_item insert_item insert_authors add_item add_author validate_media_item new_item
    normalize_title normalize_authors authors_after normalize_original_filename has_path_syntax
    normalize_mime_type checked_mime_type has_two_parts valid_media_type check_timestamps
    contains_control is_control trim_space trim_left trim_right is_space cut contains canonical_uuid
    text_eq ◌>>=◌ transaction finish commit statement exec store_result
create_ok = refl

created_calm : created.faults ≡ []
unfolding create_item insert_item insert_authors add_item add_author validate_media_item new_item
    normalize_title normalize_authors authors_after normalize_original_filename has_path_syntax
    normalize_mime_type checked_mime_type has_two_parts valid_media_type check_timestamps
    contains_control is_control trim_space trim_left trim_right is_space cut contains canonical_uuid
    text_eq ◌>>=◌ transaction finish commit statement exec store_result
created_calm = refl

find_item-create_item_example :
    (i : Item) × (validate_media_item library document ≡ ok i)
    × (find_item library document.id created ≡ (ok i, created))
find_item-create_item_example =
    find_item-create_item library library-IsMimeParser document without_items created refl create_ok
      created_calm

document-Stored : Stored library (b'd' ∷ []) with_document.db document
unfolding new_item normalize_title normalize_authors authors_after normalize_original_filename
    has_path_syntax normalize_mime_type checked_mime_type has_two_parts valid_media_type
    check_timestamps contains_control is_control trim_space trim_left trim_right is_space cut
    contains canonical_uuid text_eq author_names by_position place
document-Stored = record { row = item_row_of document; found = refl; valid = refl }

-- Bob's grant lets him discover the document.
discover_ok :
    Succeeds (authorize_item library bob (b'd' ∷ []) discover) with_document document with_document
unfolding authorize_item authorize_found deciding_grants no_grant mask authorize scan_grants
    grant_allows valid_permission has valid_set validate_grant new_grant validate_stored_grant
    find_grant find_item read_item author_names by_position place new_item normalize_title
    normalize_authors authors_after normalize_original_filename has_path_syntax normalize_mime_type
    checked_mime_type has_two_parts valid_media_type check_timestamps contains_control is_control
    trim_space trim_left trim_right is_space cut contains canonical_uuid validate_user_id text_eq
    ◌>>=◌ catch transaction finish commit statement query
discover_ok = refl

authorize_item-Succeeds_example :
    Stored library (b'd' ∷ []) with_document.db document
    × (bob.active ≡ true)
    × MayUse bob document discover with_document.db
    × (with_document.db ≡ with_document.db)
authorize_item-Succeeds_example =
    authorize_item-Succeeds library bob (b'd' ∷ []) discover with_document document with_document
      discover_ok

valid_discover : valid_permission discover ≡ true
unfolding valid_permission
valid_discover = refl

known_cleo : canonical_uuid library cleo.id ≡ true
unfolding canonical_uuid text_eq
known_cleo = refl

not_hers : text_eq cleo.id document.owner_id ≡ false
unfolding text_eq
not_hers = refl

not_shared : find (is_grant_of document.id cleo.id) with_document.db.grants ≡ none
unfolding text_eq
not_shared = refl

authorize_item-masked_example :
    authorize_item library cleo (b'd' ∷ []) discover with_document
    ≡ (err (media_not_found ∷ []), with_document)
authorize_item-masked_example =
    authorize_item-masked library cleo (b'd' ∷ []) discover with_document refl valid_discover
      known_cleo (inr (document, document-Stored, not_hers, inl not_shared))

-- Ann, the owner, lets Bob discover and read.
abbrev bobs : Grant
bobs = record { media_id = b'd' ∷ []; user_id = b'b' ∷ []; permissions = 3 }

abbrev shared : World
shared = (replace_grant library ann (b'd' ∷ []) (b'b' ∷ []) 3 (at 50) with_document).1

share_ok :
    Succeeds (replace_grant library ann (b'd' ∷ []) (b'b' ∷ []) 3 (at 50)) with_document bobs shared
unfolding replace_grant replace_shared replace_with replace_for store_grant shared_item
    new_grant_event put_grant save_grant find_user_by_id authorize_item authorize_found
    deciding_grants no_grant mask authorize scan_grants grant_allows valid_permission has valid_set
    validate_grant new_grant validate_stored_grant find_grant find_item read_item author_names
    by_position place new_item normalize_title normalize_authors authors_after
    normalize_original_filename has_path_syntax normalize_mime_type checked_mime_type has_two_parts
    valid_media_type check_timestamps contains_control is_control trim_space trim_left trim_right
    is_space cut contains canonical_uuid validate_user_id text_eq ◌>>=◌ catch transaction finish
    commit statement query exec store_result next_event_id new_actor_event new_event validate_actor
    validate_target valid_snapshot contains_unsafe_text valid_type valid_outcome valid_target_type
    valid_reason valid_role add_event insert_audit_event insert_optional_event normalize_username
    username_bytes is_allowed is_alphanumeric utf8 encode_rune to_lower lower_rune
share_ok = refl

replace_grant-Succeeds_example :
    (item : Item) × Stored library (b'd' ∷ []) with_document.db item
    × (ann.active ≡ true)
    × MayUse ann item share with_document.db
    × (text_eq (b'b' ∷ []) item.owner_id ≡ false)
    × (new_grant library (b'd' ∷ []) (b'b' ∷ []) 3 ≡ ok bobs)
    × Replaced library bobs with_document.db shared.db
replace_grant-Succeeds_example =
    replace_grant-Succeeds library ann (b'd' ∷ []) (b'b' ∷ []) 3 (at 50) with_document bobs shared
      share_ok

abbrev withdrawn : World
withdrawn = (revoke_grant library ann (b'd' ∷ []) (b'b' ∷ []) (at 50) with_document).1

revoke_ok :
    Succeeds (revoke_grant library ann (b'd' ∷ []) (b'b' ∷ []) (at 50)) with_document tt withdrawn
unfolding revoke_grant revoke_shared revoke_stored shared_item new_grant_event remove_grant
    delete_grant authorize_item authorize_found deciding_grants no_grant mask authorize scan_grants
    grant_allows valid_permission has valid_set validate_grant new_grant validate_stored_grant
    find_grant find_item read_item author_names by_position place new_item normalize_title
    normalize_authors authors_after normalize_original_filename has_path_syntax normalize_mime_type
    checked_mime_type has_two_parts valid_media_type check_timestamps contains_control is_control
    trim_space trim_left trim_right is_space cut contains canonical_uuid validate_user_id text_eq
    ◌>>=◌ catch transaction finish commit statement query exec store_result next_event_id
    new_actor_event new_event validate_actor validate_target valid_snapshot contains_unsafe_text
    valid_type valid_outcome valid_target_type valid_reason valid_role add_event insert_audit_event
    insert_optional_event normalize_username username_bytes is_allowed is_alphanumeric utf8
    encode_rune to_lower lower_rune
revoke_ok = refl

revoke_grant-Succeeds_example :
    (item : Item) × Stored library (b'd' ∷ []) with_document.db item
    × (ann.active ≡ true)
    × MayUse ann item share with_document.db
    × (text_eq (b'b' ∷ []) item.owner_id ≡ false)
    × (canonical_uuid library (b'b' ∷ []) ≡ true)
    × Revoked library (b'd' ∷ []) (b'b' ∷ []) with_document.db withdrawn.db
revoke_grant-Succeeds_example =
    revoke_grant-Succeeds library ann (b'd' ∷ []) (b'b' ∷ []) (at 50) with_document withdrawn
      revoke_ok

-- The document with another title and another author.
abbrev revised : Item
revised = record document { title = b'z' ∷ []; authors = (b'y' ∷ []) ∷ [] }

revised_ok : validate_media_item library revised ≡ ok revised
unfolding validate_media_item new_item normalize_title normalize_authors authors_after
    normalize_original_filename has_path_syntax normalize_mime_type checked_mime_type has_two_parts
    valid_media_type check_timestamps contains_control is_control trim_space trim_left trim_right
    is_space cut contains canonical_uuid text_eq
revised_ok = refl

abbrev revision : World
revision = (update_item library revised with_document).1

update_ok : Succeeds (update_item library revised) with_document tt revision
unfolding update_item change_item drop_item_authors insert_authors add_author validate_media_item
    new_item normalize_title normalize_authors authors_after normalize_original_filename
    has_path_syntax normalize_mime_type checked_mime_type has_two_parts valid_media_type
    check_timestamps contains_control is_control trim_space trim_left trim_right is_space cut
    contains canonical_uuid text_eq ◌>>=◌ transaction finish commit statement exec store_result
update_ok = refl

revision_calm : revision.faults ≡ []
unfolding update_item change_item drop_item_authors insert_authors add_author validate_media_item
    new_item normalize_title normalize_authors authors_after normalize_original_filename
    has_path_syntax normalize_mime_type checked_mime_type has_two_parts valid_media_type
    check_timestamps contains_control is_control trim_space trim_left trim_right is_space cut
    contains canonical_uuid text_eq ◌>>=◌ transaction finish commit statement exec store_result
revision_calm = refl

stored_before :
    find (λ r. text_eq r.id revised.id) with_document.db.items ≡ some (item_row_of document)
unfolding text_eq
stored_before = refl

find_item-update_item_example :
    (find_item library revised.id revision ≡ (ok revised, revision))
    × (others revised.id revision.db ≡ others revised.id with_document.db)
find_item-update_item_example =
    find_item-update_item library library-IsMimeParser revised revised (item_row_of document)
      with_document revision revised_ok stored_before refl refl update_ok revision_calm
