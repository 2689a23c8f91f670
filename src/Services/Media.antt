-- ===== src/Services/Media.antt =====
-- internal/application/media/service.go: media metadata for those who may see and change it.
pub mod Access
pub mod Files
pub mod Masking
use go_mediaarchive.Base.{
  ℕ, Bool, true, false, not, ◌&&◌, ◌||◌, Option, none, some, List, [], ◌∷◌, if◌then◌else◌,
}
use go_mediaarchive.Go.Text.{Text, text_eq}
use go_mediaarchive.Go.Time.{Time}
use go_mediaarchive.Go.Failure.{
  Result, ok, err, Error, is, item_not_found, grant_not_found, media_not_found, creation_forbidden,
}
use go_mediaarchive.Go.Action.{Action, pure, fail, lift, catch, ◌>>=◌, ◌>>◌}
use go_mediaarchive.Identity.Username.{Platform, Role, viewer, editor, admin, other}
use go_mediaarchive.Identity.User.{User}
use go_mediaarchive.Media.Permission.{discover, update, delete}
use go_mediaarchive.Media.Grant.{Item, Grant, MediaType}
use go_mediaarchive.Media.Item.{RawItem, new_item}
use go_mediaarchive.Media.Policy.{authorize}
use go_mediaarchive.Audit.Kinds.{EventType, Outcome, TargetType, Reason}
use go_mediaarchive.Audit.{Event}
use go_mediaarchive.Store.Tables.{World}
use go_mediaarchive.Store.Items.{create_item, find_item, update_item, delete_item}
use go_mediaarchive.Store.Grants.{find_grant}
use go_mediaarchive.Services.Events.{new_actor_event, append_and_fail}

-- An error that means that something is not there is masked; any other is returned.
unfoldable pub mask : {A : Type 0} → Bool → Error → Action World A
mask true e = fail (media_not_found ∷ [])
mask false e = fail e

-- A missing grant is no grant; any other error is returned.
unfoldable pub no_grant : Bool → Error → Action World (List Grant)
no_grant true e = pure []
no_grant false e = fail e

-- The grants that `authorizeItem` hands to the policy.
unfoldable pub deciding_grants : Platform → User → Item → Action World (List Grant)
unfolding no_grant
deciding_grants g actor item =
    if text_eq actor.id item.owner_id
    then pure []
    else catch (find_grant g item.id actor.id) (λ e. no_grant (is grant_not_found e) e)
        (λ grant. pure (grant ∷ []))

-- `authorizeItem` from the item that it found.
unfoldable pub authorize_found : Platform → User → ℕ → Item → Action World Item
authorize_found g actor permission item = do
  grants ← deciding_grants g actor item
  allowed ← lift (authorize g actor item permission grants)
  if allowed then pure item else fail (media_not_found ∷ [])

-- `authorizeItem`
unfoldable pub authorize_item : Platform → User → Text → ℕ → Action World Item
authorize_item g actor id permission =
    catch (find_item g id) (λ e. mask (is item_not_found e) e) (authorize_found g actor permission)

-- `mayCreateMedia`
unfoldable pub may_create_media : User → Bool
may_create_media actor =
    actor.active && (elim actor.role [ editor ↦ true | admin ↦ true | _ ↦ false ])

-- `CreateItem`, with a generated ID. The input's ID, owner and timestamps are not read.
unfoldable pub create_item_service : Platform → User → Text → RawItem → Time → Action World Item
create_item_service g actor id input now =
    if not (may_create_media actor) then fail (creation_forbidden ∷ []) else do
      item ← lift (
          new_item g
            (record input { id = id; owner_id = actor.id; created_at = now; updated_at = now }))
      create_item g item
      pure item

-- `ItemByID`
unfoldable pub item_by_id : Platform → User → Text → Action World Item
item_by_id g actor id = authorize_item g actor id discover

-- `UpdateItem` from the authorized item on.
unfoldable pub update_authorized : Platform → RawItem → Time → Item → Action World Item
update_authorized g input now existing = do
  updated ← lift (
      new_item g (record input {
        id = existing.id;
        owner_id = existing.owner_id;
        created_at = existing.created_at;
        updated_at = now;
      }))
  catch (update_item g updated) (λ e. mask (is item_not_found e) e) (λ _. pure updated)

-- `UpdateItem`
unfoldable pub update_item_service : Platform → User → Text → RawItem → Time → Action World Item
update_item_service g actor id input now = do
  existing ← authorize_item g actor id update
  update_authorized g input now existing

-- `newDeletionEvent`, of the ID and the title of the item
unfoldable pub new_deletion_event :
    Platform → User → Text → Text → Outcome → Reason → Time → Action World Event
new_deletion_event g actor id title outcome reason now =
    new_actor_event g actor EventType.media_deleted outcome TargetType.media_target id title reason
      now

-- `recordDeletionEvent`
unfoldable pub record_deletion_event :
    {A : Type 0} → Platform → User → Text → Text → Outcome → Reason → Time → Error → Action World A
record_deletion_event g actor id title outcome reason now operation_err =
    append_and_fail g (new_deletion_event g actor id title outcome reason now) operation_err

-- What `authorizeDeletion` does with an error.
unfoldable pub deny_media_deletion : Platform → User → Time → Bool → Error → Action World Item
deny_media_deletion g actor now false e = fail e
deny_media_deletion g actor now true e =
    record_deletion_event g actor [] [] Outcome.denied Reason.unknown_target now e

-- `authorizeDeletion`
unfoldable pub authorize_deletion : Platform → User → Text → Time → Action World Item
authorize_deletion g actor id now =
    catch (authorize_item g actor id delete)
      (λ e. deny_media_deletion g actor now (is media_not_found e) e) pure

-- The deletion of an authorized item that has no managed content: the end of `DeleteItem`, and
-- `deleteAuthorizedMetadata`.
unfoldable pub delete_metadata : Platform → User → Item → Time → Action World (Unit {0})
delete_metadata g actor item now = do
  event ← new_deletion_event g actor item.id item.title Outcome.success Reason.no_reason now
  catch (delete_item g item.id (some event)) (λ e. mask (is item_not_found e) e) (λ _. pure tt)

-- `Service.DeleteItem`; it deletes by the ID that it was asked for, which is the ID of the item.
unfoldable pub delete_item_service : Platform → User → Text → Time → Action World (Unit {0})
delete_item_service g actor id now = do
  item ← authorize_deletion g actor id now
  event ← new_deletion_event g actor item.id item.title Outcome.success Reason.no_reason now
  catch (delete_item g id (some event)) (λ e. mask (is item_not_found e) e) (λ _. pure tt)
