-- ===== src/Services/Grants.antt =====
-- internal/application/media/grants.go: who else may use an item.
pub mod Changes
pub mod Revocation
use go_mediaarchive.Base.{
  ℕ, Bool, true, false, not, Option, none, some, List, [], ◌∷◌, ◌++◌, if◌then◌else◌,
}
use go_mediaarchive.Go.Text.{Text, text_eq, codes}
use go_mediaarchive.Go.Time.{Time}
use go_mediaarchive.Go.Failure.{
  Result, ok, err, Error, is, media_not_found, owner_grant, inactive_grantee, user_not_found,
  grant_not_found, invalid_user_id,
}
use go_mediaarchive.Go.Action.{Action, pure, fail, lift, catch, ◌>>=◌, ◌>>◌}
use go_mediaarchive.Identity.Username.{Platform, canonical_uuid}
use go_mediaarchive.Identity.User.{User}
use go_mediaarchive.Media.Permission.{share}
use go_mediaarchive.Media.Grant.{Item, Grant, new_grant}
use go_mediaarchive.Audit.Kinds.{EventType, Outcome, TargetType, Reason}
use go_mediaarchive.Audit.{Event}
use go_mediaarchive.Store.Tables.{World}
use go_mediaarchive.Store.Users.{find_user_by_id}
use go_mediaarchive.Store.Grants.{find_grant, list_grants, save_grant, delete_grant}
use go_mediaarchive.Services.Events.{new_actor_event, append_and_fail}
use go_mediaarchive.Services.Media.{authorize_item}

-- `grantTargetID`
abbrev pub grant_target_id : Text → Text → Text
grant_target_id media_id user_id = media_id ++ b':' ∷ user_id

-- `newGrantEvent`
unfoldable pub new_grant_event :
    Platform → User → EventType → Text → Outcome → Reason → Time → Action World Event
new_grant_event g actor type target_id outcome reason now =
    new_actor_event g actor type outcome TargetType.grant_target target_id [] reason now

-- `recordGrantEvent`; every call of it records a denial.
unfoldable pub record_grant_event :
    {A : Type 0} → Platform → User → EventType → Text → Reason → Time → Error → Action World A
record_grant_event g actor type target_id reason now operation_err =
    append_and_fail g (new_grant_event g actor type target_id Outcome.denied reason now)
      operation_err

-- `sharedItem`
unfoldable pub shared_item : Platform → User → Text → Action World Item
shared_item g actor media_id = authorize_item g actor media_id share

-- A denial is recorded if the error is the one that the caller looks for; any other is returned.
unfoldable pub deny_grant :
    {A : Type 0} → Platform → User → EventType → Text → Time → Bool → Error → Action World A
deny_grant g actor type target_id now false e = fail e
deny_grant g actor type target_id now true e =
    record_grant_event g actor type target_id Reason.unknown_target now e

-- The end of `ReplaceGrant`.
unfoldable pub store_grant : Platform → User → Grant → Time → Action World Grant
store_grant g actor grant now = do
  event ←
      new_grant_event g actor EventType.media_grant_replaced
        (grant_target_id grant.media_id grant.user_id) Outcome.success Reason.no_reason now
  save_grant g grant (some event)
  pure grant

-- `ReplaceGrant` from the grantee on.
unfoldable pub replace_for : Platform → User → Grant → Time → User → Action World Grant
replace_for g actor grant now user =
    if not user.active
    then record_grant_event g actor EventType.media_grant_replaced
        (grant_target_id grant.media_id grant.user_id) Reason.inactive_user now
        (inactive_grantee ∷ [])
    else store_grant g actor grant now

-- `ReplaceGrant` from the validated grant on.
unfoldable pub replace_with : Platform → User → Time → Result Grant → Action World Grant
replace_with g actor now (err e) =
    record_grant_event g actor EventType.media_grant_replaced [] Reason.invalid_input now e
replace_with g actor now (ok grant) =
    catch (find_user_by_id grant.user_id)
      (λ e.
        deny_grant g actor EventType.media_grant_replaced
          (grant_target_id grant.media_id grant.user_id) now (is user_not_found e) e)
      (replace_for g actor grant now)

-- `ReplaceGrant` from the shared item on.
unfoldable pub replace_shared : Platform → User → Text → Text → ℕ → Time → Item → Action World Grant
replace_shared g actor media_id user_id permissions now item =
    if text_eq user_id item.owner_id
    then record_grant_event g actor EventType.media_grant_replaced
        (grant_target_id media_id user_id) Reason.resource_conflict now (owner_grant ∷ [])
    else replace_with g actor now (new_grant g media_id user_id permissions)

-- `ReplaceGrant`
unfoldable pub replace_grant : Platform → User → Text → Text → ℕ → Time → Action World Grant
replace_grant g actor media_id user_id permissions now =
    catch (shared_item g actor media_id)
      (λ e. deny_grant g actor EventType.media_grant_replaced [] now (is media_not_found e) e)
      (replace_shared g actor media_id user_id permissions now)

-- `GrantByUser`
unfoldable pub grant_by_user : Platform → User → Text → Text → Action World Grant
grant_by_user g actor media_id user_id = do
  _ ← shared_item g actor media_id
  find_grant g media_id user_id

-- `GrantsByMedia`
unfoldable pub grants_by_media : Platform → User → Text → Action World (List Grant)
grants_by_media g actor media_id = do _ ← shared_item g actor media_id; list_grants g media_id

-- `RevokeGrant` from the checked arguments on.
unfoldable pub revoke_stored : Platform → User → Text → Text → Time → Action World (Unit {0})
revoke_stored g actor media_id user_id now = do
  event ←
      new_grant_event g actor EventType.media_grant_revoked (grant_target_id media_id user_id)
        Outcome.success Reason.no_reason now
  catch (delete_grant g media_id user_id (some event))
      (λ e.
        deny_grant g actor EventType.media_grant_revoked (grant_target_id media_id user_id) now
          (is grant_not_found e) e)
      (λ _. pure tt)

-- `RevokeGrant` from the shared item on.
unfoldable pub revoke_shared : Platform → User → Text → Text → Time → Item → Action World (Unit {0})
revoke_shared g actor media_id user_id now item =
    if text_eq user_id item.owner_id
    then record_grant_event g actor EventType.media_grant_revoked (grant_target_id media_id user_id)
        Reason.resource_conflict now (owner_grant ∷ [])
    else if not (canonical_uuid g user_id)
    then record_grant_event g actor EventType.media_grant_revoked [] Reason.invalid_input now
        (invalid_user_id ∷ [])
    else revoke_stored g actor media_id user_id now

-- `RevokeGrant`
unfoldable pub revoke_grant : Platform → User → Text → Text → Time → Action World (Unit {0})
revoke_grant g actor media_id user_id now =
    catch (shared_item g actor media_id)
      (λ e. deny_grant g actor EventType.media_grant_revoked [] now (is media_not_found e) e)
      (revoke_shared g actor media_id user_id now)
