-- ===== src/Services/Deletion.antt =====
-- internal/application/media/managed_deletion.go: an item and its file are deleted together. The file is
-- hidden first, then the records go, and then the file; where the records stay, it is shown again.
pub mod Failures
pub mod Outcomes
pub mod Results
pub mod Success
pub mod Removal
use go_mediaarchive.Base.{Bool, true, false, some, List, [], ◌∷◌, ◌++◌}
use go_mediaarchive.Go.Text.{Text}
use go_mediaarchive.Go.Time.{Time}
use go_mediaarchive.Go.Failure.{Result, ok, err, Error, is, location_not_found}
use go_mediaarchive.Go.Action.{Action, pure, fail, catch, ◌>>=◌}
use go_mediaarchive.Identity.Username.{Platform}
use go_mediaarchive.Identity.User.{User}
use go_mediaarchive.Media.Grant.{Item}
use go_mediaarchive.Content.{Location}
use go_mediaarchive.Audit.Kinds.{Outcome, Reason}
use go_mediaarchive.Audit.{Event}
use go_mediaarchive.Store.Tables.{World}
use go_mediaarchive.Store.Items.{delete_managed}
use go_mediaarchive.Store.Contents.{find_location}
use go_mediaarchive.Services.Media.{
  new_deletion_event, record_deletion_event, authorize_deletion, delete_metadata,
}
use go_mediaarchive.Services.Upload.{ContentStore}

-- The event of a step of the store that failed, and the error of the operation.
unfoldable pub record_failure : Platform → User → Item → Time → Error → Action World (Unit {0})
record_failure g actor item at e =
    record_deletion_event g actor item.id item.title Outcome.failure Reason.operation_failure at e

-- The records could not be deleted: `staged.Rollback`.
unfoldable pub restore :
    ContentStore → Platform → User → Item → Text → Time → Error → Action World (Unit {0})
restore s g actor item key later e =
    catch (s.rollback_delete key) (λ x. record_failure g actor item later (e ++ x)) (λ _. fail e)

-- The records are deleted: `staged.Commit`.
unfoldable pub finish_deletion :
    ContentStore → Platform → User → Item → Text → Time → Action World (Unit {0})
finish_deletion s g actor item key later =
    catch (s.commit_delete key) (λ e. record_failure g actor item later e) (λ _. pure tt)

-- From the staged deletion on.
unfoldable pub delete_staged :
    ContentStore → Platform → User → Text → Item → Text → Event → Time → Action World (Unit {0})
delete_staged s g actor id item key event later =
    catch (delete_managed g id key (some event)) (restore s g actor item key later)
      (λ _. finish_deletion s g actor item key later)

-- From the location on.
unfoldable pub delete_content :
    ContentStore → Platform → User → Text → Item → Time → Time → Location → Action World (Unit {0})
delete_content s g actor id item now later location = do
  event ← new_deletion_event g actor item.id item.title Outcome.success Reason.no_reason now
  catch (s.stage_delete location.storage_key) (λ e. record_failure g actor item now e)
      (λ _. delete_staged s g actor id item location.storage_key event later)

-- A missing location means metadata without content; any other error is returned.
unfoldable pub without_content :
    Platform → User → Item → Time → Bool → Error → Action World (Unit {0})
without_content g actor item now true e = delete_metadata g actor item now
without_content g actor item now false e = fail e

-- From the authorized item on.
unfoldable pub delete_authorized :
    ContentStore → Platform → User → Text → Time → Time → Item → Action World (Unit {0})
delete_authorized s g actor id now later item =
    catch (find_location g id) (λ e. without_content g actor item now (is location_not_found e) e)
      (delete_content s g actor id item now later)

-- `ManagedService.DeleteItem`; `later` is its second reading of the clock.
unfoldable pub delete_managed_item :
    ContentStore → Platform → User → Text → Time → Time → Action World (Unit {0})
delete_managed_item s g actor id now later = do
  item ← authorize_deletion g actor id now
  delete_authorized s g actor id now later item
