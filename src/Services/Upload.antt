-- ===== src/Services/Upload.antt =====
-- internal/application/media/upload.go: an upload writes a file, and then its records; where the
-- records fail, the file is removed.
pub mod Compensation
pub mod Failures
pub mod Success
use go_mediaarchive.Base.{ℕ, Bool, true, false, not, List, [], ◌∷◌, ◌++◌, if◌then◌else◌, some}
use go_mediaarchive.Base.Int.{ℤ}
use go_mediaarchive.Go.Text.{Text}
use go_mediaarchive.Go.Time.{Time}
use go_mediaarchive.Go.Failure.{
  Result, ok, err, Error, is, creation_forbidden, upload_compensation_failed,
}
use go_mediaarchive.Go.Action.{Action, pure, fail, lift, catch, ◌>>=◌, ◌>>◌}
use go_mediaarchive.Identity.Username.{Platform}
use go_mediaarchive.Identity.User.{User}
use go_mediaarchive.Media.Grant.{Item, MediaType}
use go_mediaarchive.Media.Item.{RawItem, new_item}
use go_mediaarchive.Content.{Location, new_location}
use go_mediaarchive.Audit.Kinds.{EventType, Outcome, TargetType, Reason}
use go_mediaarchive.Audit.{Event}
use go_mediaarchive.Store.Tables.{World}
use go_mediaarchive.Store.Items.{create_managed}
use go_mediaarchive.Services.Events.{new_actor_event, append_and_fail}
use go_mediaarchive.Services.Media.{may_create_media}

-- `content.Stored`
pub record StoredContent : Type 0 where
  pub storage_key : Text
  pub size : ℤ
  pub checksum : List ℕ

-- `content.Store` and `content.DeletionStore`. The source is named by a text; a staged deletion is
-- finished or undone by its key.
pub record ContentStore : Type 0 where
  pub put : Text → Text → ℕ → Action World StoredContent
  pub delete : Text → Action World (Unit {0})
  pub stage_delete : Text → Action World (Unit {0})
  pub commit_delete : Text → Action World (Unit {0})
  pub rollback_delete : Text → Action World (Unit {0})

-- `UploadInput`
pub record UploadInput : Type 0 where
  pub title : Text
  pub authors : List Text
  pub original_filename : Text
  pub type : MediaType
  pub mime_type : Text
  pub source : Text

-- `newUploadEvent`
unfoldable pub new_upload_event :
    Platform → User → Text → Text → Outcome → Reason → Time → Action World Event
new_upload_event g actor id title outcome reason now =
    new_actor_event g actor EventType.media_uploaded outcome TargetType.media_target id title reason
      now

-- `recordUploadEvent`
unfoldable pub record_upload_event :
    {A : Type 0} → Platform → User → Text → Outcome → Reason → Time → Error → Action World A
record_upload_event g actor id outcome reason now operation_err =
    append_and_fail g (new_upload_event g actor id [] outcome reason now) operation_err

-- `compensateStoredContent`, at the time of its own call of the clock
unfoldable pub compensate :
    ContentStore → Platform → User → Text → Text → Time → Error → Action World Item
compensate s g actor id key later cause =
    catch (s.delete key)
      (λ e.
        record_upload_event g actor id Outcome.failure Reason.operation_failure later
          (upload_compensation_failed ∷ cause ++ e))
      (λ _. fail cause)

-- What `UploadItem` does with the error of the compensation for refused metadata.
unfoldable pub deny_upload : Platform → User → Text → Time → Bool → Error → Action World Item
deny_upload g actor id now true e = fail e
deny_upload g actor id now false e =
    record_upload_event g actor id Outcome.denied Reason.invalid_input now e

-- `UploadItem` for metadata that `NewItem` refuses.
unfoldable pub refuse_metadata :
    ContentStore → Platform → User → Text → Text → Time → Time → Error → Action World Item
refuse_metadata s g actor id key now later e =
    catch (compensate s g actor id key later e)
      (λ x. deny_upload g actor id now (is upload_compensation_failed x) x) pure

-- The location, the event and the records of an upload.
unfoldable pub persist_upload : Platform → User → Item → Text → Time → Action World Item
persist_upload g actor item key now = do
  location ← lift (new_location g item.id key now)
  event ← new_upload_event g actor item.id item.title Outcome.success Reason.no_reason now
  create_managed g item location (some event)
  pure item

-- `UploadItem` from the valid item on: each of the three errors is compensated in the same way.
unfoldable pub store_upload :
    ContentStore → Platform → User → Item → Text → Time → Time → Action World Item
store_upload s g actor item key now later =
    catch (persist_upload g actor item key now) (compensate s g actor item.id key later) pure

-- The arguments of `NewItem` for an upload.
abbrev pub uploaded : User → Text → UploadInput → Time → StoredContent → RawItem
uploaded actor id input now stored = record {
  id = id;
  title = input.title;
  authors = input.authors;
  original_filename = input.original_filename;
  type = input.type;
  mime_type = input.mime_type;
  size = stored.size;
  checksum = stored.checksum;
  owner_id = actor.id;
  created_at = now;
  updated_at = now;
}

-- `UploadItem` from the stored file on.
unfoldable pub describe_upload :
    ContentStore
    → Platform
    → User
    → Text
    → UploadInput
    → Time
    → Time
    → StoredContent
    → Action World Item
describe_upload s g actor id input now later stored =
    catch (lift (new_item g (uploaded actor id input now stored)))
      (refuse_metadata s g actor id stored.storage_key now later)
      (λ item. store_upload s g actor item stored.storage_key now later)

-- `UploadItem`, with a generated ID and the limit of the service.
unfoldable pub upload_item :
    ContentStore → Platform → ℕ → User → Text → UploadInput → Time → Time → Action World Item
upload_item s g maximum actor id input now later =
    if not (may_create_media actor)
    then record_upload_event g actor [] Outcome.denied Reason.insufficient_role now
        (creation_forbidden ∷ [])
    else do
      stored ← s.put id input.source maximum
      describe_upload s g actor id input now later stored
