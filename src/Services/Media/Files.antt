-- ===== src/Services/Media/Files.antt =====
-- The media service, without an upload or a managed deletion, touches no file of the content store.
use go_mediaarchive.Base.{
  ℕ, refl, Bool, true, false, Bool-cases, inl, inr, some, [], ◌∷◌, find, if◌then◌else◌, arith,
}
use go_mediaarchive.Go.Text.{Text, text_eq}
use go_mediaarchive.Go.Time.{Time}
use go_mediaarchive.Go.Failure.{ok, Error, is, item_not_found, grant_not_found, media_not_found}
use go_mediaarchive.Go.Action.{pure, fail, lift}
use go_mediaarchive.Identity.Username.{Platform}
use go_mediaarchive.Identity.User.{User}
use go_mediaarchive.Media.Permission.{delete}
use go_mediaarchive.Media.Grant.{Item}
use go_mediaarchive.Media.Policy.{authorize}
use go_mediaarchive.Audit.Kinds.{EventType, Outcome, TargetType, Reason}
use go_mediaarchive.Audit.{Event}
use go_mediaarchive.Store.Statements.{query}
use go_mediaarchive.Store.Statements.Files.{
  KeepsFiles, query-KeepsFiles, exec-KeepsFiles, >>=-KeepsFiles, catch-KeepsFiles,
  transaction-KeepsFiles, insert_optional_event-KeepsFiles,
}
use go_mediaarchive.Store.Items.Rows.{
  one_item, author_names, drop_item_grants, drop_item_authors, remove_item,
}
use go_mediaarchive.Store.Items.{read_item, find_item, delete_item, delete_managed}
use go_mediaarchive.Store.Contents.{remove_matching_content}
use go_mediaarchive.Store.Grants.{one_grant, is_grant_of, find_grant}
use go_mediaarchive.Services.Events.Files.{new_actor_event-KeepsFiles, append_and_fail-KeepsFiles}
use go_mediaarchive.Services.Media.{
  mask, no_grant, deciding_grants, authorize_found, authorize_item, new_deletion_event,
  record_deletion_event, deny_media_deletion, authorize_deletion, delete_metadata,
}

find_item-KeepsFiles : (g : Platform) (id : Text) → KeepsFiles (find_item g id)
unfolding find_item read_item
find_item-KeepsFiles g id = transaction-KeepsFiles _ (
    >>=-KeepsFiles (query (λ db. one_item (find (λ r. text_eq r.id id) db.items))) _
      (query-KeepsFiles (λ db. one_item (find (λ r. text_eq r.id id) db.items)))
      (λ row.
        >>=-KeepsFiles (query (λ db. ok (author_names id db.authors))) _
          (query-KeepsFiles (λ db. ok (author_names id db.authors))) (λ names w. refl)))

find_grant-KeepsFiles : (g : Platform) (id user_id : Text) → KeepsFiles (find_grant g id user_id)
unfolding find_grant
find_grant-KeepsFiles g id user_id =
    >>=-KeepsFiles (query (λ db. one_grant (find (is_grant_of id user_id) db.grants))) _
      (query-KeepsFiles (λ db. one_grant (find (is_grant_of id user_id) db.grants))) (λ r w. refl)

no_grant-KeepsFiles : (b : Bool) (e : Error) → KeepsFiles (no_grant b e)
unfolding no_grant
no_grant-KeepsFiles true e w = refl
no_grant-KeepsFiles false e w = refl

deciding_grants-KeepsFiles :
    (g : Platform) (actor : User) (item : Item) → KeepsFiles (deciding_grants g actor item)
unfolding deciding_grants
deciding_grants-KeepsFiles g actor item w =
    let read =
      catch-KeepsFiles (find_grant g item.id actor.id) (λ e. no_grant (is grant_not_found e) e)
        (λ grant. pure (grant ∷ [])) (find_grant-KeepsFiles g item.id actor.id)
        (λ e. no_grant-KeepsFiles (is grant_not_found e) e) (λ grant w. refl) w in
    elim (Bool-cases (text_eq actor.id item.owner_id)) [
      | inl q ↦ ground (arith, q)
      | inr q ↦ ground (arith, q, read)
    ]

authorize_found-KeepsFiles :
    (g : Platform) (actor : User) (p : ℕ) (item : Item)
    → KeepsFiles (authorize_found g actor p item)
unfolding authorize_found
authorize_found-KeepsFiles g actor p item =
    >>=-KeepsFiles (deciding_grants g actor item) _ (deciding_grants-KeepsFiles g actor item) (λ gs.
      >>=-KeepsFiles (lift (authorize g actor item p gs)) _ (λ w. refl)
        (λ allowed. allowed_or_not allowed))
  where
    allowed_or_not : (b : Bool) → KeepsFiles (if b then pure item else fail (media_not_found ∷ []))
    allowed_or_not true w = refl
    allowed_or_not false w = refl

mask-KeepsFiles : (A : Type 0) (b : Bool) (e : Error) → KeepsFiles (mask {A = A} b e)
unfolding mask
mask-KeepsFiles A true e w = refl
mask-KeepsFiles A false e w = refl

authorize_item-KeepsFiles :
    (g : Platform) (actor : User) (id : Text) (p : ℕ) → KeepsFiles (authorize_item g actor id p)
unfolding authorize_item
authorize_item-KeepsFiles g actor id p =
    catch-KeepsFiles (find_item g id) (λ e. mask (is item_not_found e) e)
      (authorize_found g actor p) (find_item-KeepsFiles g id)
      (λ e. mask-KeepsFiles Item (is item_not_found e) e) (authorize_found-KeepsFiles g actor p)

pub new_deletion_event-KeepsFiles :
    (g : Platform) (actor : User) (id title : Text) (o : Outcome) (r : Reason) (now : Time)
    → KeepsFiles (new_deletion_event g actor id title o r now)
unfolding new_deletion_event
new_deletion_event-KeepsFiles g actor id title o r now =
    new_actor_event-KeepsFiles g actor EventType.media_deleted o TargetType.media_target id title r
      now

pub record_deletion_event-KeepsFiles :
    (A : Type 0) (g : Platform) (actor : User) (id title : Text) (o : Outcome) (r : Reason)
    (now : Time) (e : Error)
    → KeepsFiles (record_deletion_event {A = A} g actor id title o r now e)
unfolding record_deletion_event
record_deletion_event-KeepsFiles A g actor id title o r now e =
    append_and_fail-KeepsFiles A g (new_deletion_event g actor id title o r now) e
      (new_deletion_event-KeepsFiles g actor id title o r now)

deny_media_deletion-KeepsFiles :
    (g : Platform) (actor : User) (now : Time) (b : Bool) (e : Error)
    → KeepsFiles (deny_media_deletion g actor now b e)
unfolding deny_media_deletion
deny_media_deletion-KeepsFiles g actor now false e w = refl
deny_media_deletion-KeepsFiles g actor now true e w =
    record_deletion_event-KeepsFiles Item g actor [] [] Outcome.denied Reason.unknown_target now e w

pub authorize_deletion-KeepsFiles :
    (g : Platform) (actor : User) (id : Text) (now : Time)
    → KeepsFiles (authorize_deletion g actor id now)
unfolding authorize_deletion
authorize_deletion-KeepsFiles g actor id now =
    catch-KeepsFiles (authorize_item g actor id delete)
      (λ e. deny_media_deletion g actor now (is media_not_found e) e) pure
      (authorize_item-KeepsFiles g actor id delete)
      (λ e. deny_media_deletion-KeepsFiles g actor now (is media_not_found e) e) (λ i w. refl)

pub delete_item-KeepsFiles :
    (g : Platform) (id : Text) (e : Event) → KeepsFiles (delete_item g id (some e))
unfolding delete_item
delete_item-KeepsFiles g id e = transaction-KeepsFiles _ (
    >>=-KeepsFiles _ _ (exec-KeepsFiles (λ db. ok (drop_item_grants id db))) (λ _.
      >>=-KeepsFiles _ _ (exec-KeepsFiles (λ db. ok (drop_item_authors id db))) (λ _.
        >>=-KeepsFiles _ _ (exec-KeepsFiles (remove_item id))
          (λ _. insert_optional_event-KeepsFiles g (some e)))))

pub delete_managed-KeepsFiles :
    (g : Platform) (id key : Text) (e : Event) → KeepsFiles (delete_managed g id key (some e))
unfolding delete_managed
delete_managed-KeepsFiles g id key e = transaction-KeepsFiles _ (
    >>=-KeepsFiles _ _ (exec-KeepsFiles (remove_matching_content id key)) (λ _.
      >>=-KeepsFiles _ _ (exec-KeepsFiles (λ db. ok (drop_item_grants id db))) (λ _.
        >>=-KeepsFiles _ _ (exec-KeepsFiles (λ db. ok (drop_item_authors id db))) (λ _.
          >>=-KeepsFiles _ _ (exec-KeepsFiles (remove_item id))
            (λ _. insert_optional_event-KeepsFiles g (some e))))))

pub delete_metadata-KeepsFiles :
    (g : Platform) (actor : User) (item : Item) (now : Time)
    → KeepsFiles (delete_metadata g actor item now)
unfolding delete_metadata
delete_metadata-KeepsFiles g actor item now =
    >>=-KeepsFiles _ _
      (new_deletion_event-KeepsFiles g actor item.id item.title Outcome.success Reason.no_reason
        now)
      (λ event.
        catch-KeepsFiles (delete_item g item.id (some event)) (λ e. mask (is item_not_found e) e)
          (λ _. pure tt) (delete_item-KeepsFiles g item.id event)
          (λ e. mask-KeepsFiles (Unit {0}) (is item_not_found e) e) (λ _ w. refl))
