-- ===== src/Services/Media/Masking.antt =====
-- internal/application/media/service.go: a user who may not see an item cannot tell it from none.
use go_mediaarchive.Base.{
  ℕ, ◌≡◌, ◌⊎◌, inl, inr, true, false, none, some, List, [], ◌∷◌, arith, find,
}
use go_mediaarchive.Go.Text.{Text, text_eq}
use go_mediaarchive.Go.Failure.{ok, err, item_not_found, media_not_found}
use go_mediaarchive.Go.Action.{catch, ◌>>=◌}
use go_mediaarchive.Identity.Username.{Platform, canonical_uuid}
use go_mediaarchive.Identity.User.{User}
use go_mediaarchive.Media.Permission.{valid_permission, has}
use go_mediaarchive.Media.Grant.{Item, Grant, validate_grant, new_grant}
use go_mediaarchive.Media.Item.{RawItem, new_item}
use go_mediaarchive.Media.Policy.{authorize, scan_grants, grant_allows}
use go_mediaarchive.Store.Tables.{Database, World}
use go_mediaarchive.Store.Statements.{statement, query, transaction, commit, finish}
use go_mediaarchive.Store.Items.{read_item, find_item}
use go_mediaarchive.Store.Items.Reading.{Stored}
use go_mediaarchive.Store.Items.Rows.{raw_of_row, author_names}
use go_mediaarchive.Store.Items.Creation.{find_item-calm}
use go_mediaarchive.Store.Grants.{find_grant, is_grant_of, validate_stored_grant}
use go_mediaarchive.Services.Media.{
  mask, no_grant, deciding_grants, authorize_found, authorize_item,
}

-- What the table of the grants holds for the user and the item does not give the permission.
abbrev pub LacksGrant : Platform → User → Item → ℕ → Database → Type 0
LacksGrant g actor item p db =
    (find (is_grant_of item.id actor.id) db.grants ≡ none)
    ⊎ ((row r : Grant) × (find (is_grant_of item.id actor.id) db.grants ≡ some row)
        × (validate_stored_grant g item.id actor.id row.permissions ≡ ok r)
        × (has row.permissions p ≡ false))

-- There is no item of the ID, or the user neither owns it nor has a grant with the permission.
abbrev pub MayNotUse : Platform → User → Text → ℕ → Database → Type 0
MayNotUse g actor id p db =
    (find (λ r. text_eq r.id id) db.items ≡ none)
    ⊎ ((item : Item) × Stored g id db item
        × (text_eq actor.id item.owner_id ≡ false)
        × LacksGrant g actor item p db)

find_item-absent :
    (g : Platform) (id : Text) (w : World)
    → w.faults ≡ []
    → find (λ r. text_eq r.id id) w.db.items ≡ none
    → find_item g id w ≡ (err (item_not_found ∷ []), w)
unfolding find_item read_item transaction commit finish query statement ◌>>=◌
find_item-absent g id w calm absent = ground (arith, calm, absent)

new_item-ids :
    (g : Platform) (raw : RawItem) (i : Item)
    → new_item g raw ≡ ok i
    → (canonical_uuid g i.id ≡ true) × (canonical_uuid g i.owner_id ≡ true)
unfolding new_item
new_item-ids g raw i h = ground arith

authorize-none :
    (g : Platform) (actor : User) (item : Item) (p : ℕ)
    → valid_permission p ≡ true
    → canonical_uuid g actor.id ≡ true
    → (canonical_uuid g item.id ≡ true) × (canonical_uuid g item.owner_id ≡ true)
    → text_eq actor.id item.owner_id ≡ false
    → authorize g actor item p [] ≡ ok false
unfolding authorize scan_grants
authorize-none g actor item p valid known ids another = ground (arith, valid, known, ids, another)

authorize-lacking :
    (g : Platform) (actor : User) (item : Item) (p q : ℕ) (r : Grant)
    → valid_permission p ≡ true
    → canonical_uuid g actor.id ≡ true
    → (canonical_uuid g item.id ≡ true) × (canonical_uuid g item.owner_id ≡ true)
    → text_eq actor.id item.owner_id ≡ false
    → validate_stored_grant g item.id actor.id q ≡ ok r
    → has q p ≡ false
    → authorize g actor item p (r ∷ []) ≡ ok false
unfolding authorize scan_grants grant_allows validate_stored_grant new_grant validate_grant
authorize-lacking g actor item p q r valid known ids another made lacks =
    ground (arith, valid, known, ids, another, made, lacks)

deciding_grants-calm :
    (g : Platform) (actor : User) (item : Item) (p : ℕ) (w : World)
    → w.faults ≡ []
    → valid_permission p ≡ true
    → canonical_uuid g actor.id ≡ true
    → (canonical_uuid g item.id ≡ true) × (canonical_uuid g item.owner_id ≡ true)
    → text_eq actor.id item.owner_id ≡ false
    → LacksGrant g actor item p w.db
    → (gs : List Grant) × (deciding_grants g actor item w ≡ (ok gs, w))
      × (authorize g actor item p gs ≡ ok false)
unfolding deciding_grants no_grant find_grant catch query statement ◌>>=◌
deciding_grants-calm g actor item p w calm valid known ids another (inl absent) = (
  [],
  ground (arith, calm, another, absent),
  authorize-none g actor item p valid known ids another,
)
deciding_grants-calm g actor item p w calm valid known ids another
      (inr (row, r, found, made, lacks)) =
    (
      r ∷ [],
      ground (arith, calm, another, found, made),
      authorize-lacking g actor item p row.permissions r valid known ids another made lacks,
    )

authorize_found-masked :
    (g : Platform) (actor : User) (item : Item) (p : ℕ) (w : World) (gs : List Grant)
    → deciding_grants g actor item w ≡ (ok gs, w)
    → authorize g actor item p gs ≡ ok false
    → authorize_found g actor p item w ≡ (err (media_not_found ∷ []), w)
unfolding authorize_found ◌>>=◌
authorize_found-masked g actor item p w gs read decided = ground (arith, read, decided)

-- While the driver does not fail, `authorizeItem` answers every call of a user who may not use the item,
-- for a supported permission, as it answers for an ID without an item: with the same error, and with
-- nothing changed.
pub authorize_item-masked :
    (g : Platform) (actor : User) (id : Text) (p : ℕ) (w : World)
    → w.faults ≡ []
    → valid_permission p ≡ true
    → canonical_uuid g actor.id ≡ true
    → MayNotUse g actor id p w.db
    → authorize_item g actor id p w ≡ (err (media_not_found ∷ []), w)
unfolding authorize_item mask catch
authorize_item-masked g actor id p w calm valid known (inl absent) =
    ground (arith, find_item-absent g id w calm absent)
authorize_item-masked g actor id p w calm valid known (inr (item, stored, another, lacks)) =
    let ids =
      new_item-ids g (raw_of_row stored.row (author_names id w.db.authors)) item stored.valid in
    let (gs, read, decided) =
      deciding_grants-calm g actor item p w calm valid known ids another lacks in
    ground (
      arith,
      find_item-calm g id item w calm stored,
      authorize_found-masked g actor item p w gs read decided,
    )
