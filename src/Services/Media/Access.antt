-- ===== src/Services/Media/Access.antt =====
-- Who gets to an item through `authorizeItem`.
use go_mediaarchive.Base.{
  ℕ, ◌≡◌, ◌≢◌, refl, sym, ap, subst, ◌∙◌, ◌⊎◌, inl, inr, Bool, true, false, ◌||◌, some, List, [],
  ◌∷◌, arith, find, any, Bool-cases, if◌then◌else◌,
}
use go_mediaarchive.Go.Text.{Text, text_eq}
use go_mediaarchive.Go.Failure.{ok, Error, is, item_not_found, grant_not_found, media_not_found}
use go_mediaarchive.Go.Action.{Action, pure, fail, lift, catch}
use go_mediaarchive.Identity.Username.{Platform}
use go_mediaarchive.Identity.User.{User}
use go_mediaarchive.Media.Permission.{has}
use go_mediaarchive.Media.Grant.{Item, Grant}
use go_mediaarchive.Media.Policy.{authorize, grant_allows}
use go_mediaarchive.Media.Policy.Laws.{authorize-any}
use go_mediaarchive.Store.Tables.{Database, World}
use go_mediaarchive.Store.Statements.Success.{Succeeds, >>=-Succeeds}
use go_mediaarchive.Store.Statements.Rollback.{KeepsTables, >>=-KeepsTables, catch-KeepsTables}
use go_mediaarchive.Store.Items.{find_item}
use go_mediaarchive.Store.Items.Reading.{
  Stored, find_item-Succeeds, find_item-db, find_grant-db, find_grant-Succeeds,
}
use go_mediaarchive.Store.Grants.{find_grant, is_grant_of}
use go_mediaarchive.Services.Events.Keeps.{catch-cases}
use go_mediaarchive.Services.Users.Changes.{catch-Succeeds}
use go_mediaarchive.Services.Media.{
  mask, no_grant, deciding_grants, authorize_found, authorize_item,
}

pub mask-err : {A : Type 0} (b : Bool) (e : Error) (w : World) (a : A) → (mask b e w).0 ≢ ok a
unfolding mask
mask-err true e w a h = cc
mask-err false e w a h = cc

-- The actor owns the item, or a stored grant on it gives the actor the permission.
abbrev pub MayUse : User → Item → ℕ → Database → Type 0
MayUse actor item p db =
    (text_eq actor.id item.owner_id ≡ true)
    ⊎ ((row : Grant) × (find (is_grant_of item.id actor.id) db.grants ≡ some row)
        × (has row.permissions p ≡ true))

-- The read of the actor's grant: no grant, or the stored one.
actor_grant : Platform → User → Item → Action World (List Grant)
actor_grant g actor item =
    catch (find_grant g item.id actor.id) (λ e. no_grant (is grant_not_found e) e)
      (λ grant. pure (grant ∷ []))

actor_grant-Succeeds :
    (g : Platform) (actor : User) (item : Item) (w : World) (gs : List Grant) (w' : World)
    → Succeeds (actor_grant g actor item) w gs w'
    → (gs ≡ [])
      ⊎ ((r : Grant) × (v : World) × (gs ≡ r ∷ []) × Succeeds (find_grant g item.id actor.id) w r v)
unfolding actor_grant no_grant
actor_grant-Succeeds g actor item w gs w' h =
    elim (catch-cases (find_grant g item.id actor.id) (λ e. no_grant (is grant_not_found e) e)
      (λ grant. pure (grant ∷ [])) w) [
        | inl (e, v, failed, handled) ↦ elim (Bool-cases (is grant_not_found e)) [
          | inl q ↦ inl (ground (arith, h, handled, q))
          | inr q ↦ ground (arith, h, handled, q)
        ]
        | inr (r, v, found, returned) ↦ inr (r, v, ground (arith, h, returned), found)
      ]

actor_grant-db :
    (g : Platform) (actor : User) (item : Item) (w : World)
    → (actor_grant g actor item w).1.db ≡ w.db
unfolding actor_grant no_grant
actor_grant-db g actor item w =
    elim (catch-cases (find_grant g item.id actor.id) (λ e. no_grant (is grant_not_found e) e)
      (λ grant. pure (grant ∷ [])) w) [
        | inl (e, v, failed, handled) ↦
            ground (arith, failed, handled, find_grant-db g item.id actor.id w)
        | inr (r, v, found, returned) ↦
            ground (arith, found, returned, find_grant-db g item.id actor.id w)
      ]

deciding_grants-steps :
    (g : Platform) (actor : User) (item : Item) (w : World)
    → text_eq actor.id item.owner_id ≡ false
    → deciding_grants g actor item w ≡ actor_grant g actor item w
unfolding deciding_grants actor_grant
deciding_grants-steps g actor item w q = ground (arith, q)

pub deciding_grants-db :
    (g : Platform) (actor : User) (item : Item) (w : World)
    → (deciding_grants g actor item w).1.db ≡ w.db
unfolding deciding_grants
deciding_grants-db g actor item w = elim (Bool-cases (text_eq actor.id item.owner_id)) [
  | inl q ↦ ground (arith, q)
  | inr q ↦
      ap (λ r. r.1.db) (deciding_grants-steps g actor item w q) ∙ actor_grant-db g actor item w
]

granted :
    (actor : User) (item : Item) (p : ℕ) (gs : List Grant) (r row : Grant)
    → text_eq actor.id item.owner_id ≡ false
    → gs ≡ r ∷ []
    → r ≡ record { media_id = item.id; user_id = actor.id; permissions = row.permissions }
    → (text_eq actor.id item.owner_id || any (grant_allows actor item p) gs) ≡ true
    → has row.permissions p ≡ true
unfolding grant_allows
granted actor item p gs r row q e s b = ground (arith, q, e, s, b)

deciding_grants-Succeeds :
    (g : Platform) (actor : User) (item : Item) (p : ℕ) (w : World) (gs : List Grant) (w' : World)
    → Succeeds (deciding_grants g actor item) w gs w'
    → (text_eq actor.id item.owner_id || any (grant_allows actor item p) gs) ≡ true
    → MayUse actor item p w.db
deciding_grants-Succeeds g actor item p w gs w' h a =
    elim (Bool-cases (text_eq actor.id item.owner_id)) [
      | inl q ↦ inl q
      | inr q ↦
          elim (actor_grant-Succeeds g actor item w gs w'
            (sym (deciding_grants-steps g actor item w q) ∙ h)) [
              | inl none_read ↦ ground (arith, none_read, q)
              | inr (r, v, one_read, found) ↦
                  let (row, stored, same, _) = find_grant-Succeeds g item.id actor.id w r v found in
                  inr (row, stored, granted actor item p gs r row q one_read same a)
            ]
    ]

authorize_found-Succeeds :
    (g : Platform) (actor : User) (p : ℕ) (item : Item) (w : World) (i : Item) (w' : World)
    → Succeeds (authorize_found g actor p item) w i w'
    → (i ≡ item) × (actor.active ≡ true) × MayUse actor item p w.db × (w'.db ≡ w.db)
unfolding authorize_found
authorize_found-Succeeds g actor p item w i w' h =
    let (gs, x, read, r1) = >>=-Succeeds _ _ w i w' h in
    let (allowed, y, decided, r2) = >>=-Succeeds _ _ x i w' r1 in
    let d = authorize-any g actor item p gs allowed (ap (λ q. q.0) decided) in
    let yes : allowed ≡ true = ground (arith, r2) in
    let kept = deciding_grants-db g actor item w in
    (
      ground (arith, r2, yes),
      ground (arith, d, yes),
      deciding_grants-Succeeds g actor item p w gs x read (ground (arith, d, yes)),
      ap (λ q. q.1.db)
            (sym r2 ∙ ap (λ b. (if b then pure item else fail (media_not_found ∷ [])) y) yes)
          ∙ sym (ap (λ q. q.1.db) decided)
          ∙ sym (ap (λ q. q.1.db) read)
          ∙ kept,
    )

-- An item that `authorizeItem` returns is the stored one of that ID; the actor is active and owns the
-- item, or a stored grant on it gives the actor the permission. No table changes.
pub authorize_item-Succeeds :
    (g : Platform) (actor : User) (id : Text) (p : ℕ) (w : World) (item : Item) (w' : World)
    → Succeeds (authorize_item g actor id p) w item w'
    → Stored g id w.db item × (actor.active ≡ true) × MayUse actor item p w.db × (w'.db ≡ w.db)
unfolding authorize_item
authorize_item-Succeeds g actor id p w item w' h =
    let (found, x, read, rest) =
      catch-Succeeds (find_item g id) (λ e. mask (is item_not_found e) e)
        (authorize_found g actor p) w item w' (λ e z. mask-err (is item_not_found e) e z item) h in
    let (stored, same) = find_item-Succeeds g id w found x read in
    let (returned, active, may, kept) = authorize_found-Succeeds g actor p found x item w' rest in
    (
      subst (Stored g id w.db) (sym returned) stored,
      active,
      subst (λ i. MayUse actor i p w.db) (sym returned) (subst (MayUse actor found p) same may),
      kept ∙ same,
    )

authorize_found-KeepsTables :
    (g : Platform) (actor : User) (p : ℕ) (item : Item)
    → KeepsTables (authorize_found g actor p item)
unfolding authorize_found
authorize_found-KeepsTables g actor p item =
    >>=-KeepsTables (deciding_grants g actor item) _ (deciding_grants-db g actor item) (λ gs.
      >>=-KeepsTables (lift (authorize g actor item p gs)) _ (λ w. refl)
        (λ allowed. allowed_or_not allowed))
  where
    allowed_or_not : (b : Bool) → KeepsTables (if b then pure item else fail (media_not_found ∷ []))
    allowed_or_not true w = refl
    allowed_or_not false w = refl

mask-KeepsTables : (b : Bool) (e : Error) → KeepsTables (mask {A = Item} b e)
unfolding mask
mask-KeepsTables true e w = refl
mask-KeepsTables false e w = refl

pub authorize_item-KeepsTables :
    (g : Platform) (actor : User) (id : Text) (p : ℕ) → KeepsTables (authorize_item g actor id p)
unfolding authorize_item
authorize_item-KeepsTables g actor id p =
    catch-KeepsTables (find_item g id) (λ e. mask (is item_not_found e) e)
      (authorize_found g actor p) (find_item-db g id)
      (λ e. mask-KeepsTables (is item_not_found e) e) (authorize_found-KeepsTables g actor p)
