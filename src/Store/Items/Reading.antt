-- ===== src/Store/Items/Reading.antt =====
-- What a read of an item gives.
use go_mediaarchive.Base.{inl, inr, ◌≡◌, sym, ap, subst, ◌∙◌, Option, none, some, arith, find, ℕ}
use go_mediaarchive.Go.Text.{Text, text_eq}
use go_mediaarchive.Go.Failure.{ok, err, Error}
use go_mediaarchive.Go.Action.{◌>>=◌}
use go_mediaarchive.Identity.Username.{Platform}
use go_mediaarchive.Media.Grant.{Item, Grant, validate_grant, new_grant}
use go_mediaarchive.Media.Item.{RawItem, new_item, check_timestamps}
use go_mediaarchive.Store.Tables.{Database, World, ItemRow}
use go_mediaarchive.Store.Statements.{query}
use go_mediaarchive.Store.Statements.Atomicity.{Result-cases, statement_keeps, transaction_atomic}
use go_mediaarchive.Store.Statements.Success.{
  Succeeds, SameRest, >>=-Succeeds, query-Succeeds, transaction-Succeeds,
}
use go_mediaarchive.Store.Items.Rows.{one_item, raw_of_row, author_names}
use go_mediaarchive.Store.Items.{read_item, find_item}
use go_mediaarchive.Store.Grants.{one_grant, find_grant, is_grant_of, validate_stored_grant}

-- The row of an item, and the item that it and its authors validate to.
pub record Stored (g : Platform) (id : Text) (db : Database) (i : Item) : Type 0 where
  pub row : ItemRow
  pub found : find (λ r. text_eq r.id id) db.items ≡ some row
  pub valid : new_item g (raw_of_row row (author_names id db.authors)) ≡ ok i

one_item-ok : (o : Option ItemRow) (r : ItemRow) → one_item o ≡ ok r → o ≡ some r
one_item-ok none r h = cc
one_item-ok (some s) r h = ground arith

read_item-Succeeds :
    (g : Platform) (id : Text) (w : World) (i : Item) (w' : World)
    → Succeeds (read_item g id) w i w'
    → Stored g id w.db i × (w'.db ≡ w.db) × SameRest w' w
unfolding read_item
read_item-Succeeds g id w i w' h =
    let (row, x, a, r1) = >>=-Succeeds _ _ w i w' h in
    let (names, y, b, c) = >>=-Succeeds _ _ x i w' r1 in
    let q = query-Succeeds (λ db. one_item (find (λ r. text_eq r.id id) db.items)) w row x a in
    let p = query-Succeeds (λ db. ok (author_names id db.authors)) x names y b in
    let e : author_names id w.db.authors ≡ names = ground (arith, p.0, q.1) in
    (
      record {
        row = row;
        found = one_item-ok (find (λ r. text_eq r.id id) w.db.items) row q.0;
        valid = subst (λ ns. new_item g (raw_of_row row ns) ≡ ok i) (sym e) (ap (λ p. p.0) c);
      },
      sym (ap (λ p. p.1.db) c) ∙ p.1 ∙ q.1,
      ground (arith, c, p.2, q.2),
    )

pub find_item-Succeeds :
    (g : Platform) (id : Text) (w : World) (i : Item) (w' : World)
    → Succeeds (find_item g id) w i w'
    → Stored g id w.db i × (w'.db ≡ w.db)
unfolding find_item
find_item-Succeeds g id w i w' h =
    let (u, v, same, _, body, after, _) = transaction-Succeeds _ w i w' h in
    let (s, d, _) = read_item-Succeeds g id u i v body in
    (subst (λ x. Stored g id x i) same s, after ∙ d ∙ same)

one_grant-ok : (o : Option Grant) (r : Grant) → one_grant o ≡ ok r → o ≡ some r
one_grant-ok none r h = cc
one_grant-ok (some s) r h = ground arith

pub validate_stored_grant-ok :
    (g : Platform) (media_id user_id : Text) (p : ℕ) (r : Grant)
    → validate_stored_grant g media_id user_id p ≡ ok r
    → r ≡ record { media_id = media_id; user_id = user_id; permissions = p }
unfolding validate_stored_grant new_grant validate_grant
validate_stored_grant-ok g media_id user_id p r h = ground arith

-- A grant that is found is the stored one.
pub find_grant-Succeeds :
    (g : Platform) (media_id user_id : Text) (w : World) (r : Grant) (w' : World)
    → Succeeds (find_grant g media_id user_id) w r w'
    → (row : Grant) × (find (is_grant_of media_id user_id) w.db.grants ≡ some row)
      × (r ≡ record { media_id = media_id; user_id = user_id; permissions = row.permissions })
      × (w'.db ≡ w.db)
unfolding find_grant
find_grant-Succeeds g media_id user_id w r w' h =
    let (row, x, a, b) = >>=-Succeeds _ _ w r w' h in
    let q =
      query-Succeeds (λ db. one_grant (find (is_grant_of media_id user_id) db.grants)) w row x a in
    (
      row,
      one_grant-ok (find (is_grant_of media_id user_id) w.db.grants) row q.0,
      validate_stored_grant-ok g media_id user_id row.permissions r (ap (λ p. p.0) b),
      sym (ap (λ p. p.1.db) b) ∙ q.1,
    )

-- What validation keeps of the row.
pub new_item-keeps :
    (g : Platform) (raw : RawItem) (i : Item)
    → new_item g raw ≡ ok i
    → (i.id ≡ raw.id)
      × (i.owner_id ≡ raw.owner_id)
      × (i.created_at.instant ≡ raw.created_at.instant)
unfolding new_item check_timestamps
new_item-keeps g raw i h = ground arith

find_item-failed :
    (g : Platform) (id : Text) (w : World) (x : Error)
    → (find_item g id w).0 ≡ err x
    → (find_item g id w).1.db ≡ w.db
unfolding find_item
find_item-failed g id w x e = transaction_atomic (read_item g id) w x e

-- A read changes no table, whatever it returns.
pub find_item-db : (g : Platform) (id : Text) (w : World) → (find_item g id w).1.db ≡ w.db
find_item-db g id w = elim (Result-cases (find_item g id w).0) [
  | inl (i, e) ↦
      (find_item-Succeeds g id w i (find_item g id w).1 (λ k. (e k, (find_item g id w).1))).1
  | inr (x, e) ↦ find_item-failed g id w x e
]

pub find_grant-db :
    (g : Platform) (media_id user_id : Text) (w : World)
    → (find_grant g media_id user_id w).1.db ≡ w.db
unfolding find_grant query ◌>>=◌
find_grant-db g media_id user_id w = ground (arith, statement_keeps w)
