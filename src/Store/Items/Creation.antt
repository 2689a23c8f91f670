-- ===== src/Store/Items/Creation.antt =====
-- internal/storage/sqlite/media_repository.go: what `Create` stores is what `FindByID` returns.
use go_mediaarchive.Base.{
  ◌≡◌, refl, sym, ap, subst, ◌∙◌, Bool, true, false, not, some, List, [], ◌∷◌, ◌++◌, arith, any,
  every,
}
use go_mediaarchive.Go.Text.{Text, text_eq, text_eq→≡, text_eq_refl}
use go_mediaarchive.Go.Failure.{ok, location_mismatch}
use go_mediaarchive.Go.Action.{◌>>=◌}
use go_mediaarchive.Identity.Username.{Platform}
use go_mediaarchive.Media.Grant.{Item}
use go_mediaarchive.Media.Item.{new_item, raw_of, validate_media_item}
use go_mediaarchive.Media.Item.Laws.{IsMimeParser, new_item_idem}
use go_mediaarchive.Content.{Location, new_location}
use go_mediaarchive.Audit.{Event}
use go_mediaarchive.Store.Tables.{Database, World, ItemRow, AuthorRow}
use go_mediaarchive.Store.Statements.{statement, query, transaction, commit, finish}
use go_mediaarchive.Store.Statements.Success.{
  Succeeds, >>=-Succeeds, exec-Succeeds, fail_if-Succeeds, transaction-Succeeds,
}
use go_mediaarchive.Store.Users.Effects.{Recorded, insert_optional_event-Succeeds}
use go_mediaarchive.Store.Contents.{add_content}
use go_mediaarchive.Store.Items.Rows.{add_item, has_item, item_row_of, raw_of_row}
use go_mediaarchive.Store.Items.Authors.{
  author_rows, with_authors, insert_authors-Succeeds, author_names-author_rows,
}
use go_mediaarchive.Store.Items.Reading.{Stored, new_item-keeps}
use go_mediaarchive.Store.Items.{
  insert_item, insert_authors, create_item, store_managed, create_managed, read_item, find_item,
}

-- The tables with the rows of one item more.
abbrev pub with_item : Item → Database → Database
with_item i db = record db {
  items = item_row_of i ∷ db.items;
  authors = db.authors ++ author_rows i.id 0 i.authors;
}

abbrev pub has_owner : Item → Database → Bool
has_owner i db = any (λ u. text_eq u.id i.owner_id) db.users

add_item-ok :
    (i : Item) (before after : Database)
    → add_item i before ≡ ok after
    → (has_item i.id before.items ≡ false)
      × (has_owner i before ≡ true)
      × (after ≡ record before { items = item_row_of i ∷ before.items })
unfolding add_item
add_item-ok i before after h = ground arith

pub insert_rows-Succeeds :
    (i : Item) (w v w' : World)
    → Succeeds (insert_item i) w tt v
    → Succeeds (insert_authors i.id 0 i.authors) v tt w'
    → (has_item i.id w.db.items ≡ false) × (has_owner i w.db ≡ true) × (w'.db ≡ with_item i w.db)
unfolding insert_item
insert_rows-Succeeds i w v w' h k =
    let (free, owned, one) = add_item-ok i w.db v.db (exec-Succeeds (add_item i) w v h).0 in
    (
      free,
      owned,
      insert_authors-Succeeds i.id 0 i.authors v w' k ∙ ap (with_authors i.id 0 i.authors) one,
    )

pub create_item-Succeeds :
    (g : Platform) (candidate : Item) (w w' : World)
    → Succeeds (create_item g candidate) w tt w'
    → (i : Item) × (validate_media_item g candidate ≡ ok i)
      × (has_item i.id w.db.items ≡ false)
      × (has_owner i w.db ≡ true)
      × (w'.db ≡ with_item i w.db)
unfolding create_item
create_item-Succeeds g candidate w w' h =
    let (i, x, valid, rest) = >>=-Succeeds _ _ w tt w' h in
    let (u, v, same, _, body, after, _) = transaction-Succeeds _ x tt w' rest in
    let (_, y, item, authors) = >>=-Succeeds _ _ u tt v body in
    let (free, owned, rows) = insert_rows-Succeeds i u y v item authors in
    let whole : u.db ≡ w.db = same ∙ sym (ap (λ p. p.1.db) valid) in
    (
      i,
      ap (λ p. p.0) valid,
      subst (λ d. has_item i.id d.items ≡ false) whole free,
      subst (λ d. has_owner i d ≡ true) whole owned,
      after ∙ rows ∙ ap (with_item i) whole,
    )

-- Every author row refers to a stored item.
abbrev pub AuthorsRefer : Database → Type 0
AuthorsRefer db = every (λ r. has_item r.media_id db.items) db.authors ≡ true

no_authors :
    (id : Text) (items : List ItemRow) (rows : List AuthorRow)
    → has_item id items ≡ false
    → every (λ r. has_item r.media_id items) rows ≡ true
    → any (λ r. text_eq r.media_id id) rows ≡ false
no_authors id items [] free refer = refl
no_authors id items (r ∷ rows) free refer =
    ground
      (arith, no_authors id items rows free, text_eq→≡ r.media_id id, ap (λ k. has_item k items))

with_item-Stored :
    (g : Platform) (i : Item) (db : Database)
    → validate_media_item g i ≡ ok i
    → has_item i.id db.items ≡ false
    → AuthorsRefer db
    → Stored g i.id (with_item i db) i
unfolding validate_media_item
with_item-Stored g i db valid free refer = record {
  row = item_row_of i;
  found = ground (arith, text_eq_refl i.id);
  valid =
      ap (λ names. new_item g (raw_of_row (item_row_of i) names))
        (author_names-author_rows i.id db.authors i.authors
          (no_authors i.id db.items db.authors free refer))
      ∙ valid;
}

pub find_item-calm :
    (g : Platform) (id : Text) (i : Item) (w : World)
    → w.faults ≡ []
    → Stored g id w.db i
    → find_item g id w ≡ (ok i, w)
unfolding find_item read_item transaction commit finish query statement ◌>>=◌
find_item-calm g id i w calm stored = ground (arith, calm, stored.found, stored.valid)

-- After a successful `Create` on tables whose author rows refer to stored items, `FindByID` returns the
-- validated item under its ID, with its authors in order, unless the driver fails; it changes nothing.
pub find_item-create_item :
    (g : Platform)
    → IsMimeParser g
    → (candidate : Item) (w w' : World) → AuthorsRefer w.db
    → Succeeds (create_item g candidate) w tt w'
    → w'.faults ≡ []
    → (i : Item) × (validate_media_item g candidate ≡ ok i)
      × (find_item g candidate.id w' ≡ (ok i, w'))
unfolding validate_media_item
find_item-create_item g parser candidate w w' refer h calm =
    let (i, valid, free, _, rows) = create_item-Succeeds g candidate w w' h in
    let again = new_item_idem g (raw_of candidate) i parser valid in
    let stored = with_item-Stored g i w.db again free refer in
    let named : i.id ≡ candidate.id = (new_item-keeps g (raw_of candidate) i valid).0 in
    (
      i,
      valid,
      subst (λ id. find_item g id w' ≡ (ok i, w')) named
          (find_item-calm g i.id i w' calm (subst (λ d. Stored g i.id d i) (sym rows) stored)),
    )

-- A successful creation of an item with its content: the rows that are new, and the event.
pub create_managed-Succeeds :
    (g : Platform) (candidate : Item) (l : Location) (event : Event) (w w' : World)
    → Succeeds (create_managed g candidate l (some event)) w tt w'
    → (i : Item) × (m : Location) × (db : Database) × (validate_media_item g candidate ≡ ok i)
      × (new_location g l.media_id l.storage_key l.stored_at ≡ ok m)
      × (m.media_id ≡ i.id)
      × (has_item i.id w.db.items ≡ false)
      × (has_owner i w.db ≡ true)
      × (add_content m (with_item i w.db) ≡ ok db)
      × Recorded g (some event) db w'.db
unfolding create_managed store_managed
create_managed-Succeeds g candidate l event w w' h =
    let (i, x, valid, r1) = >>=-Succeeds _ _ w tt w' h in
    let (m, y, located, r2) = >>=-Succeeds _ _ x tt w' r1 in
    let (_, z, matched, r3) = >>=-Succeeds _ _ y tt w' r2 in
    let (agree, untouched) =
      fail_if-Succeeds (not (text_eq m.media_id i.id)) (location_mismatch ∷ []) y z matched in
    let (u, v, same, _, body, after, _) = transaction-Succeeds _ z tt w' r3 in
    let (_, a, item, b1) = >>=-Succeeds _ _ u tt v body in
    let (_, b, authors, b2) = >>=-Succeeds _ _ a tt v b1 in
    let (_, c, content, recorded) = >>=-Succeeds _ _ b tt v b2 in
    let (free, owned, rows) = insert_rows-Succeeds i u a b item authors in
    let added = (exec-Succeeds (add_content m) b c content).0 in
    let whole : u.db ≡ w.db =
      same
      ∙ ap (λ s. s.db) untouched
      ∙ sym (ap (λ p. p.1.db) located)
      ∙ sym (ap (λ p. p.1.db) valid) in
    (
      i,
      m,
      c.db,
      ap (λ p. p.0) valid,
      ap (λ p. p.0) located,
      ground (arith, agree, text_eq→≡ m.media_id i.id),
      subst (λ d. has_item i.id d.items ≡ false) whole free,
      subst (λ d. has_owner i d ≡ true) whole owned,
      subst (λ d. add_content m d ≡ ok c.db) (rows ∙ ap (with_item i) whole) added,
      subst (Recorded g (some event) c.db) (sym after)
          (insert_optional_event-Succeeds g (some event) c v recorded),
    )
