-- ===== src/Store/Items/Updates.antt =====
-- internal/storage/sqlite/media_repository.go: what `Update` stores is what `FindByID` returns.
use go_mediaarchive.Base.{
  ℕ, ◌+◌, ◌++◌, ◌≡◌, refl, sym, ap, subst, ◌∙◌, false, not, some, List, [], ◌∷◌, arith, any, find,
  keep, map,
}
use go_mediaarchive.Go.Text.{Text, text_eq, text_eq→≡, text_eq_refl}
use go_mediaarchive.Go.Failure.{ok}
use go_mediaarchive.Identity.Username.{Platform}
use go_mediaarchive.Media.Grant.{Item}
use go_mediaarchive.Media.Item.{new_item, raw_of, validate_media_item}
use go_mediaarchive.Media.Item.Laws.{IsMimeParser, new_item_idem}
use go_mediaarchive.Store.Tables.{Database, World, ItemRow, AuthorRow}
use go_mediaarchive.Store.Statements.Success.{
  Succeeds, >>=-Succeeds, exec-Succeeds, transaction-Succeeds,
}
use go_mediaarchive.Store.Items.Rows.{
  item_row_of, raw_of_row, changed_item, change_item, drop_item_authors,
}
use go_mediaarchive.Store.Items.Authors.{
  author_rows, with_authors, insert_authors-Succeeds, author_names-author_rows,
}
use go_mediaarchive.Store.Items.Reading.{Stored, new_item-keeps}
use go_mediaarchive.Store.Items.Creation.{find_item-calm}
use go_mediaarchive.Store.Items.{update_item, find_item}

-- The tables with the row of the item changed, and its authors in the place of the old ones.
abbrev with_update : Item → Database → Database
with_update i db = with_authors i.id 0 i.authors (record db {
  items = map (changed_item i) db.items;
  authors = keep (λ r. not (text_eq r.media_id i.id)) db.authors;
})

changed_rows :
    (i : Item) (before first second : Database)
    → change_item i before ≡ ok first
    → ok (drop_item_authors i.id first) ≡ ok second
    → second ≡ record before {
      items = map (changed_item i) before.items;
      authors = keep (λ r. not (text_eq r.media_id i.id)) before.authors;
    }
unfolding change_item drop_item_authors
changed_rows i before first second h k = ground arith

update_item-Succeeds :
    (g : Platform) (candidate : Item) (w w' : World)
    → Succeeds (update_item g candidate) w tt w'
    → (i : Item) × (validate_media_item g candidate ≡ ok i) × (w'.db ≡ with_update i w.db)
unfolding update_item
update_item-Succeeds g candidate w w' h =
    let (i, x, valid, rest) = >>=-Succeeds _ _ w tt w' h in
    let (u, v, same, _, body, after, _) = transaction-Succeeds _ x tt w' rest in
    let (_, a, changed, r1) = >>=-Succeeds _ _ u tt v body in
    let (_, b, dropped, authors) = >>=-Succeeds _ _ a tt v r1 in
    let whole : u.db ≡ w.db = same ∙ sym (ap (λ p. p.1.db) valid) in
    let rows =
      changed_rows i w.db a.db b.db
        (subst (λ d. change_item i d ≡ ok a.db) whole (exec-Succeeds (change_item i) u a changed).0)
        (exec-Succeeds (λ db. ok (drop_item_authors i.id db)) a b dropped).0 in
    (
      i,
      ap (λ p. p.0) valid,
      after
          ∙ insert_authors-Succeeds i.id 0 i.authors b v authors
          ∙ ap (with_authors i.id 0 i.authors) rows,
    )

find-changed :
    (i : Item) (rows : List ItemRow) (row : ItemRow)
    → find (λ r. text_eq r.id i.id) rows ≡ some row
    → row.owner_id ≡ i.owner_id
    → row.created_at ≡ i.created_at
    → find (λ r. text_eq r.id i.id) (map (changed_item i) rows) ≡ some (item_row_of i)
find-changed i [] row h o c = cc
find-changed i (r ∷ rows) row h o c = ground (arith, text_eq→≡ r.id i.id, find-changed i rows row)

no_old_authors :
    (id : Text) (rows : List AuthorRow)
    → any (λ r. text_eq r.media_id id) (keep (λ r. not (text_eq r.media_id id)) rows) ≡ false
no_old_authors id [] = refl
no_old_authors id (r ∷ rows) = ground (arith, no_old_authors id rows)

with_update-Stored :
    (g : Platform) (i : Item) (db : Database) (row : ItemRow)
    → validate_media_item g i ≡ ok i
    → find (λ r. text_eq r.id i.id) db.items ≡ some row
    → row.owner_id ≡ i.owner_id
    → row.created_at ≡ i.created_at
    → Stored g i.id (with_update i db) i
unfolding validate_media_item
with_update-Stored g i db row valid there o c = record {
  row = item_row_of i;
  found = find-changed i db.items row there o c;
  valid =
      ap (λ names. new_item g (raw_of_row (item_row_of i) names))
        (author_names-author_rows i.id (keep (λ r. not (text_eq r.media_id i.id)) db.authors)
          i.authors (no_old_authors i.id db.authors))
      ∙ valid;
}

keep-changed :
    (i : Item) (rows : List ItemRow)
    → keep (λ r. not (text_eq r.id i.id)) (map (changed_item i) rows)
      ≡ keep (λ r. not (text_eq r.id i.id)) rows
keep-changed i [] = refl
keep-changed i (r ∷ rows) = ground (arith, keep-changed i rows)

drop_own :
    (id : Text) (n : ℕ) (names : List Text)
    → keep (λ r. not (text_eq r.media_id id)) (author_rows id n names) ≡ []
unfolding author_rows
drop_own id n [] = refl
drop_own id n (a ∷ names) = ground (arith, drop_own id (n + 1) names, text_eq_refl id)

keep-replaced :
    (id : Text) (rows : List AuthorRow) (names : List Text)
    → keep
        (λ r. not (text_eq r.media_id id))
        (keep (λ r. not (text_eq r.media_id id)) rows ++ author_rows id 0 names)
      ≡ keep (λ r. not (text_eq r.media_id id)) rows
keep-replaced id [] names = drop_own id 0 names
keep-replaced id (r ∷ rows) names = ground (arith, keep-replaced id rows names)

-- The rows of the other items, and those of their authors.
abbrev pub others : Text → Database → List ItemRow × List AuthorRow
others id db =
    (keep (λ r. not (text_eq r.id id)) db.items, keep (λ r. not (text_eq r.media_id id)) db.authors)

others-with_update : (i : Item) (db : Database) → others i.id (with_update i db) ≡ others i.id db
others-with_update i db =
    ground (arith, keep-changed i db.items, keep-replaced i.id db.authors i.authors)

-- After a successful `Update` with an item that keeps the owner and the creation time of the stored row,
-- `FindByID` returns the validated item under its ID, with the new authors in order and none of
-- the old ones, unless the driver fails; the read changes nothing, and the update leaves the rows
-- of all other items and of their authors as they were.
pub find_item-update_item :
    (g : Platform)
    → IsMimeParser g
    → (candidate i : Item) (row : ItemRow) (w w' : World) → validate_media_item g candidate ≡ ok i
    → find (λ r. text_eq r.id candidate.id) w.db.items ≡ some row
    → row.owner_id ≡ i.owner_id
    → row.created_at ≡ i.created_at
    → Succeeds (update_item g candidate) w tt w'
    → w'.faults ≡ []
    → (find_item g candidate.id w' ≡ (ok i, w'))
      × (others candidate.id w'.db ≡ others candidate.id w.db)
unfolding validate_media_item
find_item-update_item g parser candidate i row w w' valid there o c h calm =
    let (j, accepted, rows) = update_item-Succeeds g candidate w w' h in
    let one : j ≡ i = ground (arith, valid, accepted) in
    let named : i.id ≡ candidate.id = (new_item-keeps g (raw_of candidate) i valid).0 in
    let again = new_item_idem g (raw_of candidate) i parser valid in
    let there' =
      subst (λ id. find (λ r. text_eq r.id id) w.db.items ≡ some row) (sym named) there in
    let stored = with_update-Stored g i w.db row again there' o c in
    let after : w'.db ≡ with_update i w.db = rows ∙ ap (λ k. with_update k w.db) one in
    (
      subst (λ id. find_item g id w' ≡ (ok i, w')) named
          (find_item-calm g i.id i w' calm (subst (λ d. Stored g i.id d i) (sym after) stored)),
      subst (λ id. others id w'.db ≡ others id w.db) named
          (ap (others i.id) after ∙ others-with_update i w.db),
    )
