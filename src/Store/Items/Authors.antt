-- ===== src/Store/Items/Authors.antt =====
-- internal/storage/sqlite/media_repository.go: the authors of an item are read in the order in which
-- they were written.
use go_mediaarchive.Base.{
  ℕ, ◌+◌, ◌≡◌, refl, sym, ap, ◌∙◌, false, List, [], ◌∷◌, ◌++◌, arith, map, any, keep,
}
use go_mediaarchive.Go.Text.{Text, text_eq, text_eq_refl}
use go_mediaarchive.Go.Failure.{ok}
use go_mediaarchive.Store.Tables.{Database, World, AuthorRow}
use go_mediaarchive.Store.Statements.Success.{Succeeds, >>=-Succeeds, exec-Succeeds}
use go_mediaarchive.Store.Items.Rows.{add_author, place, by_position, author_names}
use go_mediaarchive.Store.Items.{insert_authors}

-- The rows of the authors of an item, from a position on.
unfoldable pub author_rows : Text → ℕ → List Text → List AuthorRow
author_rows id n [] = []
author_rows id n (a ∷ names) =
    record { media_id = id; position = n; name = a } ∷ author_rows id (n + 1) names

abbrev pub with_authors : Text → ℕ → List Text → Database → Database
with_authors id n names db = record db { authors = db.authors ++ author_rows id n names }

-- The tables with other rows of authors.
abbrev authors_of : Database → List AuthorRow → Database
authors_of db rows = record db { authors = rows }

append_assoc : (xs ys zs : List AuthorRow) → (xs ++ ys) ++ zs ≡ xs ++ (ys ++ zs)
append_assoc [] ys zs = refl
append_assoc (x ∷ xs) ys zs = ap (λ l. x ∷ l) (append_assoc xs ys zs)

append_nil : (xs : List AuthorRow) → xs ++ [] ≡ xs
append_nil [] = refl
append_nil (x ∷ xs) = ap (λ l. x ∷ l) (append_nil xs)

add_author-ok :
    (id : Text) (n : ℕ) (a : Text) (before after : Database)
    → add_author id n a before ≡ ok after
    → after ≡ record before {
      authors = before.authors ++ (record { media_id = id; position = n; name = a } ∷ []);
    }
unfolding add_author
add_author-ok id n a before after h = ground arith

pub insert_authors-Succeeds :
    (id : Text) (n : ℕ) (names : List Text) (w w' : World)
    → Succeeds (insert_authors id n names) w tt w'
    → w'.db ≡ with_authors id n names w.db
unfolding insert_authors author_rows
insert_authors-Succeeds id n [] w w' h =
    ap (λ p. p.1.db) (sym h) ∙ ap (authors_of w.db) (sym (append_nil w.db.authors))
insert_authors-Succeeds id n (a ∷ names) w w' h =
    let (_, v, first, rest) = >>=-Succeeds _ _ w tt w' h in
    let one = add_author-ok id n a w.db v.db (exec-Succeeds (add_author id n a) w v first).0 in
    insert_authors-Succeeds id (n + 1) names v w' rest
    ∙ ap (with_authors id (n + 1) names) one
    ∙ ap (authors_of w.db) (
        append_assoc w.db.authors (record { media_id = id; position = n; name = a } ∷ [])
          (author_rows id (n + 1) names))

keep_others :
    (id : Text) (rows added : List AuthorRow)
    → any (λ r. text_eq r.media_id id) rows ≡ false
    → keep (λ r. text_eq r.media_id id) (rows ++ added) ≡ keep (λ r. text_eq r.media_id id) added
keep_others id [] added h = refl
keep_others id (r ∷ rows) added h = ground (arith, keep_others id rows added)

keep_own :
    (id : Text) (n : ℕ) (names : List Text)
    → keep (λ r. text_eq r.media_id id) (author_rows id n names) ≡ author_rows id n names
unfolding author_rows
keep_own id n [] = refl
keep_own id n (a ∷ names) = ground (arith, keep_own id (n + 1) names, text_eq_refl id)

place_first :
    (id : Text) (n : ℕ) (a : Text) (names : List Text)
    → place (record { media_id = id; position = n; name = a }) (author_rows id (n + 1) names)
      ≡ record { media_id = id; position = n; name = a } ∷ author_rows id (n + 1) names
unfolding author_rows place
place_first id n a [] = refl
place_first id n a (b ∷ names) = ground arith

by_position-author_rows :
    (id : Text) (n : ℕ) (names : List Text)
    → by_position (author_rows id n names) ≡ author_rows id n names
unfolding author_rows by_position
by_position-author_rows id n [] = refl
by_position-author_rows id n (a ∷ names) =
    ap (place (record { media_id = id; position = n; name = a }))
      (by_position-author_rows id (n + 1) names)
    ∙ place_first id n a names

map-author_rows :
    (id : Text) (n : ℕ) (names : List Text) → map (λ r. r.name) (author_rows id n names) ≡ names
unfolding author_rows
map-author_rows id n [] = refl
map-author_rows id n (a ∷ names) = ap (λ l. a ∷ l) (map-author_rows id (n + 1) names)

-- The names that are read are those that were written, where the item had no authors.
pub author_names-author_rows :
    (id : Text) (rows : List AuthorRow) (names : List Text)
    → any (λ r. text_eq r.media_id id) rows ≡ false
    → author_names id (rows ++ author_rows id 0 names) ≡ names
unfolding author_names
author_names-author_rows id rows names h =
    ap (λ l. map (λ r. r.name) (by_position l))
      (keep_others id rows (author_rows id 0 names) h ∙ keep_own id 0 names)
    ∙ ap (map (λ r. r.name)) (by_position-author_rows id 0 names)
    ∙ map-author_rows id 0 names
