-- ===== src/Store/Items/Removal.antt =====
-- internal/storage/sqlite/media_repository.go: what a deletion of an item takes away.
use go_mediaarchive.Base.{
  ◌≡◌, refl, sym, ap, subst, ◌∙◌, Bool-cases, true, false, not, inl, inr, some, List, [], ◌∷◌,
  arith, any, keep,
}
use go_mediaarchive.Go.Text.{Text, text_eq}
use go_mediaarchive.Go.Failure.{ok}
use go_mediaarchive.Identity.Username.{Platform}
use go_mediaarchive.Content.{Location}
use go_mediaarchive.Audit.{Event}
use go_mediaarchive.Store.Tables.{Database, World}
use go_mediaarchive.Store.Statements.Success.{
  Succeeds, >>=-Succeeds, exec-Succeeds, transaction-Succeeds,
}
use go_mediaarchive.Store.Users.Effects.{Recorded, insert_optional_event-Succeeds}
use go_mediaarchive.Store.Contents.{remove_matching_content, is_content_at}
use go_mediaarchive.Store.Items.Rows.{
  has_item, drop_item_grants, drop_item_authors, remove_item, item_is_referenced,
}
use go_mediaarchive.Store.Items.{delete_item, delete_managed}

-- Every row that belongs to the item is gone, and no other.
pub record ItemRemoved (id : Text) (before after : Database) : Type 0 where
  pub stored : has_item id before.items ≡ true
  pub items : after.items ≡ keep (λ r. not (text_eq r.id id)) before.items
  pub authors : after.authors ≡ keep (λ r. not (text_eq r.media_id id)) before.authors
  pub grants : after.grants ≡ keep (λ r. not (text_eq r.media_id id)) before.grants
  pub contents : after.contents ≡ keep (λ c. not (text_eq c.media_id id)) before.contents
  pub users : after.users ≡ before.users
  pub credentials : after.credentials ≡ before.credentials
  pub enrollments : after.enrollments ≡ before.enrollments
  pub sessions : after.sessions ≡ before.sessions
  pub events : after.events ≡ before.events

-- Rows of contents, none of which belongs to the item.
keep_contents :
    (id : Text) (rows : List Location)
    → any (λ c. text_eq c.media_id id) rows ≡ false
    → rows ≡ keep (λ c. not (text_eq c.media_id id)) rows
keep_contents id [] h = refl
keep_contents id (c ∷ rows) h = ground (arith, keep_contents id rows)

-- If the one key was all that the item had, the rows that are left are those of other items.
keep_other_contents :
    (id key : Text) (rows : List Location)
    → any (λ c. text_eq c.media_id id) (keep (λ c. not (is_content_at id key c)) rows) ≡ false
    → keep (λ c. not (is_content_at id key c)) rows ≡ keep (λ c. not (text_eq c.media_id id)) rows
keep_other_contents id key [] h = refl
keep_other_contents id key (c ∷ rows) h = elim (Bool-cases (text_eq c.media_id id)) [
  | inr q ↦ ground (arith, q, keep_other_contents id key rows)
  | inl q ↦ elim (Bool-cases (text_eq c.storage_key key)) [
    | inl k ↦ ground (arith, q, k, keep_other_contents id key rows)
    | inr k ↦ ground (arith, q, k)
  ]
]

remove_item-removes :
    (id : Text) (before middle after : Database)
    → middle ≡ drop_item_authors id (drop_item_grants id before)
    → remove_item id middle ≡ ok after
    → ItemRemoved id before after
unfolding remove_item item_is_referenced drop_item_authors drop_item_grants
remove_item-removes id before middle after same h =
    let removed : (has_item id middle.items ≡ true)
        × (any (λ c. text_eq c.media_id id) middle.contents ≡ false)
        × (after ≡ record middle { items = keep (λ r. not (text_eq r.id id)) middle.items }) =
      ground arith in
    let (there, alone, whole) = removed in
    record {
      stored = ground (arith, there, same);
      items = ground (arith, whole, same);
      authors = ground (arith, whole, same);
      grants = ground (arith, whole, same);
      contents =
          ap (λ d. d.contents) whole
          ∙ keep_contents id middle.contents alone
          ∙ ap (λ d. keep (λ c. not (text_eq c.media_id id)) d.contents) same;
      users = ground (arith, whole, same);
      credentials = ground (arith, whole, same);
      enrollments = ground (arith, whole, same);
      sessions = ground (arith, whole, same);
      events = ground (arith, whole, same);
    }

exec_ok : (f : Database → Database) (w v : World) → (ok (f w.db) ≡ ok v.db) → v.db ≡ f w.db
exec_ok f w v h = ground (arith, h)

pub delete_item-Succeeds :
    (g : Platform) (id : Text) (event : Event) (w w' : World)
    → Succeeds (delete_item g id (some event)) w tt w'
    → (db : Database) × ItemRemoved id w.db db × Recorded g (some event) db w'.db
unfolding delete_item
delete_item-Succeeds g id event w w' h =
    let (u, v, same, _, body, after, _) = transaction-Succeeds _ w tt w' h in
    let (_, a, grants, r1) = >>=-Succeeds _ _ u tt v body in
    let (_, b, authors, r2) = >>=-Succeeds _ _ a tt v r1 in
    let (_, c, item, recorded) = >>=-Succeeds _ _ b tt v r2 in
    let p =
      exec_ok (drop_item_grants id) u a
        (exec-Succeeds (λ d. ok (drop_item_grants id d)) u a grants).0 in
    let q =
      exec_ok (drop_item_authors id) a b
        (exec-Succeeds (λ d. ok (drop_item_authors id d)) a b authors).0 in
    let r = (exec-Succeeds (remove_item id) b c item).0 in
    (
      c.db,
      remove_item-removes id w.db b.db c.db
          (q ∙ ap (drop_item_authors id) (p ∙ ap (drop_item_grants id) same)) r,
      subst (Recorded g (some event) c.db) (sym after)
          (insert_optional_event-Succeeds g (some event) c v recorded),
    )

matched :
    (id key : Text) (before first : Database)
    → remove_matching_content id key before ≡ ok first
    → first ≡ record before { contents = keep (λ c. not (is_content_at id key c)) before.contents }
unfolding remove_matching_content
matched id key before first h = ground arith

managed-removes :
    (id key : Text) (before first middle after : Database)
    → remove_matching_content id key before ≡ ok first
    → middle ≡ drop_item_authors id (drop_item_grants id first)
    → remove_item id middle ≡ ok after
    → ItemRemoved id before after
unfolding remove_item item_is_referenced drop_item_authors drop_item_grants
managed-removes id key before first middle after h same k =
    let m = matched id key before first h in
    let r = remove_item-removes id first middle after same k in
    let alone : any (λ c. text_eq c.media_id id) first.contents ≡ false = ground (arith, k, same) in
    let only =
      keep_other_contents id key before.contents
        (subst (λ (d : Database). any (λ c. text_eq c.media_id id) d.contents ≡ false) m alone) in
    let contents =
      r.contents ∙ sym (keep_contents id first.contents alone) ∙ ap (λ d. d.contents) m ∙ only in
    record {
      stored = ground (arith, r.stored, m);
      items = ground (arith, r.items, m);
      authors = ground (arith, r.authors, m);
      grants = ground (arith, r.grants, m);
      contents = contents;
      users = r.users ∙ ap (λ d. d.users) m;
      credentials = r.credentials ∙ ap (λ d. d.credentials) m;
      enrollments = r.enrollments ∙ ap (λ d. d.enrollments) m;
      sessions = r.sessions ∙ ap (λ d. d.sessions) m;
      events = r.events ∙ ap (λ d. d.events) m;
    }

pub delete_managed-Succeeds :
    (g : Platform) (id key : Text) (event : Event) (w w' : World)
    → Succeeds (delete_managed g id key (some event)) w tt w'
    → (db : Database) × ItemRemoved id w.db db × Recorded g (some event) db w'.db
unfolding delete_managed
delete_managed-Succeeds g id key event w w' h =
    let (u, v, same, _, body, after, _) = transaction-Succeeds _ w tt w' h in
    let (_, z, content, r0) = >>=-Succeeds _ _ u tt v body in
    let (_, a, grants, r1) = >>=-Succeeds _ _ z tt v r0 in
    let (_, b, authors, r2) = >>=-Succeeds _ _ a tt v r1 in
    let (_, c, item, recorded) = >>=-Succeeds _ _ b tt v r2 in
    let o = (exec-Succeeds (remove_matching_content id key) u z content).0 in
    let p =
      exec_ok (drop_item_grants id) z a
        (exec-Succeeds (λ d. ok (drop_item_grants id d)) z a grants).0 in
    let q =
      exec_ok (drop_item_authors id) a b
        (exec-Succeeds (λ d. ok (drop_item_authors id d)) a b authors).0 in
    let r = (exec-Succeeds (remove_item id) b c item).0 in
    (
      c.db,
      managed-removes id key w.db z.db b.db c.db
          (subst (λ d. remove_matching_content id key d ≡ ok z.db) same o)
          (q ∙ ap (drop_item_authors id) p) r,
      subst (Recorded g (some event) c.db) (sym after)
          (insert_optional_event-Succeeds g (some event) c v recorded),
    )
