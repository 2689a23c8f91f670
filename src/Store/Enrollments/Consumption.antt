-- ===== src/Store/Enrollments/Consumption.antt =====
-- What a consumed enrollment has done to the tables.
use go_mediaarchive.Base.{
  ◌≡◌, sym, ap, subst, ◌∙◌, true, false, not, ◌||◌, Option, none, some, [], ◌∷◌, arith, find, keep,
}
use go_mediaarchive.Go.Text.{Text, text_eq, text_eq→≡}
use go_mediaarchive.Go.Time.{Time, is_zero, before, to_utc}
use go_mediaarchive.Go.Failure.{ok, enrollment_not_found}
use go_mediaarchive.Identity.Username.{Platform}
use go_mediaarchive.Credential.{PasswordCredential, PasswordEnrollment}
use go_mediaarchive.Audit.{Event}
use go_mediaarchive.Store.Tables.{Database, World}
use go_mediaarchive.Store.Statements.Success.{
  Succeeds, >>=-Succeeds, query-Succeeds, exec-Succeeds, fail_if-Succeeds, transaction-Succeeds,
}
use go_mediaarchive.Store.Users.Effects.{Recorded, insert_optional_event-Succeeds}
use go_mediaarchive.Store.Enrollments.{
  has_credential, refuse_credential, one_enrollment, find_enrollment, add_credential,
  remove_enrollment, consume_row, consume_enrollment,
}

-- A consumption that the repository accepts.
pub record Consumed (hash : Text) (c : PasswordCredential) (now : Time) (before_ after : Database)
    : Type 0 where
  pub row : PasswordEnrollment
  pub found : find (λ r. text_eq r.token_hash hash) before_.enrollments ≡ some row
  pub owner : c.user_id ≡ row.user_id
  pub in_time : before now row.expires_at ≡ true
  pub first : has_credential c.user_id before_ ≡ false
  pub changed : after ≡ record before_ {
    credentials = c ∷ before_.credentials;
    enrollments = keep (λ r. not (text_eq r.token_hash hash)) before_.enrollments;
  }

one_enrollment-ok :
    (o : Option PasswordEnrollment) (e : PasswordEnrollment) → one_enrollment o ≡ ok e → o ≡ some e
one_enrollment-ok none e h = cc
one_enrollment-ok (some d) e h = ground arith

pub find_enrollment-Succeeds :
    (hash : Text) (w : World) (e : PasswordEnrollment) (w' : World)
    → Succeeds (find_enrollment hash) w e w'
    → (find (λ r. text_eq r.token_hash hash) w.db.enrollments ≡ some e) × (w'.db ≡ w.db)
unfolding find_enrollment
find_enrollment-Succeeds hash w e w' h =
    let q =
      query-Succeeds (λ db. one_enrollment (find (λ r. text_eq r.token_hash hash) db.enrollments)) w
        e w' h in
    (one_enrollment-ok (find (λ r. text_eq r.token_hash hash) w.db.enrollments) e q.0, q.1)

added_and_removed :
    (hash : Text) (c : PasswordCredential) (before_ middle after : Database)
    → add_credential c before_ ≡ ok middle
    → remove_enrollment hash middle ≡ ok after
    → (has_credential c.user_id before_ ≡ false)
      × (after ≡ record before_ {
        credentials = c ∷ before_.credentials;
        enrollments = keep (λ r. not (text_eq r.token_hash hash)) before_.enrollments;
      })
unfolding add_credential remove_enrollment
added_and_removed hash c before_ middle after h k = ground arith

consume_row-Succeeds :
    (g : Platform) (hash : Text) (c : PasswordCredential) (now : Time) (event : Option Event)
    (row : PasswordEnrollment) (w w' : World)
    → find (λ r. text_eq r.token_hash hash) w.db.enrollments ≡ some row
    → Succeeds (consume_row g hash c now event row) w tt w'
    → (db : Database) × Consumed hash c now w.db db × Recorded g event db w'.db
unfolding consume_row
consume_row-Succeeds g hash c now event row w w' found h =
    let (_, a, fresh, r1) = >>=-Succeeds _ _ w tt w' h in
    let (_, b, own, r2) = >>=-Succeeds _ _ a tt w' r1 in
    let (_, x, asked, r3) = >>=-Succeeds _ _ b tt w' r2 in
    let (_, y, added, r4) = >>=-Succeeds _ _ x tt w' r3 in
    let (_, z, removed, recorded) = >>=-Succeeds _ _ y tt w' r4 in
    let (timely, one) =
      fail_if-Succeeds (is_zero now || not (before (to_utc now) row.expires_at))
        (enrollment_not_found ∷ []) w a fresh in
    let (same_user, two) = fail_if-Succeeds (not (text_eq c.user_id row.user_id)) [] a b own in
    let (_, three, _) = query-Succeeds (refuse_credential row.user_id) b tt x asked in
    let whole : x.db ≡ w.db = three ∙ ap (λ s. s.db) two ∙ ap (λ s. s.db) one in
    let add =
      subst (λ d. add_credential c d ≡ ok y.db) whole
        (exec-Succeeds (add_credential c) x y added).0 in
    let remove = (exec-Succeeds (remove_enrollment hash) y z removed).0 in
    let (first, changed) = added_and_removed hash c w.db y.db z.db add remove in
    (
      z.db,
      record {
        row = row;
        found = found;
        owner = ground (arith, same_user, text_eq→≡ c.user_id row.user_id);
        in_time = ground (arith, timely);
        first = first;
        changed = changed;
      },
      insert_optional_event-Succeeds g event z w' recorded,
    )

pub consume_enrollment-Succeeds :
    (g : Platform) (hash : Text) (c : PasswordCredential) (now : Time) (event : Option Event)
    (w w' : World)
    → Succeeds (consume_enrollment g hash c now event) w tt w'
    → (db : Database) × Consumed hash c now w.db db × Recorded g event db w'.db
unfolding consume_enrollment
consume_enrollment-Succeeds g hash c now event w w' h =
    let (u, v, same, _, body, after, _) = transaction-Succeeds _ w tt w' h in
    let (row, x, read, rest) = >>=-Succeeds _ _ u tt v body in
    let (found, kept) = find_enrollment-Succeeds hash u row x read in
    let there =
      subst (λ (d : Database). find (λ r. text_eq r.token_hash hash) d.enrollments ≡ some row)
        (sym kept) found in
    let (db, consumed, recorded) = consume_row-Succeeds g hash c now event row x v there rest in
    (
      db,
      subst (λ d. Consumed hash c now d db) (kept ∙ same) consumed,
      subst (Recorded g event db) (sym after) recorded,
    )
