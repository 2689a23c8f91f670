-- ===== src/Store/Users/Effects.antt =====
-- What a successful call of the user repository has done to the tables.
use go_mediaarchive.Base.{
  ℕ, ◌≡◌, Bool, true, false, not, ◌&&◌, Option, none, some, [], ◌∷◌, leb, arith, find,
}
use go_mediaarchive.Go.Text.{Text, text_eq}
use go_mediaarchive.Go.Failure.{Result, ok, last_administrator}
use go_mediaarchive.Identity.Username.{Platform}
use go_mediaarchive.Identity.User.{User}
use go_mediaarchive.Audit.{Event, new_event}
use go_mediaarchive.Store.Tables.{Database, World}
use go_mediaarchive.Store.Statements.Success.{
  Succeeds, SameRest, >>=-Succeeds, query-Succeeds, exec-Succeeds, fail_if-Succeeds,
  transaction-Succeeds,
}
use go_mediaarchive.Store.Events.{add_event, insert_audit_event, insert_optional_event}
use go_mediaarchive.Store.Users.Rows.{
  add_user, change_user, is_active_admin, one_row, count_administrators,
}
use go_mediaarchive.Store.Users.{
  create_with_audit, find_user_by_id, guard_administrators, update_preserving,
}

-- The event that a call was given passed validation, and is the newest row.
abbrev pub Recorded : Platform → Option Event → Database → Database → Type 0
Recorded g none before after = after ≡ before
Recorded g (some e) before after = (new_event g e ≡ ok e) × (add_event e before ≡ ok after)

new_event-same : (g : Platform) (e f : Event) → new_event g e ≡ ok f → f ≡ e
unfolding new_event
new_event-same g e f h = ground arith

pub insert_audit_event-Succeeds :
    (g : Platform) (e : Event) (w w' : World)
    → Succeeds (insert_audit_event g e) w tt w'
    → Recorded g (some e) w.db w'.db
unfolding insert_audit_event
insert_audit_event-Succeeds g e w w' h =
    let (f, v, a, b) = >>=-Succeeds _ _ w tt w' h in
    let r = exec-Succeeds (add_event f) v w' b in ground (arith, a, r, new_event-same g e f)

pub insert_optional_event-Succeeds :
    (g : Platform) (e : Option Event) (w w' : World)
    → Succeeds (insert_optional_event g e) w tt w'
    → Recorded g e w.db w'.db
unfolding insert_optional_event
insert_optional_event-Succeeds g none w w' h = ground arith
insert_optional_event-Succeeds g (some e) w w' h = insert_audit_event-Succeeds g e w w' h

-- A created user: a new row under a free ID and username, and its event.
pub create_with_audit-Succeeds :
    (g : Platform) (user : User) (event : Event) (w w' : World)
    → Succeeds (create_with_audit g user event) w tt w'
    → (db : Database) × (add_user user w.db ≡ ok db) × Recorded g (some event) db w'.db
unfolding create_with_audit
create_with_audit-Succeeds g user event w w' h =
    let (u, v, same, _, body, after, _) = transaction-Succeeds _ w tt w' h in
    let (_, x, inserted, recorded) = >>=-Succeeds _ _ u tt v body in
    let i = exec-Succeeds (add_user user) u x inserted in
    let r = insert_audit_event-Succeeds g event x v recorded in
    (x.db, ground (arith, i, same), ground (arith, r, after))

pub guard_administrators-Succeeds :
    (b : Bool) (w w' : World)
    → Succeeds (guard_administrators b) w tt w'
    → (w'.db ≡ w.db) × SameRest w' w × ((b && leb (count_administrators w.db) 1) ≡ false)
unfolding guard_administrators
guard_administrators-Succeeds false w w' h = ground arith
guard_administrators-Succeeds true w w' h =
    let read : Database → Result ℕ = λ db. ok (count_administrators db) in
    let (n, v, a, b) = >>=-Succeeds _ _ w tt w' h in
    let q = query-Succeeds read w n v a in
    let f = fail_if-Succeeds (leb n 1) (last_administrator ∷ []) v w' b in ground (arith, q, f)

-- An update that the repository accepts: the row that it found does not leave the archive without an
-- administrator, and the named columns of that row have changed.
pub record Updated (user : User) (before after : Database) : Type 0 where
  pub existing : User
  pub found : find (λ u. text_eq u.id user.id) before.users ≡ some existing
  pub guarded :
      (is_active_admin existing
        && not (is_active_admin user)
        && leb (count_administrators before) 1)
      ≡ false
  pub changed : change_user user before ≡ ok after

one_row-ok : (o : Option User) (u : User) → one_row o ≡ ok u → o ≡ some u
one_row-ok none u h = cc
one_row-ok (some v) u h = ground arith

pub find_user_by_id-Succeeds :
    (id : Text) (w : World) (u : User) (w' : World)
    → Succeeds (find_user_by_id id) w u w'
    → (find (λ u. text_eq u.id id) w.db.users ≡ some u) × (w'.db ≡ w.db) × SameRest w' w
unfolding find_user_by_id
find_user_by_id-Succeeds id w u w' h =
    let q = query-Succeeds (λ db. one_row (find (λ u. text_eq u.id id) db.users)) w u w' h in
    (one_row-ok (find (λ u. text_eq u.id id) w.db.users) u q.0, q.1, q.2)

-- A successful update of a user found the row of that ID, did not leave the archive without an active
-- administrator, changed the named columns of that row under a free username, and added the event that
-- it was given, if any, which passed validation; it changed nothing else in the tables.
pub update_preserving-Succeeds :
    (g : Platform) (user : User) (event : Option Event) (w w' : World)
    → Succeeds (update_preserving g user event) w tt w'
    → (db : Database) × Updated user w.db db × Recorded g event db w'.db
unfolding update_preserving
update_preserving-Succeeds g user event w w' h =
    let (u, v, same, _, body, after, _) = transaction-Succeeds _ w tt w' h in
    let (existing, u1, b1, rest) = >>=-Succeeds _ _ u tt v body in
    let f = find_user_by_id-Succeeds user.id u existing u1 b1 in
    let (_, u2, b2, rest2) = >>=-Succeeds _ _ u1 tt v rest in
    let c =
      guard_administrators-Succeeds (is_active_admin existing && not (is_active_admin user)) u1 u2
        b2 in
    let (_, u3, b3, b4) = >>=-Succeeds _ _ u2 tt v rest2 in
    let d = exec-Succeeds (change_user user) u2 u3 b3 in
    let r = insert_optional_event-Succeeds g event u3 v b4 in
    (
      u3.db,
      record {
        existing = existing;
        found = ground (arith, f, same);
        guarded = ground (arith, f, c, same);
        changed = ground (arith, f, c, d, same);
      },
      ground (arith, r, after),
    )
