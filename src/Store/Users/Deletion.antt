-- ===== src/Store/Users/Deletion.antt =====
-- What a successful deletion of a user has done to the tables.
use go_mediaarchive.Base.{
  ◌≡◌, sym, subst, ◌∙◌, false, ◌&&◌, Option, none, some, [], ◌∷◌, leb, arith, find,
}
use go_mediaarchive.Go.Text.{Text, text_eq}
use go_mediaarchive.Go.Failure.{ok, user_owns_media}
use go_mediaarchive.Identity.Username.{Platform}
use go_mediaarchive.Identity.User.{User}
use go_mediaarchive.Audit.{Event}
use go_mediaarchive.Store.Tables.{Database, World}
use go_mediaarchive.Store.Statements.Success.{
  Succeeds, >>=-Succeeds, query-Succeeds, exec-Succeeds, fail_if-Succeeds, transaction-Succeeds,
}
use go_mediaarchive.Store.Users.Rows.{
  is_active_admin, count_administrators, owns_media, drop_grants, drop_enrollments, drop_sessions,
  drop_credentials, remove_user,
}
use go_mediaarchive.Store.Users.Effects.{
  Recorded, insert_optional_event-Succeeds, guard_administrators-Succeeds, find_user_by_id-Succeeds,
}
use go_mediaarchive.Store.Users.{EventFactory, make_event, guard_ownership, delete_preserving}

-- The tables without the records that belong to the user.
abbrev pub without_records : Text → Database → Database
without_records id db =
    drop_credentials id (drop_sessions id (drop_enrollments id (drop_grants id db)))

-- A deletion that the repository accepts.
pub record Deleted (id : Text) (existing : User) (before after : Database) : Type 0 where
  pub found : find (λ u. text_eq u.id id) before.users ≡ some existing
  pub guarded : (is_active_admin existing && leb (count_administrators before) 1) ≡ false
  pub ownerless : owns_media id before ≡ false
  pub removed : remove_user id (without_records id before) ≡ ok after

-- The factory builds an event and leaves the tables.
abbrev pub LeavesTables : Option EventFactory → Type 0
LeavesTables none = Unit
LeavesTables (some factory) = (user : User) (w : World) → (factory user w).1.db ≡ w.db

-- The event that a deletion records is the one that the factory makes of the row.
abbrev pub MadeBy : Option EventFactory → User → Option Event → World → Type 0
MadeBy none user e w = e ≡ none
MadeBy (some factory) user e w =
    (event : Event) × (e ≡ some event) × ((factory user w).0 ≡ ok event)

make_event-Succeeds :
    (factory : Option EventFactory) (user : User) (w : World) (e : Option Event) (w' : World)
    → LeavesTables factory
    → Succeeds (make_event factory user) w e w'
    → (w'.db ≡ w.db) × MadeBy factory user e w
unfolding make_event
make_event-Succeeds none user w e w' l h = (ground arith, ground arith)
make_event-Succeeds (some factory) user w e w' l h =
    let (event, v, made, returned) = >>=-Succeeds _ _ w e w' h in
    (
      ground (arith, made, returned, l user w),
      (event, ground (arith, returned), ground (arith, made)),
    )

guard_ownership-Succeeds :
    (id : Text) (w w' : World)
    → Succeeds (guard_ownership id) w tt w'
    → (owns_media id w.db ≡ false) × (w'.db ≡ w.db)
unfolding guard_ownership
guard_ownership-Succeeds id w w' h =
    let (b, v, asked, tested) = >>=-Succeeds _ _ w tt w' h in
    let q = query-Succeeds (λ db. ok (owns_media id db)) w b v asked in
    let f = fail_if-Succeeds b (user_owns_media ∷ []) v w' tested in ground (arith, q, f)

no_media :
    (id : Text) (a b c : Database)
    → b ≡ a
    → ok (drop_grants id b) ≡ ok c
    → owns_media id c ≡ false
    → owns_media id a ≡ false
unfolding drop_grants
no_media id a b c p q r = ground arith

all_removed :
    (id : Text) (a b c d e f h k : Database)
    → b ≡ a
    → ok (drop_grants id b) ≡ ok c
    → d ≡ c
    → ok (drop_enrollments id d) ≡ ok e
    → ok (drop_sessions id e) ≡ ok f
    → ok (drop_credentials id f) ≡ ok h
    → remove_user id h ≡ ok k
    → remove_user id (without_records id a) ≡ ok k
all_removed id a b c d e f h k p q r s t u v = cc

-- A successful deletion of a user found the row of that ID, which is not the only active administrator
-- and owns no media, and removed it with the grants, enrollments, sessions and credential of that
-- user; after that it added the event that the factory makes of that row, if there is a factory. It is
-- for factories that leave the tables alone.
pub delete_preserving-Succeeds :
    (g : Platform) (id : Text) (factory : Option EventFactory) (w w' : World)
    → LeavesTables factory
    → Succeeds (delete_preserving g id factory) w tt w'
    → (existing : User) × (db : Database) × Deleted id existing w.db db
      × ((v : World) × (event : Option Event) × MadeBy factory existing event v
          × Recorded g event db w'.db)
unfolding delete_preserving
delete_preserving-Succeeds g id factory w w' l h =
    let (u, v, same, _, body, after, _) = transaction-Succeeds _ w tt w' h in
    let (existing, u1, b1, r1) = >>=-Succeeds _ _ u tt v body in
    let f = find_user_by_id-Succeeds id u existing u1 b1 in
    let (event, u2, b2, r2) = >>=-Succeeds _ _ u1 tt v r1 in
    let m = make_event-Succeeds factory existing u1 event u2 l b2 in
    let (_, u3, b3, r3) = >>=-Succeeds _ _ u2 tt v r2 in
    let c = guard_administrators-Succeeds (is_active_admin existing) u2 u3 b3 in
    let (_, u4, b4, r4) = >>=-Succeeds _ _ u3 tt v r3 in
    let d4 = exec-Succeeds (λ db. ok (drop_grants id db)) u3 u4 b4 in
    let (_, u5, b5, r5) = >>=-Succeeds _ _ u4 tt v r4 in
    let o = guard_ownership-Succeeds id u4 u5 b5 in
    let (_, u6, b6, r6) = >>=-Succeeds _ _ u5 tt v r5 in
    let d6 = exec-Succeeds (λ db. ok (drop_enrollments id db)) u5 u6 b6 in
    let (_, u7, b7, r7) = >>=-Succeeds _ _ u6 tt v r6 in
    let d7 = exec-Succeeds (λ db. ok (drop_sessions id db)) u6 u7 b7 in
    let (_, u8, b8, r8) = >>=-Succeeds _ _ u7 tt v r7 in
    let d8 = exec-Succeeds (λ db. ok (drop_credentials id db)) u7 u8 b8 in
    let (_, u9, b9, r9) = >>=-Succeeds _ _ u8 tt v r8 in
    let d9 = exec-Succeeds (remove_user id) u8 u9 b9 in
    let r = insert_optional_event-Succeeds g event u9 v r9 in
    let start : u3.db ≡ w.db = c.0 ∙ m.0 ∙ f.1 ∙ same in
    (
      existing,
      u9.db,
      record {
        found = subst (λ db. find (λ u. text_eq u.id id) db.users ≡ some existing) same f.0;
        guarded =
            subst (λ db. (is_active_admin existing && leb (count_administrators db) 1) ≡ false)
              (m.0 ∙ f.1 ∙ same) c.2;
        ownerless = no_media id w.db u3.db u4.db start d4.0 o.0;
        removed =
            all_removed id w.db u3.db u4.db u5.db u6.db u7.db u8.db u9.db start d4.0 o.1 d6.0 d7.0
              d8.0 d9.0;
      },
      (u1, event, m.1, subst (Recorded g event u9.db) (sym after) r),
    )
