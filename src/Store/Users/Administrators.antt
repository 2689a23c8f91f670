-- ===== src/Store/Users/Administrators.antt =====
-- The archive keeps an active administrator, and user IDs and usernames stay unique.
use go_mediaarchive.Base.{
  ℕ, ◌+◌, ◌≤◌, ◌≡◌, refl, Bool, true, false, not, ◌&&◌, ◌||◌, some, List, [], ◌∷◌, arith, find, any,
  keep, map,
}
use go_mediaarchive.Go.Text.{Text, text_eq, text_eq→≡, text_eq_refl, text_eq_sym}
use go_mediaarchive.Go.Failure.{ok}
use go_mediaarchive.Identity.User.{User}
use go_mediaarchive.Store.Tables.{Database}
use go_mediaarchive.Store.Users.Rows.{
  add_user, change_user, changed_row, remove_user, is_active_admin, administrators,
  count_administrators, drop_grants, drop_enrollments, drop_sessions, drop_credentials,
}
use go_mediaarchive.Store.Users.Effects.{Updated}
use go_mediaarchive.Store.Users.Deletion.{Deleted, without_records}

-- Two rows collide: the same ID or the same username.
abbrev pub collides : User → User → Bool
collides u v = text_eq v.id u.id || text_eq v.username u.username

abbrev pub IsUnique : List User → Type 0
IsUnique [] = Unit
IsUnique (u ∷ us) = (any (collides u) us ≡ false) × IsUnique us

abbrev pub one : Bool → ℕ
one true = 1
one false = 0

-- The user with this ID has no row here.
abbrev pub is_absent : Text → List User → Bool
is_absent id us = not (any (λ u. text_eq u.id id) us)

absent-any :
    (u : User) (id : Text) (us : List User)
    → any (collides u) us ≡ false
    → text_eq u.id id ≡ true
    → any (λ v. text_eq v.id id) us ≡ false
absent-any u id [] h e = refl
absent-any u id (v ∷ us) h e = ground (arith, text_eq→≡ u.id id, absent-any u id us)

change_absent :
    (user : User) (us : List User)
    → any (λ u. text_eq u.id user.id) us ≡ false
    → map (changed_row user) us ≡ us
unfolding changed_row
change_absent user [] h = refl
change_absent user (u ∷ us) h = ground (arith, change_absent user us)

administrators-change :
    (user existing : User) (us : List User)
    → IsUnique us
    → find (λ u. text_eq u.id user.id) us ≡ some existing
    → administrators (map (changed_row user) us) + one (is_active_admin existing)
      ≡ administrators us + one (is_active_admin user)
unfolding changed_row
administrators-change user existing [] h e = cc
administrators-change user existing (u ∷ us) h e = ground (
  arith,
  administrators-change user existing us h.1,
  absent-any u user.id us h.0,
  change_absent user us,
)

keep_absent :
    (id : Text) (us : List User)
    → any (λ u. text_eq u.id id) us ≡ false
    → keep (λ u. not (text_eq u.id id)) us ≡ us
keep_absent id [] h = refl
keep_absent id (u ∷ us) h = ground (arith, keep_absent id us)

administrators-keep :
    (id : Text) (existing : User) (us : List User)
    → IsUnique us
    → find (λ u. text_eq u.id id) us ≡ some existing
    → administrators (keep (λ u. not (text_eq u.id id)) us) + one (is_active_admin existing)
      ≡ administrators us
administrators-keep id existing [] h e = cc
administrators-keep id existing (u ∷ us) h e =
    ground
      (arith, administrators-keep id existing us h.1, absent-any u id us h.0, keep_absent id us)

without_records-users : (id : Text) (db : Database) → (without_records id db).users ≡ db.users
unfolding drop_grants drop_enrollments drop_sessions drop_credentials
without_records-users id db = refl

-- The rows that remain.
pub remove_user-users :
    (id : Text) (db after : Database)
    → remove_user id (without_records id db) ≡ ok after
    → after.users ≡ keep (λ u. not (text_eq u.id id)) db.users
unfolding remove_user
remove_user-users id db after h = ground (arith, without_records-users id db)

pub change_user-users :
    (user : User) (db after : Database)
    → change_user user db ≡ ok after
    → (after.users ≡ map (changed_row user) db.users)
      × (any (λ u. not (text_eq u.id user.id) && text_eq u.username user.username) db.users ≡ false)
unfolding change_user
change_user-users user db after h = ground arith

-- An accepted update leaves an administrator where there was one.
pub Updated-administrator :
    (user : User) (before after : Database)
    → IsUnique before.users
    → Updated user before after
    → 1 ≤ count_administrators before
    → 1 ≤ count_administrators after
Updated-administrator user before after h u p = ground (
  arith,
  administrators-change user u.existing before.users h u.found,
  change_user-users user before after u.changed,
  u.guarded,
)

-- So does an accepted deletion.
pub Deleted-administrator :
    (id : Text) (existing : User) (before after : Database)
    → IsUnique before.users
    → Deleted id existing before after
    → 1 ≤ count_administrators before
    → 1 ≤ count_administrators after
Deleted-administrator id existing before after h d p = ground (
  arith,
  administrators-keep id existing before.users h d.found,
  remove_user-users id before after d.removed,
  d.guarded,
)

-- A row under a changed key collides with no other, if the change takes no other row's username.
changed-collides :
    (user u : User) (us : List User)
    → any (collides u) us ≡ false
    → (not (text_eq u.id user.id) && text_eq u.username user.username) ≡ false
    → any (λ v. not (text_eq v.id user.id) && text_eq v.username user.username) us ≡ false
    → any (collides (changed_row user u)) (map (changed_row user) us) ≡ false
unfolding changed_row
changed-collides user u [] h a b = refl
changed-collides user u (v ∷ us) h a b = ground (
  arith,
  changed-collides user u us,
  text_eq→≡ v.id user.id,
  text_eq→≡ u.id user.id,
  text_eq_sym v.id u.id,
  text_eq_refl user.id,
  text_eq_sym user.username u.username,
)

pub map-IsUnique :
    (user : User) (us : List User)
    → IsUnique us
    → any (λ v. not (text_eq v.id user.id) && text_eq v.username user.username) us ≡ false
    → IsUnique (map (changed_row user) us)
map-IsUnique user [] h b = tt
map-IsUnique user (u ∷ us) h b =
    ground (arith, changed-collides user u us h.0, map-IsUnique user us h.1)

keep-collides :
    (id : Text) (u : User) (us : List User)
    → any (collides u) us ≡ false
    → any (collides u) (keep (λ v. not (text_eq v.id id)) us) ≡ false
keep-collides id u [] h = refl
keep-collides id u (v ∷ us) h = ground (arith, keep-collides id u us)

pub keep-IsUnique :
    (id : Text) (us : List User) → IsUnique us → IsUnique (keep (λ v. not (text_eq v.id id)) us)
keep-IsUnique id [] h = tt
keep-IsUnique id (u ∷ us) h = ground (arith, keep-collides id u us h.0, keep-IsUnique id us h.1)

pub add_user-IsUnique :
    (user : User) (db after : Database)
    → add_user user db ≡ ok after
    → IsUnique db.users
    → IsUnique after.users × (count_administrators db ≤ count_administrators after)
unfolding add_user
add_user-IsUnique user db after h u = ground arith
