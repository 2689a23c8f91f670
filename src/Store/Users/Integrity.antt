-- ===== src/Store/Users/Integrity.antt =====
-- Every history of calls of the user repository, with failures of the driver at any statement, keeps an
-- active administrator and unique users.
use go_mediaarchive.Base.{◌≤◌, ◌≡◌, sym, subst, Option, none, some, List, [], ◌∷◌, arith, All}
use go_mediaarchive.Go.Text.{Text}
use go_mediaarchive.Go.Action.{Action}
use go_mediaarchive.Identity.Username.{Platform}
use go_mediaarchive.Identity.User.{User}
use go_mediaarchive.Audit.{Event}
use go_mediaarchive.Store.Tables.{Database, World}
use go_mediaarchive.Store.Statements.Success.{transaction-keeps}
use go_mediaarchive.Store.Events.{add_event}
use go_mediaarchive.Store.Users.Rows.{count_administrators}
use go_mediaarchive.Store.Users.Effects.{
  Recorded, create_with_audit-Succeeds, update_preserving-Succeeds,
}
use go_mediaarchive.Store.Users.Deletion.{LeavesTables, delete_preserving-Succeeds}
use go_mediaarchive.Store.Users.Administrators.{
  IsUnique, Updated-administrator, Deleted-administrator, change_user-users, remove_user-users,
  map-IsUnique, keep-IsUnique, add_user-IsUnique,
}
use go_mediaarchive.Store.Users.{
  EventFactory, create_with_audit, update_preserving, delete_preserving,
}

-- The users of an archive in operation.
pub record IsAdministered (db : Database) : Type 0 where
  pub unique : IsUnique db.users
  pub administrator : 1 ≤ count_administrators db

Recorded-users :
    (g : Platform) (e : Option Event) (a b : Database) → Recorded g e a b → b.users ≡ a.users
unfolding add_event
Recorded-users g none a b h = ground arith
Recorded-users g (some e) a b h = ground arith

IsAdministered-users : (a b : Database) → b.users ≡ a.users → IsAdministered a → IsAdministered b
IsAdministered-users a b e h = record {
  unique = subst IsUnique (sym e) h.unique;
  administrator = ground (arith, h.administrator);
}

pub create_with_audit-IsAdministered :
    (g : Platform) (user : User) (event : Event) (w : World)
    → IsAdministered w.db
    → IsAdministered (create_with_audit g user event w).1.db
unfolding create_with_audit
create_with_audit-IsAdministered g user event w h = transaction-keeps IsAdministered _ w h λ a w' s.
    let (db, added, recorded) = create_with_audit-Succeeds g user event w w' s in
    let u = add_user-IsUnique user w.db db added h.unique in
    IsAdministered-users db w'.db (Recorded-users g (some event) db w'.db recorded)
      (record { unique = u.0; administrator = omega (arith, h.administrator, u.1) })

pub update_preserving-IsAdministered :
    (g : Platform) (user : User) (event : Option Event) (w : World)
    → IsAdministered w.db
    → IsAdministered (update_preserving g user event w).1.db
unfolding update_preserving
update_preserving-IsAdministered g user event w h = transaction-keeps IsAdministered _ w h λ a w' s.
    let (db, updated, recorded) = update_preserving-Succeeds g user event w w' s in
    let (rows, free) = change_user-users user w.db db updated.changed in
    IsAdministered-users db w'.db (Recorded-users g event db w'.db recorded) (record {
      unique = subst IsUnique (sym rows) (map-IsUnique user w.db.users h.unique free);
      administrator = Updated-administrator user w.db db h.unique updated h.administrator;
    })

pub delete_preserving-IsAdministered :
    (g : Platform) (id : Text) (factory : Option EventFactory) (w : World)
    → LeavesTables factory
    → IsAdministered w.db
    → IsAdministered (delete_preserving g id factory w).1.db
unfolding delete_preserving
delete_preserving-IsAdministered g id factory w l h =
    transaction-keeps IsAdministered _ w h λ a w' s.
      let (existing, db, deleted, (_, event, _, recorded)) =
        delete_preserving-Succeeds g id factory w w' l s in
      let rows = remove_user-users id w.db db deleted.removed in
      IsAdministered-users db w'.db (Recorded-users g event db w'.db recorded) (record {
        unique = subst IsUnique (sym rows) (keep-IsUnique id w.db.users h.unique);
        administrator = Deleted-administrator id existing w.db db h.unique deleted h.administrator;
      })

-- The calls that change users.
pub data UserCall : Type 0 where
  creates : User → Event → UserCall
  updates : User → Option Event → UserCall
  deletes : Text → Option EventFactory → UserCall

unfoldable pub perform : Platform → UserCall → Action World (Unit {0})
perform g (creates user event) = create_with_audit g user event
perform g (updates user event) = update_preserving g user event
perform g (deletes id factory) = delete_preserving g id factory

-- Each call sees the world that the one before it left, whatever that one returned.
unfoldable pub history : Platform → List UserCall → World → World
unfolding perform
history g [] w = w
history g (c ∷ cs) w = history g cs (perform g c w).1

abbrev pub IsWellMade : UserCall → Type 0
IsWellMade (deletes id factory) = LeavesTables factory
IsWellMade _ = Unit

perform-IsAdministered :
    (g : Platform) (c : UserCall) (w : World)
    → IsWellMade c
    → IsAdministered w.db
    → IsAdministered (perform g c w).1.db
unfolding perform
perform-IsAdministered g (creates user event) w m h =
    create_with_audit-IsAdministered g user event w h
perform-IsAdministered g (updates user event) w m h =
    update_preserving-IsAdministered g user event w h
perform-IsAdministered g (deletes id factory) w m h =
    delete_preserving-IsAdministered g id factory w m h

-- Whatever is created, updated and deleted, in whatever order and with whatever failures of the
-- driver, an archive that has an active administrator keeps one, and no two users ever share an ID or
-- a username.
pub history-IsAdministered :
    (g : Platform) (cs : List UserCall) (w : World)
    → All IsWellMade cs
    → IsAdministered w.db
    → IsAdministered (history g cs w).db
unfolding history
history-IsAdministered g [] w m h = h
history-IsAdministered g (c ∷ cs) w m h =
    history-IsAdministered g cs (perform g c w).1 m.1 (perform-IsAdministered g c w m.0 h)
