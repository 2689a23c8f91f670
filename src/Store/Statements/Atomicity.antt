-- ===== src/Store/Statements/Atomicity.antt =====
-- A transaction has its whole effect, or none.
use go_mediaarchive.Base.{◌≡◌, refl, arith, inl, inr, ◌⊎◌}
use go_mediaarchive.Go.Failure.{Result, ok, err, Error}
use go_mediaarchive.Go.Action.{Action}
use go_mediaarchive.Store.Tables.{Database, World}
use go_mediaarchive.Store.Statements.{statement, transaction, finish, commit}

pub Result-cases :
    {A : Type 0} (r : Result A) → ((a : A) × (r ≡ ok a)) ⊎ ((e : Error) × (r ≡ err e))
Result-cases (ok a) = inl (a, refl)
Result-cases (err e) = inr (e, refl)

-- A statement by itself changes no table, and leaves the other parts of the world.
pub statement_keeps :
    (w : World)
    → ((statement w).1.db ≡ w.db)
      × ((statement w).1.event_ids ≡ w.event_ids)
      × ((statement w).1.selected ≡ w.selected)
unfolding statement
statement_keeps w = ground arith

finish-db :
    {A : Type 0} (before : Database) (r : Result A) (w : World) (e : Error)
    → (finish before r w).0 ≡ err e
    → (finish before r w).1.db ≡ before
unfolding finish commit
finish-db before (ok a) w e h = ground arith
finish-db before (err x) w e h = refl

-- A transaction that returns an error, from its body, from the driver at any statement, or from
-- the commit, leaves every table as it was.
pub transaction_atomic :
    {A : Type 0} (body : Action World A) (w : World) (e : Error)
    → (transaction body w).0 ≡ err e
    → (transaction body w).1.db ≡ w.db
unfolding transaction
transaction_atomic body w e h = ground (
  arith,
  statement_keeps w,
  finish-db (statement w).1.db (body (statement w).1).0 (body (statement w).1).1 e,
)
