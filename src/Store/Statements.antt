-- ===== src/Store/Statements.antt =====
-- Single statements and transactions of database/sql on SQLite, as the repositories call them (`BeginTx`,
-- `Commit`, `Rollback`): their documented behaviour, not code of the repository.
pub mod Atomicity
pub mod Success
pub mod Files
pub mod Rollback
use go_mediaarchive.Base.{Bool, true, false, List, [], ◌∷◌, if◌then◌else◌}
use go_mediaarchive.Go.Failure.{Result, ok, err, driver}
use go_mediaarchive.Go.Action.{Action}
use go_mediaarchive.Store.Tables.{Database, World}

-- The driver carries out one command, or fails.
unfoldable pub statement : Action World (Unit {0})
statement w = elim w.faults [
  | [] ↦ (ok tt, w)
  | fault ∷ rest ↦ (if fault then err (driver ∷ []) else ok tt, record w { faults = rest })
]

-- `QueryContext`: a read of the tables.
unfoldable pub query : {A : Type 0} → (Database → Result A) → Action World A
query f w = let (r, w') = statement w in elim r [ ok _ ↦ (f w'.db, w') | err e ↦ (err e, w') ]

unfoldable pub store_result : Result Database → World → Result (Unit {0}) × World
store_result (ok db) w = (ok tt, record w { db = db })
store_result (err e) w = (err e, w)

-- `ExecContext`: a change of the tables, refused as a whole where a constraint is violated.
unfoldable pub exec : (Database → Result Database) → Action World (Unit {0})
unfolding store_result
exec f w =
    let (r, w') = statement w in elim r [ ok _ ↦ store_result (f w'.db) w' | err e ↦ (err e, w') ]

unfoldable pub commit : {A : Type 0} → Database → A → World → Result A × World
commit before a w =
    let (r, w') = statement w in
    elim r [ ok _ ↦ (ok a, w') | err e ↦ (err e, record w' { db = before }) ]

unfoldable pub finish : {A : Type 0} → Database → Result A → World → Result A × World
finish before (ok a) w = commit before a w
finish before (err e) w = (err e, record w { db = before })

-- `BeginTx`, the body, and then `Commit`, or the deferred `Rollback` on an error.
unfoldable pub transaction : {A : Type 0} → Action World A → Action World A
unfolding commit finish
transaction body w =
    let (r, w') = statement w in
    elim r [ ok _ ↦ (let (q, w'') = body w' in finish w'.db q w'') | err e ↦ (err e, w') ]

unfoldable pub finish_or_return : Database → Result Bool → World → Result Bool × World
finish_or_return before (ok true) w = commit before true w
finish_or_return before (ok false) w = (ok false, record w { db = before })
finish_or_return before (err e) w = (err e, record w { db = before })

-- A body that may return `false` before the commit: the deferred `Rollback` then undoes it.
unfoldable pub transaction_or_return : Action World Bool → Action World Bool
unfolding commit finish_or_return
transaction_or_return body w =
    let (r, w') = statement w in
    elim r [ ok _ ↦ (let (q, w'') = body w' in finish_or_return w'.db q w'') | err e ↦ (err e, w') ]
