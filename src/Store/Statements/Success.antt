-- ===== src/Store/Statements/Success.antt =====
-- What the success of an action says about its parts.
use go_mediaarchive.Base.{◌≡◌, refl, sym, ap, subst, ◌∙◌, Bool, true, false, ◌⊎◌, inl, arith}
use go_mediaarchive.Go.Failure.{Result, ok, err, Error}
use go_mediaarchive.Go.Action.{Action, ◌>>=◌, fail_if}
use go_mediaarchive.Store.Tables.{Database, World}
use go_mediaarchive.Store.Statements.{
  statement, query, exec, transaction, finish, commit, finish_or_return, transaction_or_return,
}
use go_mediaarchive.Store.Statements.Atomicity.{statement_keeps, transaction_atomic}

-- The parts of a world that only services change.
abbrev pub SameRest : World → World → Type 0
SameRest v w = (v.event_ids ≡ w.event_ids) × (v.selected ≡ w.selected)

-- The action succeeded with `a`, and left `w'`.
abbrev pub Succeeds : {A : Type 0} → Action World A → World → A → World → Type 0
Succeeds m w a w' = m w ≡ (ok a, w')

pub >>=-Succeeds :
    {A B : Type 0} (m : Action World A) (f : A → Action World B) (w : World) (b : B) (w' : World)
    → Succeeds (m >>= f) w b w'
    → (a : A) × (v : World) × Succeeds m w a v × Succeeds (f a) v b w'
unfolding ◌>>=◌
>>=-Succeeds {A = A} {B = B} m f w b w' h = go (m w) refl h
  where
    go :
        (p : Result A × World)
        → m w ≡ p
        → (let (r, s') = p in elim r [ ok a ↦ f a s' | err e ↦ (err e, s') ]) ≡ (ok b, w')
        → (a : A) × (v : World) × Succeeds m w a v × Succeeds (f a) v b w'
    go (ok a, v) e k = (a, v, e, k)
    go (err x, v) e k = cc

pub query-Succeeds :
    {A : Type 0} (f : Database → Result A) (w : World) (a : A) (w' : World)
    → Succeeds (query f) w a w'
    → (f w.db ≡ ok a) × (w'.db ≡ w.db) × SameRest w' w
unfolding query
query-Succeeds f w a w' h = ground (arith, statement_keeps w)

pub exec-Succeeds :
    (f : Database → Result Database) (w w' : World)
    → Succeeds (exec f) w tt w'
    → (f w.db ≡ ok w'.db) × SameRest w' w
unfolding exec
exec-Succeeds f w w' h = ground (arith, statement_keeps w)

pub fail_if-Succeeds :
    (b : Bool) (e : Error) (w w' : World) → Succeeds (fail_if b e) w tt w' → (b ≡ false) × (w' ≡ w)
fail_if-Succeeds true e w w' h = cc
fail_if-Succeeds false e w w' h = ground arith

finish-ok :
    {A : Type 0} (before : Database) (r : Result A) (v : World) (a : A) (w' : World)
    → finish before r v ≡ (ok a, w')
    → (r ≡ ok a) × (w'.db ≡ v.db) × SameRest w' v
unfolding finish commit
finish-ok before (ok b) v a w' h = ground (arith, statement_keeps v)
finish-ok before (err e) v a w' h = cc

-- A transaction that succeeds ran its body on the tables that it found, and left what the body left.
pub transaction-Succeeds :
    {A : Type 0} (body : Action World A) (w : World) (a : A) (w' : World)
    → Succeeds (transaction body) w a w'
    → (u : World) × (v : World) × (u.db ≡ w.db)
      × SameRest u w
      × Succeeds body u a v
      × (w'.db ≡ v.db)
      × SameRest w' v
unfolding transaction
transaction-Succeeds body w a w' h =
    let u = (statement w).1 in
    let v = (body u).1 in
    let begun : (statement w).0 ≡ ok tt = ground arith in
    let done : finish u.db (body u).0 v ≡ (ok a, w') = ground (arith, begun) in
    let (r, d, s) = finish-ok u.db (body u).0 v a w' done in
    let k = statement_keeps w in (u, v, k.0, (k.1, k.2), ground (arith, r), d, s)

-- What holds before a transaction holds after it, if it holds after every success.
pub transaction-keeps :
    {A : Type 0} (P : Database → Type 0) (body : Action World A) (w : World)
    → P w.db
    → ((a : A) (w' : World) → Succeeds (transaction body) w a w' → P w'.db)
    → P (transaction body w).1.db
transaction-keeps {A = A} P body w before after = go (transaction body w) refl
  where
    go : (p : Result A × World) → transaction body w ≡ p → P p.1.db
    go (ok a, w') e = after a w' e
    go (err x, w') e =
        let failed : (transaction body w).0 ≡ err x = ap (λ (p : Result A × World). p.0) e in
        let same : w'.db ≡ w.db =
          ap (λ (p : Result A × World). p.1.db) (sym e) ∙ transaction_atomic body w x failed in
        subst P (sym same) before

-- A property of the tables that an action keeps, however it ends.
abbrev pub Keeps : {A : Type 0} → (Database → Type 0) → Action World A → Type 0
Keeps P m = (w : World) → P w.db → P (m w).1.db

return-db :
    (before : Database) (q : Result Bool) (v : World)
    → ((finish_or_return before q v).1.db ≡ before)
      ⊎ ((q ≡ ok true) × ((finish_or_return before q v).1.db ≡ v.db))
unfolding finish_or_return commit
return-db before (ok true) v = ground (arith, statement_keeps v)
return-db before (ok false) v = inl refl
return-db before (err e) v = inl refl

-- A body that may return before the commit changes the tables only if it returns `true`.
pub transaction_or_return-db :
    (body : Action World Bool) (w : World)
    → ((transaction_or_return body w).1.db ≡ w.db)
      ⊎ (((body (statement w).1).0 ≡ ok true)
          × ((transaction_or_return body w).1.db ≡ (body (statement w).1).1.db))
unfolding transaction_or_return
transaction_or_return-db body w = ground (
  arith,
  statement_keeps w,
  return-db (statement w).1.db (body (statement w).1).0 (body (statement w).1).1,
)

return-true :
    (before : Database) (q : Result Bool) (v : World)
    → (finish_or_return before q v).0 ≡ ok true
    → (q ≡ ok true) × ((finish_or_return before q v).1.db ≡ v.db)
unfolding finish_or_return commit
return-true before (ok true) v h = ground (arith, statement_keeps v)
return-true before (ok false) v h = cc
return-true before (err e) v h = cc

pub transaction_or_return-true :
    (body : Action World Bool) (w : World)
    → (transaction_or_return body w).0 ≡ ok true
    → ((body (statement w).1).0 ≡ ok true)
      × ((transaction_or_return body w).1.db ≡ (body (statement w).1).1.db)
unfolding transaction_or_return
transaction_or_return-true body w h = ground (
  arith,
  statement_keeps w,
  return-true (statement w).1.db (body (statement w).1).0 (body (statement w).1).1,
)
