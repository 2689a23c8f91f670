-- ===== src/Store/Statements/Rollback.antt =====
-- Actions whose error leaves the tables as they were.
use go_mediaarchive.Base.{◌≡◌, refl, sym, ap, ◌∙◌, Bool, true, false, ◌⊎◌, inl, inr, arith}
use go_mediaarchive.Go.Failure.{Result, ok, err, Error}
use go_mediaarchive.Go.Action.{Action, ◌>>=◌, fail_if, catch}
use go_mediaarchive.Store.Tables.{World}
use go_mediaarchive.Store.Statements.{transaction}
use go_mediaarchive.Store.Statements.Atomicity.{transaction_atomic}

abbrev pub KeepsTables : {A : Type 0} → Action World A → Type 0
KeepsTables m = (w : World) → (m w).1.db ≡ w.db

abbrev pub RollsBack : {A : Type 0} → Action World A → Type 0
RollsBack m = (w : World) (e : Error) (v : World) → m w ≡ (err e, v) → v.db ≡ w.db

pub KeepsTables-RollsBack : {A : Type 0} (m : Action World A) → KeepsTables m → RollsBack m
KeepsTables-RollsBack m keeps w e v h = ap (λ p. p.1.db) (sym h) ∙ keeps w

pub transaction-RollsBack : {A : Type 0} (body : Action World A) → RollsBack (transaction body)
transaction-RollsBack body w e v h =
    ap (λ p. p.1.db) (sym h) ∙ transaction_atomic body w e (ap (λ p. p.0) h)

pub fail_if-KeepsTables : (b : Bool) (e : Error) → KeepsTables (fail_if b e)
fail_if-KeepsTables true e w = refl
fail_if-KeepsTables false e w = refl

pub >>=-KeepsTables :
    {A B : Type 0} (m : Action World A) (f : A → Action World B)
    → KeepsTables m
    → ((a : A) → KeepsTables (f a))
    → KeepsTables (m >>= f)
unfolding ◌>>=◌
>>=-KeepsTables {A = A} {B = B} m f first rest w = go (m w) (first w)
  where
    go :
        (p : Result A × World)
        → p.1.db ≡ w.db
        → (let (r, s') = p in
            elim r as (λ _. Result B × World) [ ok a ↦ f a s' | err e ↦ (err e, s') ]).1.db
          ≡ w.db
    go (ok a, v) h = rest a v ∙ h
    go (err e, v) h = h

pub catch-KeepsTables :
    {A B : Type 0} (m : Action World A) (k : Error → Action World B) (f : A → Action World B)
    → KeepsTables m
    → ((e : Error) → KeepsTables (k e))
    → ((a : A) → KeepsTables (f a))
    → KeepsTables (catch m k f)
unfolding catch
catch-KeepsTables {A = A} {B = B} m k f first failed rest w = go (m w) (first w)
  where
    go :
        (p : Result A × World)
        → p.1.db ≡ w.db
        → (let (r, s') = p in
            elim r as (λ _. Result B × World) [ ok a ↦ f a s' | err e ↦ k e s' ]).1.db
          ≡ w.db
    go (ok a, v) h = rest a v ∙ h
    go (err e, v) h = failed e v ∙ h

-- The error of a chain is that of its first part, or of the rest.
pub >>=-fails :
    {A B : Type 0} (m : Action World A) (f : A → Action World B) (w : World) (e : Error) (v : World)
    → (m >>= f) w ≡ (err e, v)
    → (m w ≡ (err e, v)) ⊎ ((a : A) × (u : World) × (m w ≡ (ok a, u)) × (f a u ≡ (err e, v)))
unfolding ◌>>=◌
>>=-fails {A = A} {B = B} m f w e v h = go (m w) refl h
  where
    go :
        (p : Result A × World)
        → m w ≡ p
        → (let (r, s') = p in
            elim r as (λ _. Result B × World) [ ok a ↦ f a s' | err e ↦ (err e, s') ])
          ≡ (err e, v)
        → (m w ≡ (err e, v)) ⊎ ((a : A) × (u : World) × (m w ≡ (ok a, u)) × (f a u ≡ (err e, v)))
    go (ok a, u) q k = inr (a, u, q, k)
    go (err x, u) q k = inl (ground (arith, q, k))

-- A part that changes nothing, and then one that rolls back.
pub >>=-RollsBack :
    {A B : Type 0} (m : Action World A) (f : A → Action World B)
    → KeepsTables m
    → ((a : A) → RollsBack (f a))
    → RollsBack (m >>= f)
>>=-RollsBack m f keeps back w e v h = elim (>>=-fails m f w e v h) [
  | inl failed ↦ KeepsTables-RollsBack m keeps w e v failed
  | inr (a, u, done, failed) ↦ back a u e v failed ∙ ap (λ p. p.1.db) (sym done) ∙ keeps w
]

-- A part that rolls back, and then one that cannot fail.
pub >>=-RollsBack_first :
    {A B : Type 0} (m : Action World A) (f : A → B)
    → RollsBack m
    → RollsBack (m >>= λ a v. (ok (f a), v))
>>=-RollsBack_first m f back w e v h = elim (>>=-fails m (λ a v. (ok (f a), v)) w e v h) [
  | inl failed ↦ back w e v failed
  | inr (a, u, done, failed) ↦ ground (arith, failed)
]
