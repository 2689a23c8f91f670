-- ===== src/Services/Events/Failures.antt =====
-- Calls whose error leaves every table as it was, but for one event at most.
use go_mediaarchive.Base.{◌≡◌, refl, sym, subst, ap, ◌∙◌, ◌⊎◌, inl, inr, arith, ◌∷◌}
use go_mediaarchive.Go.Failure.{Result, ok, err, Error}
use go_mediaarchive.Go.Action.{Action, pure, catch, ◌>>=◌}
use go_mediaarchive.Identity.Username.{Platform}
use go_mediaarchive.Audit.{Event, new_event}
use go_mediaarchive.Store.Tables.{Database, World}
use go_mediaarchive.Store.Statements.{exec, store_result}
use go_mediaarchive.Store.Statements.Atomicity.{Result-cases, statement_keeps}
use go_mediaarchive.Store.Statements.Rollback.{KeepsTables, RollsBack, >>=-fails}
use go_mediaarchive.Store.Events.{add_event, insert_audit_event}
use go_mediaarchive.Services.Events.{append_and_fail}
use go_mediaarchive.Services.Events.Keeps.{
  SameButEvents, same_rows, insert_audit_event-KeepsRows, catch-cases,
}

-- All tables but the events are the same, and the events are the same or one more.
abbrev pub IsLogged : Database → Database → Type 0
IsLogged a b =
    SameButEvents a b × ((b.events ≡ a.events) ⊎ ((x : Event) × (b.events ≡ x ∷ a.events)))

abbrev pub Logs : {A : Type 0} → Action World A → Type 0
Logs m = (w : World) → IsLogged w.db (m w).1.db

pub unlogged : (a b : Database) → b ≡ a → IsLogged a b
unlogged a b h = (same_rows a b h, inl (ap (λ d. d.events) h))

insert_audit_event-events :
    (g : Platform) (e : Event) (w : World)
    → let b = (insert_audit_event g e w).1.db in
      (b.events ≡ w.db.events) ⊎ ((x : Event) × (b.events ≡ x ∷ w.db.events))
unfolding insert_audit_event exec store_result add_event ◌>>=◌
insert_audit_event-events g e w = elim (Result-cases (new_event g e)) [
  | inr (x, q) ↦ inl (ground (arith, q))
  | inl (x, q) ↦
      let one : ((insert_audit_event g e w).1.db.events ≡ w.db.events)
          ⊎ ((insert_audit_event g e w).1.db.events ≡ x ∷ w.db.events) =
        ground (arith, q, statement_keeps w) in
      elim one [ inl k ↦ inl k | inr k ↦ inr (x, k) ]
]

append_logs :
    (A : Type 0) (g : Platform) (made : Result Event × World) (make : Action World Event)
    (e : Error) (w : World)
    → make w ≡ made
    → made.1.db ≡ w.db
    → IsLogged w.db (append_and_fail {A = A} g make e w).1.db
unfolding append_and_fail ◌>>=◌
append_logs A g (ok event, v) make e w q h = (
  ground (arith, h, q, insert_audit_event-KeepsRows g event v),
  elim (insert_audit_event-events g event v) [
    | inl k ↦ inl (ground (arith, h, q, k))
    | inr (x, k) ↦ inr (x, ground (arith, h, q, k))
  ],
)
append_logs A g (err x, v) make e w q h =
    unlogged w.db (append_and_fail {A = A} g make e w).1.db (ground (arith, q, h))

pub append_and_fail-Logs :
    (A : Type 0) (g : Platform) (make : Action World Event) (e : Error)
    → ((w : World) → (make w).1.db ≡ w.db)
    → Logs (append_and_fail {A = A} g make e)
append_and_fail-Logs A g make e h w = append_logs A g (make w) make e w refl (h w)

-- An error leaves every table as it was, but for one event at most.
abbrev pub LeavesRows : {A : Type 0} → Action World A → Type 0
LeavesRows m = (w : World) (e : Error) (v : World) → m w ≡ (err e, v) → IsLogged w.db v.db

pub Logs-LeavesRows : {A : Type 0} (m : Action World A) → Logs m → LeavesRows m
Logs-LeavesRows m keeps w e v h = subst (λ p. IsLogged w.db p.1.db) h (keeps w)

-- A handled call that rolls back, after which nothing can fail.
pub catch-LeavesRows_last :
    {A B : Type 0} (m : Action World A) (k : Error → Action World B) (b : B)
    → RollsBack m
    → ((e : Error) → Logs (k e))
    → LeavesRows (catch m k (λ _. pure b))
catch-LeavesRows_last m k b back keeps w e v h = elim (catch-cases m k (λ _. pure b) w) [
  | inl (x, u, failed, handled) ↦
      subst (λ d. IsLogged d v.db) (back w x u failed)
        (subst (λ p. IsLogged u.db p.1.db) (sym handled ∙ h) (keeps x u))
  | inr (a, u, done, returned) ↦ ground (arith, h, returned)
]

-- A handled read, and then a call that leaves the records as they were.
pub catch-LeavesRows_first :
    {A B : Type 0} (m : Action World A) (k : Error → Action World B) (f : A → Action World B)
    → KeepsTables m
    → ((e : Error) → Logs (k e))
    → ((a : A) → LeavesRows (f a))
    → LeavesRows (catch m k f)
catch-LeavesRows_first m k f read keeps rest w e v h = elim (catch-cases m k f w) [
  | inl (x, u, failed, handled) ↦
      subst (λ d. IsLogged d v.db) (sym (ap (λ p. p.1.db) failed) ∙ read w)
        (subst (λ p. IsLogged u.db p.1.db) (sym handled ∙ h) (keeps x u))
  | inr (a, u, done, went_on) ↦
      subst (λ d. IsLogged d v.db) (sym (ap (λ p. p.1.db) done) ∙ read w)
        (rest a u e v (sym went_on ∙ h))
]

-- The making of an event, and then a call that leaves the records as they were.
pub >>=-LeavesRows :
    {A B : Type 0} (m : Action World A) (f : A → Action World B)
    → KeepsTables m
    → ((a : A) → LeavesRows (f a))
    → LeavesRows (m >>= f)
>>=-LeavesRows m f keeps rest w e v h = elim (>>=-fails m f w e v h) [
  | inl failed ↦ unlogged w.db v.db (sym (ap (λ p. p.1.db) failed) ∙ keeps w)
  | inr (a, u, done, failed) ↦
      subst (λ d. IsLogged d v.db) (sym (ap (λ p. p.1.db) done) ∙ keeps w) (rest a u e v failed)
]

-- A validation, whose error is denied.
pub validated-LeavesRows :
    {B : Type 0} (A : Type 0) (r : Result B) (k : Error → Action World A) (f : B → Action World A)
    → ((e : Error) → Logs (k e))
    → ((b : B) → LeavesRows (f b))
    → LeavesRows (elim r as (λ _. Action World A) [ err e ↦ k e | ok b ↦ f b ])
validated-LeavesRows A (ok b) k f keeps rest = rest b
validated-LeavesRows A (err e) k f keeps rest = Logs-LeavesRows (k e) (keeps e)
