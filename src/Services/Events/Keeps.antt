-- ===== src/Services/Events/Keeps.antt =====
-- Recording an event changes no table but that of the events.
use go_mediaarchive.Base.{◌≡◌, refl, ap, ◌≢◌, ◌⊎◌, inl, inr, arith}
use go_mediaarchive.Go.Text.{Text}
use go_mediaarchive.Go.Time.{Time}
use go_mediaarchive.Go.Failure.{Result, ok, err, Error}
use go_mediaarchive.Go.Action.{Action, catch, ◌>>=◌}
use go_mediaarchive.Identity.Username.{Platform}
use go_mediaarchive.Identity.User.{User}
use go_mediaarchive.Audit.Kinds.{EventType, Outcome, TargetType, Reason}
use go_mediaarchive.Audit.{Event}
use go_mediaarchive.Store.Tables.{Database, World}
use go_mediaarchive.Store.Statements.Atomicity.{statement_keeps}
use go_mediaarchive.Store.Events.{insert_audit_event}
use go_mediaarchive.Services.Events.{next_event_id, new_actor_event, append_and_fail}

-- All tables but the events are the same.
pub record SameButEvents (a b : Database) : Type 0 where
  pub users : b.users ≡ a.users
  pub credentials : b.credentials ≡ a.credentials
  pub enrollments : b.enrollments ≡ a.enrollments
  pub sessions : b.sessions ≡ a.sessions
  pub items : b.items ≡ a.items
  pub authors : b.authors ≡ a.authors
  pub contents : b.contents ≡ a.contents
  pub grants : b.grants ≡ a.grants

abbrev pub same_rows : (a b : Database) → b ≡ a → SameButEvents a b
same_rows a b h = record {
  users = ap (λ d. d.users) h;
  credentials = ap (λ d. d.credentials) h;
  enrollments = ap (λ d. d.enrollments) h;
  sessions = ap (λ d. d.sessions) h;
  items = ap (λ d. d.items) h;
  authors = ap (λ d. d.authors) h;
  contents = ap (λ d. d.contents) h;
  grants = ap (λ d. d.grants) h;
}

abbrev pub KeepsRows : {A : Type 0} → Action World A → Type 0
KeepsRows m = (w : World) → SameButEvents w.db (m w).1.db

pub insert_audit_event-KeepsRows : (g : Platform) (e : Event) → KeepsRows (insert_audit_event g e)
unfolding insert_audit_event ◌>>=◌
insert_audit_event-KeepsRows g e w = ground (arith, statement_keeps w)

pub new_actor_event-db :
    (g : Platform) (actor : User) (t : EventType) (o : Outcome) (k : TargetType) (id name : Text)
    (r : Reason) (now : Time) (w : World)
    → (new_actor_event g actor t o k id name r now w).1.db ≡ w.db
unfolding new_actor_event next_event_id ◌>>=◌
new_actor_event-db g actor t o k id name r now w = ground arith

append_keeps :
    (g : Platform) (made : Result Event × World) (e : Error)
    → (A : Type 0) (w : World) → made.1.db ≡ w.db
    → (make : Action World Event) → make w ≡ made
    → SameButEvents w.db (append_and_fail {A = A} g make e w).1.db
unfolding append_and_fail ◌>>=◌
append_keeps g (ok event, v) e A w h make q =
    ground (arith, h, q, insert_audit_event-KeepsRows g event v)
append_keeps g (err x, v) e A w h make q = ground (arith, h, q)

pub append_and_fail-KeepsRows :
    (A : Type 0) (g : Platform) (make : Action World Event) (e : Error)
    → ((w : World) → (make w).1.db ≡ w.db)
    → KeepsRows (append_and_fail {A = A} g make e)
append_and_fail-KeepsRows A g make e h w = append_keeps g (make w) e A w (h w) make refl

-- It never succeeds.
pub append_and_fail-err :
    {A : Type 0} (g : Platform) (make : Action World Event) (e : Error) (w : World) (a : A)
    → (append_and_fail g make e w).0 ≢ ok a
unfolding append_and_fail ◌>>=◌
append_and_fail-err g make e w a h = ground arith

-- A handled call failed and was handled, or succeeded and went on.
pub catch-cases :
    {A B : Type 0} (m : Action World A) (h : Error → Action World B) (f : A → Action World B)
    (w : World)
    → ((e : Error) × (v : World) × (m w ≡ (err e, v)) × (catch m h f w ≡ h e v))
      ⊎ ((a : A) × (v : World) × (m w ≡ (ok a, v)) × (catch m h f w ≡ f a v))
unfolding catch
catch-cases {A = A} {B = B} m h f w = go (m w) refl
  where
    go :
        (p : Result A × World)
        → m w ≡ p
        → ((e : Error) × (v : World) × (m w ≡ (err e, v)) × (catch m h f w ≡ h e v))
          ⊎ ((a : A) × (v : World) × (m w ≡ (ok a, v)) × (catch m h f w ≡ f a v))
    go (ok a, v) e = inr (a, v, e, ground (arith, e))
    go (err x, v) e = inl (x, v, e, ground (arith, e))
