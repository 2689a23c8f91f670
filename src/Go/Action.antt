-- ===== src/Go/Action.antt =====
-- A call that reads and changes a state and may fail: what it wrote before an error stays written.
use go_mediaarchive.Base.{Bool, true, false}
use go_mediaarchive.Go.Failure.{Result, ok, err, Error}

abbrev pub Action : Type 0 → Type 0 → Type 0
Action S A = S → Result A × S

module _ {S : Type 0} where
  abbrev pub pure : {A : Type 0} → A → Action S A
  pure a s = (ok a, s)

  abbrev pub fail : {A : Type 0} → Error → Action S A
  fail e s = (err e, s)

  -- A function of values inside an action.
  abbrev pub lift : {A : Type 0} → Result A → Action S A
  lift r s = (r, s)

  abbrev pub fail_if : Bool → Error → Action S (Unit {0})
  fail_if true e s = (err e, s)
  fail_if false e s = (ok tt, s)

  -- `if err := m; err != nil { return handler(err) }`
  unfoldable pub catch :
      {A B : Type 0} → Action S A → (Error → Action S B) → (A → Action S B) → Action S B
  catch m handler f s = let (r, s') = m s in elim r [ ok a ↦ f a s' | err e ↦ handler e s' ]

-- Shut, so that a proof takes a chain apart call by call.
infixl 5 ◌>>=◌ ◌>>◌
unfoldable pub ◌>>=◌ : {S A B : Type 0} → Action S A → (A → Action S B) → Action S B
◌>>=◌ m f s = let (r, s') = m s in elim r [ ok a ↦ f a s' | err e ↦ (err e, s') ]

abbrev pub ◌>>◌ : {S B : Type 0} → Action S (Unit {0}) → Action S B → Action S B
m >> k = m >>= λ _. k
