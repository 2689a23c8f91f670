-- ===== src/Go/Chain.antt =====
-- Checks one after the other: `if err != nil { return err }` after each call.
use go_mediaarchive.Go.Failure.{Result, ok, err}

infixl 5 ◌>>=◌ ◌>>◌
abbrev pub ◌>>=◌ : {A B : Type 0} → Result A → (A → Result B) → Result B
◌>>=◌ (err e) next = err e
◌>>=◌ (ok value) next = next value

abbrev pub ◌>>◌ : {B : Type 0} → Result (Unit {0}) → Result B → Result B
◌>>◌ (err e) next = err e
◌>>◌ (ok _) next = next
