-- ===== src/Effects.antt =====
-- Code that acts on a state: it may fail, and then it keeps the state that it reached.
pub mod Hoare
use pcilibs_rs.Prelude.{ℕ, Bool, true, false, not, Result, ok, err}

abbrev pub Effect : Type 0 → Type 0 → Type 0 → Type 0
Effect E S A = S → Result E A × S

-- A condition the other way round.
abbrev pub negated : {S : Type 0} → (S → Bool × S) → S → Bool × S
negated done s = let r = done s in (not r.0, r.1)

module _ {E S : Type 0} where
  abbrev pub pure : {A : Type 0} → A → Effect E S A
  pure a s = (ok a, s)

  abbrev pub fail_with : {A : Type 0} → E → Effect E S A
  fail_with e s = (err e, s)

  abbrev pub continue_with : {A B : Type 0} → (A → Effect E S B) → Result E A × S → Result E B × S
  continue_with f (ok a, s) = f a s
  continue_with f (err e, s) = (err e, s)

  -- The source's `?`.
  infixl 5 ◌>>=◌ ◌>>◌
  abbrev pub ◌>>=◌ : {A B : Type 0} → Effect E S A → (A → Effect E S B) → Effect E S B
  m >>= f = λ s. continue_with f (m s)

  abbrev pub ◌>>◌ : {B : Type 0} → Effect E S (Unit {0}) → Effect E S B → Effect E S B
  m >> k = m >>= λ _. k

  -- A `Result` used as a value, by `match` or `let _ =`.
  abbrev pub attempt : {A : Type 0} → Effect E S A → Effect E S (Result E A)
  attempt m s = let r = m s in (ok r.0, r.1)

  abbrev pub require : Bool → E → Effect E S (Unit {0})
  require true e s = (ok tt, s)
  require false e s = (err e, s)

  -- A condition that is checked once.
  abbrev pub observe : (S → Bool × S) → Effect E S Bool
  observe done s = let r = done s in (ok r.0, r.1)
