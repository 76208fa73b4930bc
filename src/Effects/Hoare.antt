-- ===== src/Effects/Hoare.antt =====
-- A program logic for effects, over a view of the state: `P` before, `Q` of the value and the view
-- after a success, `F` of the view after a failure.
use pcilibs_rs.Prelude.{Result, ok, err, ◌≡◌}
use pcilibs_rs.Effects.{Effect, continue_with, ◌>>=◌}

abbrev pub Post : {E A H : Type 0} → (A → H → Type 0) → (H → Type 0) → Result E A → H → Type 0
Post Q F (ok a) h = Q a h
Post Q F (err e) h = F h

module _ {E S H : Type 0} (view : S → H) where
  abbrev pub Hoare :
      {A : Type 0} → (H → Type 0) → Effect E S A → (A → H → Type 0) → (H → Type 0) → Type 0
  Hoare P m Q F = (s : S) → P (view s) → Post Q F (m s).0 (view (m s).1)

  Post-continue :
      {A B : Type 0} (Q : A → H → Type 0) (R : B → H → Type 0) (F : H → Type 0)
      (f : A → Effect E S B) (r : Result E A × S)
      → Post Q F r.0 (view r.1)
      → ((a : A) → Hoare (Q a) (f a) R F)
      → Post R F (continue_with f r).0 (view (continue_with f r).1)
  Post-continue Q R F f (ok a, s) p h = h a s p
  Post-continue Q R F f (err e, s) p h = p

  pub Hoare-bind :
      {A B : Type 0} (P : H → Type 0) (m : Effect E S A) (Q : A → H → Type 0) (f : A → Effect E S B)
      (R : B → H → Type 0) (F : H → Type 0)
      → Hoare P m Q F
      → ((a : A) → Hoare (Q a) (f a) R F)
      → Hoare P (m >>= f) R F
  Hoare-bind P m Q f R F first next s p = Post-continue Q R F f (m s) (first s p) next

-- A condition on a view of the state is one on the state.
pub Post-of_view :
    {E A S H : Type 0} (view : S → H) (Q : A → H → Type 0) (F : H → Type 0) (r : Result E A × S)
    → Post Q F r.0 (view r.1)
    → Post (λ a s. Q a (view s)) (λ s. F (view s)) r.0 r.1
Post-of_view view Q F (ok a, s) p = p
Post-of_view view Q F (err e, s) p = p

pub Post-to_view :
    {E A S H : Type 0} (view : S → H) (Q : A → H → Type 0) (F : H → Type 0) (r : Result E A × S)
    → Post (λ a s. Q a (view s)) (λ s. F (view s)) r.0 r.1
    → Post Q F r.0 (view r.1)
Post-to_view view Q F (ok a, s) p = p
Post-to_view view Q F (err e, s) p = p

-- What holds in either case.
pub Post-always :
    {E A H : Type 0} (P : H → Type 0) (r : Result E A) (h : H) → P h → Post (λ (_ : A). P) P r h
Post-always P (ok a) h p = p
Post-always P (err e) h p = p

pub Post-either :
    {E A H : Type 0} (P : H → Type 0) (r : Result E A) (h : H) → Post (λ (_ : A). P) P r h → P h
Post-either P (ok a) h p = p
Post-either P (err e) h p = p

pub Post-ok :
    {E A H : Type 0} (Q : A → H → Type 0) (F : H → Type 0) (r : Result E A) (h : H) {a : A}
    → r ≡ ok a
    → Post Q F r h
    → Q a h
Post-ok Q F (ok b) h {a} e p = let value : b ≡ a = cc e in rw (← value) p
Post-ok Q F (err x) h {a} e p = cc e

-- Whatever the state, a value that is returned is an `R`.
abbrev pub Returns : {E S A : Type 0} → (A → Type 0) → Effect E S A → Type 0
Returns {S = S} R m = (s : S) → Post (λ a (_ : S). R a) (λ _. Unit) (m s).0 (m s).1

pub Returns-bind :
    {E S A B : Type 0} (R : B → Type 0) (m : Effect E S A) (f : A → Effect E S B)
    → ((a : A) → Returns R (f a))
    → Returns R (m >>= f)
Returns-bind R m f next s =
    Hoare-bind (λ t. t) (λ _. Unit) m (λ _ _. Unit) f (λ b _. R b) (λ _. Unit)
      (λ t _. Post-always (λ _. Unit) (m t).0 (m t).1 tt) (λ a t _. next a t) s tt

pub Post-weaken :
    {E A H : Type 0} (Q Q' : A → H → Type 0) (F F' : H → Type 0) (r : Result E A) (h : H)
    → ((a : A) → Q a h → Q' a h)
    → (F h → F' h)
    → Post Q F r h
    → Post Q' F' r h
Post-weaken Q Q' F F' (ok a) h q f p = q a p
Post-weaken Q Q' F F' (err e) h q f p = f p
