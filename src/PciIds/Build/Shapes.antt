-- ===== src/PciIds/Build/Shapes.antt =====
-- Items that the build reads with their parts, such as devices with their subsystems.
use mathlib.Core.List.{append_assoc, append-nil}
use pcilibs_rs.Prelude.{
  ℕ, Bool, true, false, ◌==◌, some, List, [], ◌∷◌, ◌++◌, All, map, ◌≡◌, refl, Option-cases, inl,
  inr,
}
use pcilibs_rs.PciIds.{◌>>=◌}
use pcilibs_rs.PciIds.Build.{Line, Generated, add_line, change_first}
use pcilibs_rs.PciIds.Build.Spelling.{add_all}

pub add_all-append :
    (ls ms : List Line) (g : Generated)
    → add_all (ls ++ ms) g ≡ (add_all ls g >>= λ g'. add_all ms g')
add_all-append [] ms g = refl
add_all-append (l ∷ ls) ms g = elim (Option-cases (add_line l g)) [
  | inl e ↦ rw e refl
  | inr (g', e) ↦ rw e (add_all-append ls ms g')
]

-- The last one is changed, if it is the first that passes.
pub change_first-last :
    {A : Type 0} (p : A → Bool) (f : A → A) (xs : List A) (x : A)
    → All (λ y. p y ≡ false) xs
    → p x ≡ true
    → change_first p f (xs ++ x ∷ []) ≡ some (xs ++ f x ∷ [])
unfolding change_first
change_first-last p f [] x h t = rw t refl
change_first-last p f (y ∷ xs) x h t = rw (h.0, change_first-last p f xs x h.1 t)

-- Items that are listed one after another, each with its parts.
pub record Shape (I J : Type 0) : Type 0 where
  pub key : I → ℕ
  pub bare : I → I
  pub parts : I → List J
  pub push : J → I → I
  pub item_line : I → Line
  pub part_line : J → Line

module _ {I J : Type 0} (shape : Shape I J) where
  open shape use {key, bare, parts, push, item_line, part_line}

  abbrev pub all_lines : List I → List Line
  all_lines [] = []
  all_lines (i ∷ is) = item_line i ∷ (map part_line (parts i) ++ all_lines is)

  abbrev pub pushed : List J → I → I
  pushed [] i = i
  pushed (j ∷ js) i = pushed js (push j i)

  abbrev pub Differs : I → List I → Type 0
  Differs i is = All (λ x. (key x == key i) ≡ false) is

  -- Each has an ID that none before it has.
  abbrev pub IsFresh : List I → List I → Type 0
  IsFresh before [] = Unit
  IsFresh before (i ∷ is) = Differs i before × IsFresh (before ++ i ∷ []) is

  abbrev pub last_key : ℕ → List I → ℕ
  last_key n [] = n
  last_key n (i ∷ is) = last_key (key i) is

  -- How the loop takes the lines, in a state that has the items so far.
  pub record IsTaken (at : List I → ℕ → Generated) : Type 0 where
    pub keeps : (j : J) (i : I) → key (push j i) ≡ key i
    pub bare_key : (i : I) → key (bare i) ≡ key i
    pub whole : (i : I) → pushed (parts i) (bare i) ≡ i
    pub add_item :
        (is : List I) (n : ℕ) (i : I)
        → add_line (item_line i) (at is n) ≡ some (at (is ++ bare i ∷ []) (key i))
    pub add_part :
        (is : List I) (i : I) (j : J)
        → Differs i is
        → add_line (part_line j) (at (is ++ i ∷ []) (key i))
          ≡ some (at (is ++ push j i ∷ []) (key i))

  module _ {at : List I → ℕ → Generated} (taken : IsTaken at) where
    add_parts :
        (js : List J) (is : List I) (i : I)
        → Differs i is
        → add_all (map part_line js) (at (is ++ i ∷ []) (key i))
          ≡ some (at (is ++ pushed js i ∷ []) (key i))
    add_parts [] is i h = refl
    add_parts (j ∷ js) is i h =
        let same = taken.keeps j i in
        let later : add_all (map part_line js) (at (is ++ push j i ∷ []) (key i))
            ≡ some (at (is ++ pushed js (push j i) ∷ []) (key i)) =
          rw same at (add_parts js is (push j i) (rw same h)) in
        rw (taken.add_part is i j h) later

    pub add_items :
        (is before : List I) (n : ℕ)
        → IsFresh before is
        → add_all (all_lines is) (at before n) ≡ some (at (before ++ is) (last_key n is))
    add_items [] before n h = rw append-nil
    add_items (i ∷ is) before n h =
        let listed : add_all (map part_line (parts i)) (at (before ++ bare i ∷ []) (key i))
            ≡ some (at (before ++ i ∷ []) (key i)) =
          rw (taken.bare_key i, taken.whole i) at
            (add_parts (parts i) before (bare i) (rw (taken.bare_key i) h.0)) in
        let rest = add_items is (before ++ i ∷ []) (key i) h.1 in
        rw (
          taken.add_item before n i,
          add_all-append (map part_line (parts i)) (all_lines is),
          listed,
          rest,
          append_assoc,
        )
