-- ===== src/Sort.antt =====
-- The standard library's stable sort, `sort_by`, and the order of strings that it is given.
pub mod Laws
pub mod Texts
use pcilibs_rs.Prelude.{
  ℕ, Bool, true, false, ◌&&◌, ◌||◌, List, [], ◌∷◌, ltb, leb, ◌==◌, if◌then◌else◌,
}
use pcilibs_rs.Text.{Bytes}

module _ {ℓ} {A : Type ℓ} (le : A → A → Bool) where
  -- An element goes in front of those that are not less.
  unfoldable pub insert : A → List A → List A
  insert x [] = x ∷ []
  insert x (y ∷ ys) = let rest = insert x ys in if le x y then x ∷ y ∷ ys else y ∷ rest

  unfoldable pub sort_by : List A → List A
  unfolding insert
  sort_by [] = []
  sort_by (x ∷ xs) = insert x (sort_by xs)

-- `sort_by_key` with a number
abbrev pub by_key {ℓ} : {A : Type ℓ} → (A → ℕ) → A → A → Bool
by_key key a b = leb (key a) (key b)

-- `<=` on strings: byte by byte, and a prefix comes first.
unfoldable pub text_le : Bytes → Bytes → Bool
text_le [] t = true
text_le (a ∷ s) [] = false
text_le (a ∷ s) (b ∷ t) = ltb a b || a == b && text_le s t
