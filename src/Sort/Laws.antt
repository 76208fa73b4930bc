-- ===== src/Sort/Laws.antt =====
-- A stable sort by a total order: ascending, and a rearrangement of its input.
use mathlib.Core.List.{Permᴰ}
use mathlib.Core.List.Permᴰ
use pcilibs_rs.Prelude.{
  ℕ, Bool, true, false, List, [], ◌∷◌, ◌≡◌, refl, ap, map, arith, All, Bool-cases, inl, inr,
}
use pcilibs_rs.Sort.{insert, sort_by, by_key}

-- What a comparison has to be for a sort by it to mean anything.
pub record IsOrder {ℓ} {A : Type ℓ} (le : A → A → Bool) : Type ℓ where
  pub total : (a b : A) → le a b ≡ false → le b a ≡ true
  pub trans : (a b c : A) → le a b ≡ true → le b c ≡ true → le a c ≡ true

pub Permᴰ-map {ℓ κ} :
    {A : Type ℓ} {B : Type κ} (f : A → B) {xs ys : List A}
    → Permᴰ xs ys
    → Permᴰ (map f xs) (map f ys)
Permᴰ-map f Permᴰ.nil = Permᴰ.nil
Permᴰ-map f (Permᴰ.cons e p) = Permᴰ.cons (ap f e) (Permᴰ-map f p)
Permᴰ-map f (Permᴰ.swap e h) = Permᴰ.swap (ap f e) (ap f h)
Permᴰ-map f (Permᴰ.trans p q) = Permᴰ.trans (Permᴰ-map f p) (Permᴰ-map f q)

module _ {ℓ} {A : Type ℓ} (le : A → A → Bool) where
  -- Each element is below all behind it.
  abbrev pub Ascending : List A → Type 0
  Ascending [] = Unit
  Ascending (x ∷ xs) = All (λ y. le x y ≡ true) xs × Ascending xs

  pub insert-All {κ} :
      (P : A → Type κ) (x : A) (ys : List A) → P x → All P ys → All P (insert le x ys)
  unfolding insert
  insert-All P x [] p h = (p, tt)
  insert-All P x (y ∷ ys) p h = elim (Bool-cases (le x y)) [
    | inl e ↦ rw e (p, h)
    | inr e ↦ rw e (h.0, insert-All P x ys p h.1)
  ]

  pub sort_by-All {κ} : (P : A → Type κ) (xs : List A) → All P xs → All P (sort_by le xs)
  unfolding sort_by
  sort_by-All P [] h = tt
  sort_by-All P (x ∷ xs) h = insert-All P x (sort_by le xs) h.0 (sort_by-All P xs h.1)

  insert-Permᴰ : (x : A) (ys : List A) → Permᴰ (insert le x ys) (x ∷ ys)
  unfolding insert
  insert-Permᴰ x [] = Permᴰ.cons refl Permᴰ.nil
  insert-Permᴰ x (y ∷ ys) = elim (Bool-cases (le x y)) [
    | inl e ↦ rw e (Permᴰ.refl (x ∷ y ∷ ys))
    | inr e ↦ rw e (Permᴰ.trans (Permᴰ.cons refl (insert-Permᴰ x ys)) (Permᴰ.swap refl refl))
  ]

  pub sort_by-Permᴰ : (xs : List A) → Permᴰ (sort_by le xs) xs
  unfolding sort_by
  sort_by-Permᴰ [] = Permᴰ.nil
  sort_by-Permᴰ (x ∷ xs) =
      Permᴰ.trans (insert-Permᴰ x (sort_by le xs)) (Permᴰ.cons refl (sort_by-Permᴰ xs))

  module _ (o : IsOrder le) where
    below-All :
        (x y : A) (ys : List A)
        → le x y ≡ true
        → All (λ z. le y z ≡ true) ys
        → All (λ z. le x z ≡ true) ys
    below-All x y [] h k = tt
    below-All x y (z ∷ zs) h k = (o.trans x y z h k.0, below-All x y zs h k.1)

    insert-Ascending : (x : A) (ys : List A) → Ascending ys → Ascending (insert le x ys)
    unfolding insert
    insert-Ascending x [] h = (tt, tt)
    insert-Ascending x (y ∷ ys) h = elim (Bool-cases (le x y)) [
      | inl e ↦ rw e ((e, below-All x y ys e h.0), h)
      | inr e ↦
          rw e (insert-All (λ z. le y z ≡ true) x ys (o.total x y e) h.0, insert-Ascending x ys h.1)
    ]

    pub sort_by-Ascending : (xs : List A) → Ascending (sort_by le xs)
    unfolding sort_by
    sort_by-Ascending [] = tt
    sort_by-Ascending (x ∷ xs) = insert-Ascending x (sort_by le xs) (sort_by-Ascending xs)

pub by_key-IsOrder {ℓ} : {A : Type ℓ} (key : A → ℕ) → IsOrder (by_key key)
by_key-IsOrder key = record { total = λ a b h. ground arith; trans = λ a b c h k. ground arith }
