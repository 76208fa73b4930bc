-- ===== src/PciIds/Lookups.antt =====
-- A lookup by two IDs finds exactly the entry that has them, where the tables are in order.
use pcilibs_rs.Prelude.{
  ℕ, Bool, true, false, Option, some, List, [], ◌∷◌, ◌==◌, ◌≡◌, refl, sym, ap, arith, In, here,
  there, Bool-cases, Option-cases, inl, inr, ==_iff,
}
use pcilibs_rs.PciIds.{find, get, ◌>>=◌}

pub find-In :
    {A : Type 0} (p : A → Bool) (xs : List A) (a : A) → find p xs ≡ some a → In a xs × (p a ≡ true)
unfolding find
find-In p [] a h = cc h
find-In p (x ∷ xs) a h = elim (Bool-cases (p x)) [
  | inl e ↦ let same : x ≡ a = cc (rw e at h) in (here (sym same), rw (← same) e)
  | inr e ↦ let (m, t) = find-In p xs a (rw e at h) in (there m, t)
]

-- What is in the list and alone passes the test is found.
find-only :
    {A : Type 0} (p : A → Bool) (xs : List A) (a : A)
    → In a xs
    → p a ≡ true
    → ((b : A) → In b xs → p b ≡ true → b ≡ a)
    → find p xs ≡ some a
unfolding find
find-only p [] a m t only = elim m [ ]
find-only p (x ∷ xs) a (here e) t only = let h : p x ≡ true = rw (← e) t in rw h (ap some (sym e))
find-only p (x ∷ xs) a (there m) t only = elim (Bool-cases (p x)) [
  | inl e ↦ rw e (ap some (only x (here refl) e))
  | inr e ↦ rw e (find-only p xs a m t (λ b i. only b (there i)))
]

pub get-In :
    {A : Type 0} (key : ℕ) (entries : List (ℕ × A)) (a : A)
    → get key entries ≡ some a
    → In (key, a) entries
unfolding get
get-In key [] a h = cc h
get-In key ((k, b) ∷ entries) a h = elim (Bool-cases (k == key)) [
  | inl e ↦
      let same : b ≡ a = cc (rw e at h) in
      here (let k_same = (==_iff k key).0 e in cc (same, k_same))
  | inr e ↦ there (get-In key entries a (rw e at h))
]

get-only :
    {A : Type 0} (key : ℕ) (entries : List (ℕ × A)) (a : A)
    → In (key, a) entries
    → ((b : A) → In (key, b) entries → b ≡ a)
    → get key entries ≡ some a
unfolding get
get-only key [] a m only = elim m [ ]
get-only key ((k, b) ∷ entries) a m only = elim (Bool-cases (k == key)) [
  | inl e ↦ let k_same = (==_iff k key).0 e in rw e (ap some (only b (here (cc k_same))))
  | inr e ↦ rw e (get-only key entries a (get-rest m e) (λ b i. only b (there i)))
]
  where
    get-rest : In (key, a) ((k, b) ∷ entries) → (k == key) ≡ false → In (key, a) entries
    get-rest (here p) e = let same : key ≡ k = ap (λ x. x.0) p in absurd (ground arith)
    get-rest (there i) e = i

-- A table of entries by their IDs, each with its items.
module _ {E I : Type 0} (items : E → List I) (owner id : I → ℕ) where
  -- An entry is alone under its ID, its items are marked with it, and are alone under theirs.
  pub record IsIndexed (table : List (ℕ × E)) : Type 0 where
    pub alone : (k : ℕ) (a b : E) → In (k, a) table → In (k, b) table → b ≡ a
    pub owned : (k : ℕ) (a : E) (i : I) → In (k, a) table → In i (items a) → owner i ≡ k
    pub one_item :
        (k : ℕ) (a : E) (i j : I)
        → In (k, a) table
        → In i (items a)
        → In j (items a)
        → id j ≡ id i
        → j ≡ i

  -- Some entry of the table has the item.
  abbrev pub IsListed : List (ℕ × E) → I → Type 0
  IsListed table i = (k : ℕ) × (a : E) × In (k, a) table × In i (items a)

  abbrev pub lookup : List (ℕ × E) → ℕ → ℕ → Option I
  lookup table k n = get k table >>= λ a. find (λ i. id i == n) (items a)

  module _ {table : List (ℕ × E)} (indexed : IsIndexed table) where
    pub lookup-IsListed :
        (k n : ℕ) (i : I)
        → lookup table k n ≡ some i
        → IsListed table i × (owner i ≡ k) × (id i ≡ n) × ((a : E) × (get k table ≡ some a))
    lookup-IsListed k n i h = elim (Option-cases (get k table)) [
      | inl e ↦ cc (rw e at h)
      | inr (a, e) ↦
          let (m, t) = find-In (λ i. id i == n) (items a) i (rw e at h) in
          let entry = get-In k table a e in
          ((k, a, entry, m), indexed.owned k a i entry m, (==_iff (id i) n).0 t, (a, e))
    ]

    pub IsListed-lookup :
        (k n : ℕ) (i : I) → IsListed table i → owner i ≡ k → id i ≡ n → lookup table k n ≡ some i
    IsListed-lookup k' n i (k, a, entry, m) p q =
        let key = indexed.owned k a i entry m in
        let found = get-only k table a entry (λ b other. indexed.alone k a b entry other) in
        rw (← p, ← q, key, found)
          (find-only (λ j. id j == id i) (items a) i m (ground arith)
            (λ j other t. indexed.one_item k a i j entry m other ((==_iff (id j) (id i)).0 t)))
