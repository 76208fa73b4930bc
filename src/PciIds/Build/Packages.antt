-- ===== src/PciIds/Build/Packages.antt =====
-- What build_support.rs uses of the packages nom and phf_codegen, parameters, with what their
-- documentation says of it. A text is the list of its characters; errors carry nothing.
use pcilibs_rs.Prelude.{
  ℕ, Bool, Option, none, some, List, [], ◌∷◌, leb, length, take, drop, map, is_empty, if◌then◌else◌,
  ◌≡◌, ◌↔◌, In,
}
use pcilibs_rs.Text.{Bytes, strip_prefix}
use pcilibs_rs.Text.Hex.{is_hexdigit}

-- A parser gives the rest of its input and a value.
abbrev pub Parser : Type 0 → Type 0
Parser A = Bytes → Option (Bytes × A)

infixl 5 ◌>>=◌
abbrev pub ◌>>=◌ : {A B : Type 0} → Option A → (A → Option B) → Option B
none >>= f = none
some a >>= f = f a

pub record Nom : Type 1 where
  pub tag : Bytes → Parser Bytes
  pub take : ℕ → Parser Bytes
  pub tab : Parser ℕ
  pub hex_digit1 : Parser Bytes
  pub all_consuming : (A : Type 0) → Parser A → Parser A
  pub map_parser : (A : Type 0) → Parser Bytes → Parser A → Parser A
  pub map_res : (A B : Type 0) → Parser A → (A → Option B) → Parser B
  pub terminated : (A B : Type 0) → Parser A → Parser B → Parser A
  pub delimited : (A B C : Type 0) → Parser A → Parser B → Parser C → Parser B
  pub separated_pair : (A B C : Type 0) → Parser A → Parser B → Parser C → Parser (A × C)

abbrev pub longest_run : (ℕ → Bool) → Bytes → Bytes × Bytes
longest_run p [] = ([], [])
longest_run p (c ∷ s) =
    let (rest, found) = longest_run p s in if p c then (rest, c ∷ found) else (c ∷ s, [])

abbrev pub not_empty : Bytes × Bytes → Option (Bytes × Bytes)
not_empty (rest, []) = none
not_empty (rest, c ∷ found) = some (rest, c ∷ found)

abbrev pub at_end : {A : Type 0} → Bytes × A → Option (Bytes × A)
at_end (rest, a) = if is_empty rest then some (rest, a) else none

pub record IsNom (nom : Nom) : Type 1 where
  pub tag_eq : (t s : Bytes) → nom.tag t s ≡ (strip_prefix t s >>= λ rest. some (rest, t))
  pub take_eq :
      (n : ℕ) (s : Bytes)
      → nom.take n s ≡ (if leb n (length s) then some (drop n s, take n s) else none)
  pub tab_eq : (s : Bytes) → nom.tab s ≡ (strip_prefix (9 ∷ []) s >>= λ rest. some (rest, 9))
  pub hex_digit1_eq : (s : Bytes) → nom.hex_digit1 s ≡ not_empty (longest_run is_hexdigit s)
  pub all_consuming_eq :
      (A : Type 0) (p : Parser A) (s : Bytes) → nom.all_consuming A p s ≡ (p s >>= at_end)
  pub map_parser_eq :
      (A : Type 0) (p : Parser Bytes) (q : Parser A) (s : Bytes)
      → nom.map_parser A p q s ≡ (p s >>= λ (rest, t). q t >>= λ (_, a). some (rest, a))
  pub map_res_eq :
      (A B : Type 0) (p : Parser A) (f : A → Option B) (s : Bytes)
      → nom.map_res A B p f s ≡ (p s >>= λ (rest, a). f a >>= λ b. some (rest, b))
  pub terminated_eq :
      (A B : Type 0) (p : Parser A) (q : Parser B) (s : Bytes)
      → nom.terminated A B p q s ≡ (p s >>= λ (s1, a). q s1 >>= λ (s2, _). some (s2, a))
  pub delimited_eq :
      (A B C : Type 0) (p : Parser A) (q : Parser B) (r : Parser C) (s : Bytes)
      → nom.delimited A B C p q r s
        ≡ (p s >>= λ (s1, _). q s1 >>= λ (s2, b). r s2 >>= λ (s3, _). some (s3, b))
  pub separated_pair_eq :
      (A B C : Type 0) (p : Parser A) (q : Parser B) (r : Parser C) (s : Bytes)
      → nom.separated_pair A B C p q r s
        ≡ (p s >>= λ (s1, a). q s1 >>= λ (s2, _). r s2 >>= λ (s3, c). some (s3, (a, c)))

-- `phf_codegen::Map`: the map of the entries that `entry` was called with, some order of them.
pub record Phf : Type 1 where
  pub build : (A : Type 0) → List (ℕ × A) → Option (List (ℕ × A))

abbrev pub keys : {A : Type 0} → List (ℕ × A) → List ℕ
keys entries = map (λ e. e.0) entries

abbrev pub Distinct : List ℕ → Type 0
Distinct [] = Unit
Distinct (k ∷ ks) = (In k ks → ⊥) × Distinct ks

-- A key that is used twice is a panic, and nothing else is.
pub record IsPhf (phf : Phf) : Type 1 where
  pub distinct :
      (A : Type 0) (entries table : List (ℕ × A))
      → phf.build A entries ≡ some table
      → Distinct (keys entries)
  pub same :
      (A : Type 0) (entries table : List (ℕ × A))
      → phf.build A entries ≡ some table
      → (e : ℕ × A) → In e table ↔ In e entries
  pub built :
      (A : Type 0) (entries : List (ℕ × A))
      → Distinct (keys entries)
      → (table : List (ℕ × A)) × (phf.build A entries ≡ some table)
