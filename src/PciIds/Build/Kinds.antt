-- ===== src/PciIds/Build/Kinds.antt =====
-- What the parser of each kind of line accepts, and what it refuses.
use pcilibs_rs.Prelude.{
  ◌==◌, ℕ, ◌<◌, false, none, some, [], ◌∷◌, ◌++◌, length, ◌≡◌, refl, arith, Bool-cases, inl, inr,
}
use pcilibs_rs.Text.{Bytes, strip_prefix}
use pcilibs_rs.Text.Hex.{digit, is_hexdigit, padded}
use pcilibs_rs.PciIds.Build.Packages.{Nom, IsNom}
use pcilibs_rs.PciIds.Build.Parser as Syntax
use pcilibs_rs.PciIds.Build.Grammar.{id-padded, id-other}

-- What stands between an ID and its name.
abbrev pub gap : Bytes → Bytes
gap name = 32 ∷ 32 ∷ name

strip_prefix-other :
    (p : ℕ) (ps : Bytes) (c : ℕ) (s : Bytes)
    → (p == c) ≡ false
    → strip_prefix (p ∷ ps) (c ∷ s) ≡ none
unfolding strip_prefix
strip_prefix-other p ps c s h = rw (h, strip_prefix)

strip_prefix-one :
    (p q c : ℕ) (s : Bytes) → (q == c) ≡ false → strip_prefix (p ∷ q ∷ []) (p ∷ c ∷ s) ≡ none
unfolding strip_prefix
strip_prefix-one p q c s h = elim (Bool-cases (p == p)) [
  | inl e ↦ rw (e, strip_prefix, h, strip_prefix)
  | inr e ↦ rw (e, strip_prefix)
]

module _ (nom : Nom) (law : IsNom nom) where
  pub vendor-padded :
      (n : ℕ) (name : Bytes)
      → n < 65536
      → Syntax.vendor nom (padded 4 n ++ gap name) ≡ some (name, n)
  unfolding Syntax.vendor strip_prefix
  vendor-padded n name h =
      rw (law.terminated_eq, id-padded nom law 3 65536 n (gap name) h h, law.tag_eq)

  pub vendor-short :
      (front back : Bytes) (c : ℕ)
      → length front < 4
      → is_hexdigit c ≡ false
      → Syntax.vendor nom (front ++ c ∷ back) ≡ none
  unfolding Syntax.vendor
  vendor-short front back c h other =
      rw (law.terminated_eq, id-other nom law 4 65536 front back c h other)

  pub vendor-other : (c : ℕ) (s : Bytes) → is_hexdigit c ≡ false → Syntax.vendor nom (c ∷ s) ≡ none
  vendor-other c s h = vendor-short [] s c (omega arith) h

  pub device-padded :
      (n : ℕ) (name : Bytes)
      → n < 65536
      → Syntax.device nom (9 ∷ (padded 4 n ++ gap name)) ≡ some (name, n)
  unfolding Syntax.device strip_prefix
  device-padded n name h =
      rw (law.delimited_eq, law.tab_eq, id-padded nom law 3 65536 n (gap name) h h, law.tag_eq)

  -- No tab, or one before something else than four digits.
  pub device-other : (c : ℕ) (s : Bytes) → (9 == c) ≡ false → Syntax.device nom (c ∷ s) ≡ none
  unfolding Syntax.device strip_prefix
  device-other c s h = rw (law.delimited_eq, law.tab_eq, strip_prefix-other 9 [] c s h)

  pub device-short :
      (front back : Bytes) (c : ℕ)
      → length front < 4
      → is_hexdigit c ≡ false
      → Syntax.device nom (9 ∷ (front ++ c ∷ back)) ≡ none
  unfolding Syntax.device strip_prefix
  device-short front back c h other =
      rw (law.delimited_eq, law.tab_eq, id-other nom law 4 65536 front back c h other)

  pub subsystems-padded :
      (m n : ℕ) (name : Bytes)
      → m < 65536
      → n < 65536
      → Syntax.subsystems nom (9 ∷ 9 ∷ (padded 4 m ++ 32 ∷ (padded 4 n ++ gap name)))
        ≡ some (name, (m, n))
  unfolding Syntax.subsystems strip_prefix
  subsystems-padded m n name h k = rw (
    law.delimited_eq,
    law.tag_eq,
    law.separated_pair_eq,
    id-padded nom law 3 65536 m (32 ∷ (padded 4 n ++ gap name)) h h,
    law.tag_eq,
    id-padded nom law 3 65536 n (gap name) k k,
    law.tag_eq,
  )

  pub subsystems-other :
      (c : ℕ) (s : Bytes) → (9 == c) ≡ false → Syntax.subsystems nom (c ∷ s) ≡ none
  unfolding Syntax.subsystems strip_prefix
  subsystems-other c s h = rw (law.delimited_eq, law.tag_eq, strip_prefix-other 9 (9 ∷ []) c s h)

  pub subsystems-one :
      (c : ℕ) (s : Bytes) → (9 == c) ≡ false → Syntax.subsystems nom (9 ∷ c ∷ s) ≡ none
  unfolding Syntax.subsystems strip_prefix
  subsystems-one c s h = rw (law.delimited_eq, law.tag_eq, strip_prefix-one 9 9 c s h)

  pub subsystems-short :
      (front back : Bytes) (c : ℕ)
      → length front < 4
      → is_hexdigit c ≡ false
      → Syntax.subsystems nom (9 ∷ 9 ∷ (front ++ c ∷ back)) ≡ none
  unfolding Syntax.subsystems strip_prefix
  subsystems-short front back c h other = rw (
    law.delimited_eq,
    law.tag_eq,
    law.separated_pair_eq,
    id-other nom law 4 65536 front back c h other,
  )

  pub class-padded :
      (n : ℕ) (name : Bytes)
      → n < 256
      → Syntax.class nom (b'C' ∷ 32 ∷ (padded 2 n ++ gap name)) ≡ some (name, n)
  unfolding Syntax.class strip_prefix
  class-padded n name h =
      rw (law.delimited_eq, law.tag_eq, id-padded nom law 1 256 n (gap name) h h, law.tag_eq)

  pub class-other : (c : ℕ) (s : Bytes) → (b'C' == c) ≡ false → Syntax.class nom (c ∷ s) ≡ none
  unfolding Syntax.class strip_prefix
  class-other c s h = rw (law.delimited_eq, law.tag_eq, strip_prefix-other b'C' (32 ∷ []) c s h)

  pub subclass-padded :
      (n : ℕ) (name : Bytes)
      → n < 256
      → Syntax.subclass nom (9 ∷ (padded 2 n ++ gap name)) ≡ some (name, n)
  unfolding Syntax.subclass strip_prefix
  subclass-padded n name h =
      rw (law.delimited_eq, law.tab_eq, id-padded nom law 1 256 n (gap name) h h, law.tag_eq)

  pub subclass-tab : (s : Bytes) → Syntax.subclass nom (9 ∷ 9 ∷ s) ≡ none
  unfolding Syntax.subclass strip_prefix is_hexdigit digit
  subclass-tab s =
      rw (law.delimited_eq, law.tab_eq, id-other nom law 2 256 [] s 9 (omega arith) refl)

  pub prog_if-padded :
      (n : ℕ) (name : Bytes)
      → n < 256
      → Syntax.prog_if nom (9 ∷ 9 ∷ (padded 2 n ++ gap name)) ≡ some (name, n)
  unfolding Syntax.prog_if strip_prefix
  prog_if-padded n name h =
      rw (law.delimited_eq, law.tag_eq, id-padded nom law 1 256 n (gap name) h h, law.tag_eq)
