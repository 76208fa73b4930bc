-- ===== src/PciDev/Bar0/Inside.antt =====
-- Where the accesses to the mapping of BAR0 go (src/pci_dev.rs, `Mapping`).
use pcilibs_rs.Prelude.{
  ℕ, ◌+◌, ◌%◌, ◌^◌, ◌≤◌, ◌<◌, ◌==◌, ◌&&◌, leb, Bool, true, false, if◌then◌else◌, Result, ok, err,
  none, some, List, [], ◌∷◌, All, ◌≡◌, refl, arith, inl, inr, Option-cases, Bool-cases,
}
use pcilibs_rs.Files.{IoError}
use pcilibs_rs.Effects.{Effect, pure, ◌>>=◌, ◌>>◌}
use pcilibs_rs.Effects.Hoare.{Hoare, Hoare-bind, Post-either}
use pcilibs_rs.PciDev.Bar0.{Mapping, Memory, dword_at, read32, write32}

-- A sequence of accesses that a client makes.
pub data Access : Type 0 where
  reading : ℕ → Access
  writing : ℕ → ℕ → Access

-- Each volatile access puts its address into the trace.
pub record IsTraced {S : Type 0} (memory : Memory S) (trace : S → List ℕ) : Type 0 where
  pub reads : (a : ℕ) (s : S) → trace (memory.read_volatile a s).1 ≡ a ∷ trace s
  pub writes : (a v : ℕ) (s : S) → trace (memory.write_volatile a v s) ≡ a ∷ trace s

-- The address of a whole dword of the mapping.
abbrev pub IsInside : Mapping → ℕ → Type 0
IsInside m a = (offset : ℕ) × (a ≡ m.ptr + offset) × (offset % 4 ≡ 0) × (offset + 4 ≤ m.len)

dword_at-eq-some :
    (len offset : ℕ) {o : ℕ} → dword_at len offset ≡ some o → (o % 4 ≡ 0) × (o + 4 ≤ len)
unfolding dword_at
dword_at-eq-some len offset h = ground arith

abbrev pub is_valid : ℕ → ℕ → Bool
is_valid len offset = offset % 4 == 0 && leb (offset + 4) len

unfoldable pub all_valid : ℕ → List Access → Bool
all_valid len [] = true
all_valid len (reading offset ∷ accesses) = is_valid len offset && all_valid len accesses
all_valid len (writing offset value ∷ accesses) = is_valid len offset && all_valid len accesses

abbrev pub is_ok : {A : Type 0} → Result IoError A → Bool
is_ok (ok a) = true
is_ok (err e) = false

dword_at-is_valid :
    (len offset : ℕ)
    → len < 2 ^ 64
    → dword_at len offset ≡ (if is_valid len offset then some offset else none)
unfolding dword_at
dword_at-is_valid len offset h = ground arith

module _ {S : Type 0} (memory : Memory S) (mapping : Mapping) where
  -- The accesses one after another, up to one that panics.
  unfoldable pub run : List Access → Effect IoError S (Unit {0})
  unfolding read32 write32
  run [] = pure tt
  run (reading offset ∷ accesses) =
      let rest = run accesses in read32 memory mapping offset >>= λ _. rest
  run (writing offset value ∷ accesses) =
      let rest = run accesses in write32 memory mapping offset value >> rest

  run-all_valid :
      mapping.len < 2 ^ 64
      → (accesses : List Access) (s : S) → is_ok (run accesses s).0 ≡ all_valid mapping.len accesses
  unfolding run all_valid read32 write32
  run-all_valid h [] s = refl
  run-all_valid h (reading offset ∷ accesses) s = elim (Bool-cases (is_valid mapping.len offset)) [
    | inl e ↦ rw (dword_at-is_valid mapping.len offset h, e) (run-all_valid h accesses _)
    | inr e ↦ rw (dword_at-is_valid mapping.len offset h, e) refl
  ]
  run-all_valid h (writing offset value ∷ accesses) s =
      elim (Bool-cases (is_valid mapping.len offset)) [
        | inl e ↦ rw (dword_at-is_valid mapping.len offset h, e) (run-all_valid h accesses _)
        | inr e ↦ rw (dword_at-is_valid mapping.len offset h, e) refl
      ]

  module _ {trace : S → List ℕ} (traced : IsTraced memory trace) where
    abbrev Inside : List ℕ → Type 0
    Inside = All (IsInside mapping)

    read32-Inside :
        (offset : ℕ) → Hoare trace Inside (read32 memory mapping offset) (λ _. Inside) Inside
    unfolding read32
    read32-Inside offset s p = elim (Option-cases (dword_at mapping.len offset)) [
      | inl e ↦ rw e p
      | inr (o, e) ↦
          let (aligned, within) = dword_at-eq-some mapping.len offset e in
          rw (e, traced.reads) ((o, refl, aligned, within), p)
    ]

    write32-Inside :
        (offset value : ℕ)
        → Hoare trace Inside (write32 memory mapping offset value) (λ _. Inside) Inside
    unfolding write32
    write32-Inside offset value s p = elim (Option-cases (dword_at mapping.len offset)) [
      | inl e ↦ rw e p
      | inr (o, e) ↦
          let (aligned, within) = dword_at-eq-some mapping.len offset e in
          rw (e, traced.writes) ((o, refl, aligned, within), p)
    ]

    run-Hoare : (accesses : List Access) → Hoare trace Inside (run accesses) (λ _. Inside) Inside
    unfolding run
    run-Hoare [] = λ s p. p
    run-Hoare (reading offset ∷ accesses) =
        Hoare-bind trace Inside (read32 memory mapping offset) (λ _. Inside) (λ _. run accesses)
          (λ _. Inside) Inside (read32-Inside offset) (λ _. run-Hoare accesses)
    run-Hoare (writing offset value ∷ accesses) =
        Hoare-bind trace Inside (write32 memory mapping offset value) (λ _. Inside)
          (λ _. run accesses) (λ _. Inside) Inside (write32-Inside offset value)
          (λ _. run-Hoare accesses)

    -- For a mapping whose length fits 64 bits, with a trace of the addresses that are accessed:
    -- whatever accesses are made to its registers one after another, up to one that panics, if
    -- all addresses in the trace before are those of whole aligned dwords of the mapping, so are
    -- all behind; and none panics exactly if every offset is aligned and has a whole dword behind
    -- it in the mapping.
    pub run-IsInside :
        (accesses : List Access) (s : S)
        → mapping.len < 2 ^ 64
        → All (IsInside mapping) (trace s)
        → All (IsInside mapping) (trace (run accesses s).1)
          × (is_ok (run accesses s).0 ≡ all_valid mapping.len accesses)
    run-IsInside accesses s fits p =
        (Post-either Inside _ _ (run-Hoare accesses s p), run-all_valid fits accesses s)
