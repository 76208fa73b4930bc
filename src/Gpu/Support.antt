-- ===== src/Gpu/Support.antt =====
-- The ranges of the chips are disjoint, and what a record must say for register access.
use pcilibs_rs.Prelude.{
  ℕ, Bool, true, false, ◌&&◌, ◌||◌, some, List, [], ◌∷◌, ltb, ◌≡◌, ◌≢◌, refl, sym, arith, ◌↔◌, inl,
  inr, In, here, there, Bool-cases, all, Option-cases,
}
use pcilibs_rs.Text.{equal}
use pcilibs_rs.Text.Equality.{equal_iff}
use pcilibs_rs.Catalog.Records.{Attachment, unknown, coherent, gpu, kind_eq, attachment_eq}
use pcilibs_rs.Catalog.Records as Records
use pcilibs_rs.Catalog.Identity.{kind_eq_iff, attachment_eq_iff}
use pcilibs_rs.Gpu.Chips.{Chip, chips, covers, find_chip, chip_for_range}
use pcilibs_rs.Gpu.{nvidia, Properties, names_other, properties}

pub find_chip-eq-some :
    (test : Chip → Bool) (cs : List Chip) {c : Chip}
    → find_chip test cs ≡ some c
    → In c cs × (test c ≡ true)
unfolding find_chip
find_chip-eq-some test [] h = absurd (ground arith)
find_chip-eq-some test (x ∷ xs) {c} h = elim (Bool-cases (test x)) [
  | inl t ↦ let e : x ≡ c = ground arith in (here (sym e), rw (← e) t)
  | inr t ↦ let (m, k) = find_chip-eq-some test xs {c = c} (rw t at h) in (there m, k)
]

abbrev apart : Chip → Chip → Bool
apart a b = ltb a.devid.1 b.devid.0 || ltb b.devid.1 a.devid.0

all_apart : List Chip → Bool
all_apart [] = true
all_apart (c ∷ cs) = all (apart c) cs && all_apart cs

not-covers_both : (a b : Chip) (d : ℕ) → apart a b ≡ true → covers a d ≡ true → covers b d ≡ false
unfolding covers
not-covers_both a b d h k = ground arith

all-In {ℓ} :
    {A : Type ℓ} (t : A → Bool) {a : A} {xs : List A} → all t xs ≡ true → In a xs → t a ≡ true
all-In t h (here e) = rw e (ground arith)
all-In t h (there m) = all-In t (ground arith) m

find_chip-In :
    (cs : List Chip) (d : ℕ) {c : Chip}
    → all_apart cs ≡ true
    → In c cs
    → covers c d ≡ true
    → find_chip (λ x. covers x d) cs ≡ some c
unfolding all_apart find_chip
find_chip-In [] d h m k = elim m [ ]
find_chip-In (x ∷ xs) d h (here e) k = let k' = rw e at k in rw e (ground arith)
find_chip-In (x ∷ xs) d {c} h (there m) k =
    let far : apart x c ≡ true = all-In (apart x) (ground arith) m in
    elim (Bool-cases (covers x d)) [
      | inl t ↦ absurd (ground (arith, not-covers_both x c d))
      | inr t ↦ ground (arith, find_chip-In xs d (ground arith) m k)
    ]

chips_apart : all_apart chips ≡ true
unfolding all_apart chips
chips_apart = refl

-- A chip is found for a device ID exactly when it is a row of the table whose range has the ID:
-- no ID is in the ranges of two rows, so the order of the rows does not matter.
pub chip_for_range_iff :
    (devid : ℕ) (c : Chip)
    → (chip_for_range devid ≡ some c) ↔ (In c chips × (covers c devid ≡ true))
unfolding chip_for_range
chip_for_range_iff devid c = (
  find_chip-eq-some (λ x. covers x devid) chips,
  λ h. find_chip-In chips devid chips_apart h.0 h.1,
)

-- What `properties` requires of a record, and what it takes over from it.
pub record IsSupported (vendor device : ℕ) (p : Records.Properties) (q : Properties) : Type 0 where
  pub is_nvidia : vendor ≡ nvidia
  pub is_gpu : p.kind ≡ gpu
  pub attached : p.attachment ≢ unknown
  pub same_attachment : q.attachment ≡ p.attachment
  pub same_name : q.chip.name ≡ p.profile
  pub in_table : In q.chip chips
  pub range_agrees : names_other (chip_for_range device) q.chip ≡ false

-- A catalog record grants register access only to an NVIDIA GPU with a known attachment, whose
-- profile is a row of the chip table, and whose device ID is not in the range of another chip.
pub properties-IsSupported :
    (vendor device : ℕ) (p : Records.Properties) {q : Properties}
    → properties vendor device p ≡ some q
    → IsSupported vendor device p q
unfolding properties
properties-IsSupported vendor device p {q} h =
    elim (Option-cases (find_chip (λ c. equal c.name p.profile) chips)) [
      | inl n ↦ absurd (ground arith)
      | inr (c, f) ↦
          let (m, t) = find_chip-eq-some (λ c. equal c.name p.profile) chips f in
          let made : q ≡ record { chip = c; attachment = p.attachment } = ground arith in
          rw made (record {
            is_nvidia = ground arith;
            is_gpu = ground (arith, kind_eq_iff p.kind gpu);
            attached = ground (arith, attachment_eq_iff p.attachment unknown);
            same_attachment = refl;
            same_name = (equal_iff c.name p.profile).0 t;
            in_table = m;
            range_agrees = ground arith;
          })
    ]
