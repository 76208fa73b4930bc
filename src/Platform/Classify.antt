-- ===== src/Platform/Classify.antt =====
-- The classification is decided by all GPUs, whatever their order.
use mathlib.Core.List.{Permᴰ}
use pcilibs_rs.Prelude.{
  true, Option, none, some, List, [], ◌∷◌, ok, ◌≡◌, refl, arith, ◌⊎◌, inr, ◌↔◌, ◌++◌,
}
use pcilibs_rs.Text.{Bytes}
use pcilibs_rs.Catalog.Records.{PciIdentity, Entry}
use pcilibs_rs.Catalog.Identity.{attachment_eq_iff}
use pcilibs_rs.Catalog.Validate.{validate}
use pcilibs_rs.Catalog.Lookup.{find}
use pcilibs_rs.Catalog.Extension.{Accepted, parse-Accepted}
use pcilibs_rs.Catalog.Queries.{lookup-Accepted}
use pcilibs_rs.Catalog.Snapshot.{Catalog, parse}
use pcilibs_rs.Gpu
use pcilibs_rs.Gpu.Chips.{Family}
use pcilibs_rs.Platform.{
  FabricInterface, Evidence, Tally, count_gpu, kind_of, evidence_eq, family_eq, evidence,
  count_gpus, classify_with_catalog, start,
}

family_eq_iff : (a b : Family) → (family_eq a b ≡ true) ↔ (a ≡ b)
family_eq_iff Family.hopper _ = ground arith
family_eq_iff _ _ = ground arith

pub evidence_eq_iff : (a b : Evidence) → (evidence_eq a b ≡ true) ↔ (a ≡ b)
evidence_eq_iff a b =
    ground (arith, family_eq_iff a.family b.family, attachment_eq_iff a.attachment b.attachment)

-- Two tallies that classify alike: `first` counts only while nothing is mixed.
record Alike (s t : Tally) : Type 0 where
  unknown : s.unknown ≡ t.unknown
  mixed : s.mixed ≡ t.mixed
  gpu_count : s.gpu_count ≡ t.gpu_count
  first : (s.mixed ≡ true) ⊎ (s.first ≡ t.first)

Alike-refl : (s : Tally) → Alike s s
Alike-refl s = record { unknown = refl; mixed = refl; gpu_count = refl; first = inr refl }

Alike-trans : (s t u : Tally) → Alike s t → Alike t u → Alike s u
Alike-trans s t u h k = ground arith

count_gpu-Alike :
    (e : Option Evidence) (s t : Tally) → Alike s t → Alike (count_gpu e s) (count_gpu e t)
unfolding count_gpu
count_gpu-Alike none s t h = ground arith
count_gpu-Alike (some e) s t h = ground arith

count_gpu_comm :
    (a b : Option Evidence) (t : Tally)
    → Alike (count_gpu a (count_gpu b t)) (count_gpu b (count_gpu a t))
unfolding count_gpu
count_gpu_comm none none t = ground arith
count_gpu_comm none (some b) t = ground arith
count_gpu_comm (some a) none t = ground arith
count_gpu_comm (some a) (some b) t = ground (arith, evidence_eq_iff a b, evidence_eq_iff b a)

kind_of-Alike : (s t : Tally) (f : FabricInterface) → Alike s t → kind_of s f ≡ kind_of t f
unfolding kind_of
kind_of-Alike s t f h = ground arith

-- The loop, on what `ev` says of each GPU.
abbrev pub count_with : (PciIdentity → Option Evidence) → List PciIdentity → Tally → Tally
count_with ev [] t = t
count_with ev (g ∷ gs) t = count_with ev gs (count_gpu (ev g) t)

count_with-Alike :
    (ev : PciIdentity → Option Evidence) (gs : List PciIdentity) (s t : Tally)
    → Alike s t
    → Alike (count_with ev gs s) (count_with ev gs t)
count_with-Alike ev [] s t h = h
count_with-Alike ev (g ∷ gs) s t h = count_with-Alike ev gs _ _ (count_gpu-Alike (ev g) s t h)

count_with-Permᴰ :
    (ev : PciIdentity → Option Evidence) {gs hs : List PciIdentity} (t : Tally)
    → Permᴰ gs hs
    → Alike (count_with ev gs t) (count_with ev hs t)
count_with-Permᴰ ev t Permᴰ.nil = Alike-refl t
count_with-Permᴰ ev t (Permᴰ.cons {a} e p) = rw (← e) (count_with-Permᴰ ev (count_gpu (ev a) t) p)
count_with-Permᴰ ev t (Permᴰ.swap {a} {b} {l} e f) =
    rw (← e, ← f) (count_with-Alike ev l _ _ (count_gpu_comm (ev b) (ev a) t))
count_with-Permᴰ ev t (Permᴰ.trans p q) =
    Alike-trans _ _ _ (count_with-Permᴰ ev t p) (count_with-Permᴰ ev t q)

-- What an accepted catalog and the register profiles say of a GPU.
abbrev pub seen : List Entry → PciIdentity → Option Evidence
seen es gpu = elim (find es gpu) [
  | none ↦ none
  | some p ↦ elim (Gpu.properties gpu.vendor gpu.device p) [
    | none ↦ none
    | some q ↦ some (record { family = q.chip.family; attachment = q.attachment })
  ]
]

module _ (builtin_text : Bytes) {c : Catalog} (a : Accepted builtin_text c) where
  pub evidence-Accepted :
      (gpu : PciIdentity) → evidence builtin_text c gpu ≡ ok (seen (a.own ++ a.known) gpu)
  unfolding evidence
  evidence-Accepted gpu = rw (lookup-Accepted builtin_text a gpu) (ground arith)

  count_gpus-Accepted :
      (gpus : List PciIdentity) (t : Tally)
      → count_gpus builtin_text c gpus t ≡ ok (count_with (seen (a.own ++ a.known)) gpus t)
  unfolding count_gpus
  count_gpus-Accepted [] t = refl
  count_gpus-Accepted (g ∷ gs) t = rw (evidence-Accepted g) (count_gpus-Accepted gs _)

  -- The tally of the whole loop decides the platform.
  pub classify-Accepted :
      (gpus : List PciIdentity) (fabric : FabricInterface)
      → classify_with_catalog builtin_text gpus fabric c ≡ (
          let t = count_with (seen (a.own ++ a.known)) gpus start in
          ok (record { kind = kind_of t fabric; fabric = fabric; gpu_count = t.gpu_count }))
  unfolding classify_with_catalog
  classify-Accepted gpus fabric = rw (count_gpus-Accepted gpus start)

-- With an accepted catalog, the order in which the GPUs are listed does not change the platform.
pub classify-perm :
    (builtin_text text : Bytes) {c : Catalog} (fabric : FabricInterface)
    {gpus others : List PciIdentity}
    → validate builtin_text ≡ ok tt
    → parse builtin_text text ≡ ok c
    → Permᴰ gpus others
    → classify_with_catalog builtin_text gpus fabric c
      ≡ classify_with_catalog builtin_text others fabric c
classify-perm builtin_text text {c} fabric {gpus} {others} bundled h p =
    let a = parse-Accepted builtin_text bundled text h in
    let same = count_with-Permᴰ (seen (a.own ++ a.known)) start p in
    rw
      (classify-Accepted builtin_text a gpus fabric, classify-Accepted builtin_text a others fabric)
      (ground (arith, same.gpu_count, kind_of-Alike _ _ fabric same))
