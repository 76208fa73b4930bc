-- ===== src/Platform/Uniform.antt =====
-- A platform is named exactly when every GPU has the same known evidence.
use pcilibs_rs.Prelude.{
  ℕ, ◌+◌, false, Option, none, some, List, [], ◌∷◌, ok, ◌≡◌, refl, arith, ◌⊎◌, inl, inr, ◌↔◌,
  length, All, ◌∙◌, sym, ap, ◌++◌, ◌≢◌, Option-cases,
}
use pcilibs_rs.Text.{Bytes}
use pcilibs_rs.Catalog.Records.{PciIdentity}
use pcilibs_rs.Catalog.Validate.{validate}
use pcilibs_rs.Catalog.Extension.{Accepted, parse-Accepted}
use pcilibs_rs.Catalog.Snapshot.{Catalog, parse}
use pcilibs_rs.Platform.Classify.{
  evidence_eq_iff, count_with, seen, evidence-Accepted, classify-Accepted,
}
use pcilibs_rs.Platform.{
  Kind, FabricInterface, Evidence, Tally, Platform, count_gpu, kind_of, evidence,
  classify_with_catalog, start, named,
}

gpu_count-count_gpu :
    (x : Option Evidence) (t : Tally) → (count_gpu x t).gpu_count ≡ t.gpu_count + 1
unfolding count_gpu
gpu_count-count_gpu none t = refl
gpu_count-count_gpu (some e) t = ground arith

pub gpu_count-count_with :
    (ev : PciIdentity → Option Evidence) (gs : List PciIdentity) (t : Tally)
    → (count_with ev gs t).gpu_count ≡ t.gpu_count + length gs
gpu_count-count_with ev [] t = omega arith
gpu_count-count_with ev (g ∷ gs) t =
    omega (arith, gpu_count-count_with ev gs (count_gpu (ev g) t), gpu_count-count_gpu (ev g) t)

-- The tally has seen nothing but `e`, or nothing at all.
record Sees (e : Evidence) (t : Tally) : Type 0 where
  known : t.unknown ≡ false
  unmixed : t.mixed ≡ false
  first : (t.first ≡ none) ⊎ (t.first ≡ some e)

Sees-count_gpu :
    (e : Evidence) (x : Option Evidence) (t : Tally)
    → Sees e (count_gpu x t)
    → (x ≡ some e) × Sees e t
unfolding count_gpu
Sees-count_gpu e none t s = ground arith
Sees-count_gpu e (some x) t s = elim (Option-cases t.first) [
  | inl h ↦ ground arith
  | inr (y, h) ↦ ground (arith, evidence_eq_iff y x)
]

Sees-count_with :
    (ev : PciIdentity → Option Evidence) (e : Evidence) (gs : List PciIdentity) (t : Tally)
    → Sees e (count_with ev gs t)
    → All (λ g. ev g ≡ some e) gs × Sees e t
Sees-count_with ev e [] t s = (tt, s)
Sees-count_with ev e (g ∷ gs) t s =
    let (later, s') = Sees-count_with ev e gs (count_gpu (ev g) t) s in
    let (this, s'') = Sees-count_gpu e (ev g) t s' in ((this, later), s'')

-- `e` is the evidence of each GPU behind the first.
record Holds (e : Evidence) (t : Tally) : Type 0 where
  known : t.unknown ≡ false
  unmixed : t.mixed ≡ false
  first : t.first ≡ some e

Holds-count_gpu : (e : Evidence) (t : Tally) → Sees e t → Holds e (count_gpu (some e) t)
unfolding count_gpu
Holds-count_gpu e t h = elim (Option-cases t.first) [
  | inl n ↦ ground arith
  | inr (y, n) ↦ ground (arith, evidence_eq_iff y e)
]

Holds-count_with :
    (ev : PciIdentity → Option Evidence) (e : Evidence) (gs : List PciIdentity) (t : Tally)
    → Holds e t
    → All (λ g. ev g ≡ some e) gs
    → Holds e (count_with ev gs t)
Holds-count_with ev e [] t h a = h
Holds-count_with ev e (g ∷ gs) t h a =
    Holds-count_with ev e gs _
      (rw a.0 (
        Holds-count_gpu e t (record { known = h.known; unmixed = h.unmixed; first = inr h.first })))
      a.1

-- All that the kind rests on, where it is neither unknown nor mixed.
pub record IsUniform (builtin_text : Bytes) (c : Catalog) (gpus : List PciIdentity)
    (fabric : FabricInterface) (kind : Kind) : Type 0 where
  pub seen_as : Evidence
  pub some_gpu : gpus ≢ []
  pub every_gpu : All (λ g. evidence builtin_text c g ≡ ok (some seen_as)) gpus
  pub one_fabric : fabric ≢ FabricInterface.mixed
  pub is_named : kind ≡ named (some seen_as) fabric

-- A kind that names a platform.
abbrev pub IsNamed : Kind → Type 0
IsNamed kind = (kind ≢ Kind.unknown) × (kind ≢ Kind.mixed)

kind_of-named :
    (t : Tally) (fabric : FabricInterface)
    → IsNamed (kind_of t fabric)
    → (e : Evidence) × Holds e t
      × (fabric ≢ FabricInterface.mixed)
      × (kind_of t fabric ≡ named (some e) fabric)
unfolding kind_of
kind_of-named t fabric n = elim (Option-cases t.first) [
  | inl h ↦ absurd (ground arith)
  | inr (e, h) ↦ (e, ground arith, ground arith, ground arith)
]

kind_of-Holds :
    (e : Evidence) (t : Tally) (fabric : FabricInterface)
    → Holds e t
    → fabric ≢ FabricInterface.mixed
    → kind_of t fabric ≡ named (some e) fabric
unfolding kind_of
kind_of-Holds e t fabric h n = ground arith

not-Holds-start : (e : Evidence) → ¬ Holds e start
not-Holds-start e h = cc h.first

abbrev pub reports : ℕ → FabricInterface → Kind → Platform
reports n fabric kind = record { kind = kind; fabric = fabric; gpu_count = n }

module _ (builtin_text : Bytes) {c : Catalog} (a : Accepted builtin_text c) where
  All-evidence :
      (e : Evidence) (gs : List PciIdentity)
      → All (λ g. seen (a.own ++ a.known) g ≡ some e) gs
      → All (λ g. evidence builtin_text c g ≡ ok (some e)) gs
  All-evidence e [] h = tt
  All-evidence e (g ∷ gs) h =
      (evidence-Accepted builtin_text a g ∙ ap ok h.0, All-evidence e gs h.1)

  All-seen :
      (e : Evidence) (gs : List PciIdentity)
      → All (λ g. evidence builtin_text c g ≡ ok (some e)) gs
      → All (λ g. seen (a.own ++ a.known) g ≡ some e) gs
  All-seen e [] h = tt
  All-seen e (g ∷ gs) h = (cc (evidence-Accepted builtin_text a g), All-seen e gs h.1)

  abbrev total : List PciIdentity → Tally
  total gpus = count_with (seen (a.own ++ a.known)) gpus start

  IsUniform-of_kind :
      (gpus : List PciIdentity) (fabric : FabricInterface)
      → IsNamed (kind_of (total gpus) fabric)
      → IsUniform builtin_text c gpus fabric (kind_of (total gpus) fabric)
  IsUniform-of_kind gpus fabric n =
      let (e, h, one, same) = kind_of-named (total gpus) fabric n in
      let sees : Sees e (total gpus) = record {
        known = h.known;
        unmixed = h.unmixed;
        first = inr h.first;
      } in
      record {
        seen_as = e;
        some_gpu = λ empty. not-Holds-start e (rw empty at h);
        every_gpu = All-evidence e gpus (Sees-count_with _ e gpus start sees).0;
        one_fabric = one;
        is_named = same;
      }

  kind_of-IsUniform :
      (gpus : List PciIdentity) (fabric : FabricInterface) (kind : Kind)
      → IsUniform builtin_text c gpus fabric kind
      → kind_of (total gpus) fabric ≡ kind
  kind_of-IsUniform [] fabric kind u = absurd (u.some_gpu refl)
  kind_of-IsUniform (g ∷ gs) fabric kind u =
      let e = u.seen_as in
      let at_all = All-seen e (g ∷ gs) u.every_gpu in
      let fresh : Sees e start = record { known = refl; unmixed = refl; first = inl refl } in
      let h =
        Holds-count_with (seen (a.own ++ a.known)) e gs
          (count_gpu (seen (a.own ++ a.known) g) start)
          (rw at_all.0 (Holds-count_gpu e start fresh)) at_all.1 in
      kind_of-Holds e (total (g ∷ gs)) fabric h u.one_fabric ∙ sym u.is_named

-- With an accepted catalog and for a kind that names a platform: the kind is reported, with the
-- fabric and the number of GPUs, exactly when there is a GPU, every GPU has the same family and
-- attachment, the fabric is not mixed, and these name that kind.
pub classify-named_iff :
    (builtin_text text : Bytes) {c : Catalog} (gpus : List PciIdentity) (fabric : FabricInterface)
    (kind : Kind)
    → validate builtin_text ≡ ok tt
    → parse builtin_text text ≡ ok c
    → IsNamed kind
    → (classify_with_catalog builtin_text gpus fabric c ≡ ok (reports (length gpus) fabric kind))
      ↔ IsUniform builtin_text c gpus fabric kind
classify-named_iff builtin_text text {c} gpus fabric kind bundled h n =
    let a = parse-Accepted builtin_text bundled text h in
    let is = classify-Accepted builtin_text a gpus fabric in
    let counted = gpu_count-count_with (seen (a.own ++ a.known)) gpus start in
    (
      λ e.
          let k : kind_of (total builtin_text a gpus) fabric ≡ kind = cc is in
          rw k at (IsUniform-of_kind builtin_text a gpus fabric (rw k n)),
      λ u. is ∙ rw (kind_of-IsUniform builtin_text a gpus fabric kind u) (ground (arith, counted)),
    )
