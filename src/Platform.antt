-- ===== src/Platform.antt =====
-- src/platform.rs: the platform that GPU identities and the fabric interface establish.
pub mod Classify
pub mod Uniform
pub mod Discovery
mod Tests
use pcilibs_rs.Prelude.{
  ℕ, ◌+◌, Bool, true, false, ◌&&◌, ◌||◌, not, Option, none, some, List, [], ◌∷◌, if◌then◌else◌,
  Result, ok, err, ◌>>=◌,
}
use pcilibs_rs.Text.{Bytes}
use pcilibs_rs.Catalog.Records.{Attachment, attachment_eq, PciIdentity}
use pcilibs_rs.Catalog.Validate.{Checked}
use pcilibs_rs.Catalog.Snapshot.{Catalog, builtin, lookup}
use pcilibs_rs.Gpu
use pcilibs_rs.Gpu.Chips.{Family}

pub data Kind : Type 0 where
  unknown : Kind
  pcie : Family → Kind
  hgx_hx00 : Kind
  hgx_bx00 : Kind
  hgx_rx00 : Kind
  coherent : Family → Kind
  mixed : Kind

pub data FabricInterface : Type 0 where
  absent direct_nv_switch connect_x mixed : FabricInterface

unfoldable pub from_presence : Bool → Bool → FabricInterface
from_presence false false = absent
from_presence true false = direct_nv_switch
from_presence false true = connect_x
from_presence true true = FabricInterface.mixed

pub record Platform : Type 0 where
  pub kind : Kind
  pub fabric : FabricInterface
  pub gpu_count : ℕ

abbrev pub family_eq : Family → Family → Bool
family_eq Family.hopper Family.hopper = true
family_eq Family.blackwell Family.blackwell = true
family_eq Family.rubin Family.rubin = true
family_eq _ _ = false

-- The family and the attachment of one GPU.
pub record Evidence : Type 0 where
  pub family : Family
  pub attachment : Attachment

abbrev pub evidence_eq : Evidence → Evidence → Bool
evidence_eq a b = family_eq a.family b.family && attachment_eq a.attachment b.attachment

-- The variables of the loop.
pub record Tally : Type 0 where
  pub first : Option Evidence
  pub unknown : Bool
  pub mixed : Bool
  pub gpu_count : ℕ

abbrev pub start : Tally
start = record { first = none; unknown = false; mixed = false; gpu_count = 0 }

-- `match first { None => .., Some(previous) => .. }`
abbrev compare_first : Evidence → Option Evidence → Tally → Tally
compare_first e none t = record t { first = some e }
compare_first e (some previous) t = record t { mixed = t.mixed || not (evidence_eq previous e) }

-- The body of the loop, on what the catalog and the register profiles say of the GPU.
unfoldable pub count_gpu : Option Evidence → Tally → Tally
count_gpu none t = record t { unknown = true; gpu_count = t.gpu_count + 1 }
count_gpu (some e) t = compare_first e t.first (record t { gpu_count = t.gpu_count + 1 })

abbrev pub sxm_kind : Family → FabricInterface → Kind
sxm_kind Family.hopper direct_nv_switch = hgx_hx00
sxm_kind Family.blackwell connect_x = hgx_bx00
sxm_kind Family.rubin connect_x = hgx_rx00
sxm_kind _ _ = Kind.unknown

abbrev pub attached_kind : Attachment → Family → FabricInterface → Kind
attached_kind Attachment.coherent family fabric = Kind.coherent family
attached_kind Attachment.pcie family fabric = Kind.pcie family
attached_kind Attachment.sxm family fabric = sxm_kind family fabric
attached_kind Attachment.unknown family fabric = Kind.unknown

-- The `match (first, fabric)` behind the loop.
abbrev pub named : Option Evidence → FabricInterface → Kind
named none fabric = Kind.unknown
named (some e) fabric = attached_kind e.attachment e.family fabric

abbrev pub is_mixed : FabricInterface → Bool
is_mixed FabricInterface.mixed = true
is_mixed _ = false

unfoldable pub kind_of : Tally → FabricInterface → Kind
kind_of t fabric =
    if t.mixed || is_mixed fabric
    then Kind.mixed
    else if t.unknown
    then Kind.unknown
    else named t.first fabric

module _ (builtin_text : Bytes) where
  -- `catalog.lookup(gpu).and_then(|record| gpu::properties(..))`, and the identity made of it
  unfoldable pub evidence : Catalog → PciIdentity → Checked (Option Evidence)
  evidence c gpu = do
    found ← lookup builtin_text c gpu
    elim found [
      | none ↦ ok none
      | some p ↦ elim (Gpu.properties gpu.vendor gpu.device p) [
        | none ↦ ok none
        | some q ↦ ok (some (record { family = q.chip.family; attachment = q.attachment }))
      ]
    ]

  unfoldable pub count_gpus : Catalog → List PciIdentity → Tally → Checked Tally
  unfolding evidence count_gpu
  count_gpus c [] t = ok t
  count_gpus c (gpu ∷ gpus) t = do e ← evidence c gpu; count_gpus c gpus (count_gpu e t)

  unfoldable pub classify_with_catalog :
      List PciIdentity → FabricInterface → Catalog → Checked Platform
  unfolding count_gpus kind_of
  classify_with_catalog gpus fabric c = do
    t ← count_gpus c gpus start
    ok (record { kind = kind_of t fabric; fabric = fabric; gpu_count = t.gpu_count })

  unfoldable pub classify : List PciIdentity → FabricInterface → Checked Platform
  unfolding classify_with_catalog
  classify gpus fabric = classify_with_catalog gpus fabric (builtin builtin_text)
