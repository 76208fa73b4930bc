-- ===== src/Catalog/Identity.antt =====
-- Two records overlap exactly when some identity matches both; the order of the keys.
use pcilibs_rs.Prelude.{ℕ, ◌≡◌, ◌↔◌, true, Option, none, some, arith, refl}
use pcilibs_rs.Text.Equality.{equal_iff}
use pcilibs_rs.Catalog.Records.{
  DeviceKind, gpu, Attachment, pcie, Properties, PciIdentity, Entry, Key, kind_eq, attachment_eq,
  properties_eq, admits, matches, compatible, overlaps, key_ltb, key_leb,
}

pub kind_eq_iff : (a b : DeviceKind) → (kind_eq a b ≡ true) ↔ (a ≡ b)
kind_eq_iff gpu _ = ground arith
kind_eq_iff _ _ = ground arith

pub attachment_eq_iff : (a b : Attachment) → (attachment_eq a b ≡ true) ↔ (a ≡ b)
attachment_eq_iff pcie _ = ground arith
attachment_eq_iff _ _ = ground arith

pub properties_eq_iff : (p q : Properties) → (properties_eq p q ≡ true) ↔ (p ≡ q)
unfolding properties_eq
properties_eq_iff p q = ground (
  arith,
  kind_eq_iff p.kind q.kind,
  equal_iff p.profile q.profile,
  attachment_eq_iff p.attachment q.attachment,
)

-- A subsystem column's common value.
meet : Option ℕ → Option ℕ → ℕ
meet none none = 0
meet none (some b) = b
meet (some a) _ = a

admits-meet :
    (x y : Option ℕ)
    → compatible x y ≡ true
    → (admits x (meet x y) ≡ true) × (admits y (meet x y) ≡ true)
unfolding meet
admits-meet none none h = ground arith
admits-meet none (some b) h = ground arith
admits-meet (some a) none h = ground arith
admits-meet (some a) (some b) h = ground arith

compatible_of_admits :
    (x y : Option ℕ) (v : ℕ) → admits x v ≡ true → admits y v ≡ true → compatible x y ≡ true
compatible_of_admits none y v h k = refl
compatible_of_admits (some a) none v h k = refl
compatible_of_admits (some a) (some b) v h k = ground arith

-- An identity that two records share.
pub common : Entry → Entry → PciIdentity
common e f = record {
  vendor = e.vendor;
  device = e.device;
  subsystem_vendor = meet e.subsystem_vendor f.subsystem_vendor;
  subsystem_device = meet e.subsystem_device f.subsystem_device;
}

pub matches-common :
    (e f : Entry)
    → overlaps e f ≡ true
    → (matches e (common e f) ≡ true) × (matches f (common e f) ≡ true)
unfolding overlaps matches common
matches-common e f h = ground (
  arith,
  admits-meet e.subsystem_vendor f.subsystem_vendor,
  admits-meet e.subsystem_device f.subsystem_device,
)

pub overlaps_of_matches :
    (e f : Entry) (i : PciIdentity) → matches e i ≡ true → matches f i ≡ true → overlaps e f ≡ true
unfolding overlaps matches
overlaps_of_matches e f i h k = ground (
  arith,
  compatible_of_admits e.subsystem_vendor f.subsystem_vendor i.subsystem_vendor,
  compatible_of_admits e.subsystem_device f.subsystem_device i.subsystem_device,
)

-- `overlaps` is true of two records exactly when some identity matches both.
pub overlaps_iff :
    (e f : Entry)
    → (overlaps e f ≡ true) ↔ ((i : PciIdentity) × (matches e i ≡ true) × (matches f i ≡ true))
overlaps_iff e f = (
  λ h. (common e f, (matches-common e f h).0, (matches-common e f h).1),
  λ h. overlaps_of_matches e f h.0 h.1 h.2,
)

pub overlaps_comm : (e f : Entry) → overlaps e f ≡ true → overlaps f e ≡ true
overlaps_comm e f h =
    overlaps_of_matches f e (common e f) (matches-common e f h).1 (matches-common e f h).0

pub key_ltb_trans : (a b c : Key) → key_ltb a b ≡ true → key_ltb b c ≡ true → key_ltb a c ≡ true
unfolding key_ltb
key_ltb_trans a b c h k = ground arith

pub key_ltb_of_leb : (a b c : Key) → key_leb a b ≡ true → key_ltb b c ≡ true → key_ltb a c ≡ true
unfolding key_leb
key_ltb_of_leb a b c h k = ground arith
