-- ===== src/Catalog/Records.antt =====
-- src/catalog/records.rs: identities, records and their comparison.
use pcilibs_rs.Prelude.{ℕ, suc, Bool, true, false, ◌&&◌, ◌||◌, Option, none, some, ◌==◌, ltb, not}
use pcilibs_rs.Text.{Bytes, equal}

pub data DeviceKind : Type 0 where
  gpu nic switch bridge other : DeviceKind

pub data Attachment : Type 0 where
  pcie sxm coherent unknown : Attachment

pub record Properties : Type 0 where
  pub kind : DeviceKind
  pub profile : Bytes
  pub attachment : Attachment

pub record PciIdentity : Type 0 where
  pub vendor : ℕ
  pub device : ℕ
  pub subsystem_vendor : ℕ
  pub subsystem_device : ℕ

-- `none` is the `*` of a subsystem column.
pub record Entry : Type 0 where
  pub vendor : ℕ
  pub device : ℕ
  pub subsystem_vendor : Option ℕ
  pub subsystem_device : Option ℕ
  pub properties : Properties

-- The derived `PartialEq` of the enums and of `Properties`.
abbrev pub kind_eq : DeviceKind → DeviceKind → Bool
kind_eq gpu gpu = true
kind_eq nic nic = true
kind_eq switch switch = true
kind_eq bridge bridge = true
kind_eq other other = true
kind_eq _ _ = false

abbrev pub attachment_eq : Attachment → Attachment → Bool
attachment_eq pcie pcie = true
attachment_eq sxm sxm = true
attachment_eq coherent coherent = true
attachment_eq unknown unknown = true
attachment_eq _ _ = false

unfoldable pub properties_eq : Properties → Properties → Bool
properties_eq p q =
    kind_eq p.kind q.kind && equal p.profile q.profile && attachment_eq p.attachment q.attachment

-- `is_none_or(|id| id == other)`
abbrev pub admits : Option ℕ → ℕ → Bool
admits none x = true
admits (some i) x = i == x

unfoldable pub matches : Entry → PciIdentity → Bool
matches e i =
    e.vendor == i.vendor
    && e.device == i.device
    && admits e.subsystem_vendor i.subsystem_vendor
    && admits e.subsystem_device i.subsystem_device

-- `a.is_none() || b.is_none() || a == b`
abbrev pub compatible : Option ℕ → Option ℕ → Bool
compatible none y = true
compatible (some a) none = true
compatible (some a) (some b) = a == b

unfoldable pub overlaps : Entry → Entry → Bool
overlaps e f =
    e.vendor == f.vendor
    && e.device == f.device
    && compatible e.subsystem_vendor f.subsystem_vendor
    && compatible e.subsystem_device f.subsystem_device

pub record Key : Type 0 where
  pub vendor : ℕ
  pub device : ℕ
  pub subsystem_vendor : Option ℕ
  pub subsystem_device : Option ℕ

abbrev pub key : Entry → Key
key e = record {
  vendor = e.vendor;
  device = e.device;
  subsystem_vendor = e.subsystem_vendor;
  subsystem_device = e.subsystem_device;
}

-- `None` comes before every `Some`.
abbrev pub rank : Option ℕ → ℕ
rank none = 0
rank (some a) = suc a

-- `a < b` of the tuples: lexicographic.
unfoldable pub key_ltb : Key → Key → Bool
key_ltb a b =
    ltb a.vendor b.vendor
    || a.vendor == b.vendor
      && (ltb a.device b.device
          || a.device == b.device
            && (ltb (rank a.subsystem_vendor) (rank b.subsystem_vendor)
                || rank a.subsystem_vendor == rank b.subsystem_vendor
                  && ltb (rank a.subsystem_device) (rank b.subsystem_device)))

-- `a <= b`: the order is total.
unfoldable pub key_leb : Key → Key → Bool
unfolding key_ltb
key_leb a b = not (key_ltb b a)

-- `a == b`
unfoldable pub key_eq : Key → Key → Bool
key_eq a b =
    a.vendor == b.vendor
    && a.device == b.device
    && rank a.subsystem_vendor == rank b.subsystem_vendor
    && rank a.subsystem_device == rank b.subsystem_device
