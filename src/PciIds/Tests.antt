-- ===== src/PciIds/Tests.antt =====
-- A database of two vendors and a class, and the theorems at it.
use pcilibs_rs.Prelude.{
  ℕ, some, [], ◌∷◌, ◌≡◌, ◌↔◌, refl, ap, sym, ◌∙◌, arith, ◌⊎◌, inl, inr, In, here, there,
}
use pcilibs_rs.Text.{codes}
use pcilibs_rs.PciIds.{
  Device, Vendor, Subclass, Class, Database, find, get, vendor_from_id, from_vid_pid, from_cid_sid,
  as_vid_pid, as_cid_sid,
}
use pcilibs_rs.PciIds.Lookups.{IsListed}
use pcilibs_rs.PciIds.Identified.{
  IsOrderly, devices_of, device_vendor, device_id, subclasses_of, subclass_class, subclass_id,
  from_vid_pid_iff, from_cid_sid_iff,
}

abbrev h100 : Device
h100 = record {
  vendor_id = 0x10de;
  id = 0x2330;
  name = codes "GH100 [H100 SXM5 80GB]";
  subsystems = [];
}

abbrev e1000 : Device
e1000 = record {
  vendor_id = 0x8086;
  id = 0x100e;
  name = codes "82540EM Gigabit Ethernet Controller";
  subsystems = [];
}

abbrev nvidia : Vendor
nvidia = record { id = 0x10de; name = codes "NVIDIA Corporation"; devices = h100 ∷ [] }

abbrev intel : Vendor
intel = record { id = 0x8086; name = codes "Intel Corporation"; devices = e1000 ∷ [] }

abbrev serial : Subclass
serial = record { class_id = 7; id = 0; name = codes "Serial controller"; prog_ifs = [] }

abbrev communication : Class
communication = record { id = 7; name = codes "Communication controller"; subclasses = serial ∷ [] }

abbrev pub small : Database
small = record {
  vendors = (0x10de, nvidia) ∷ (0x8086, intel) ∷ [];
  classes = (7, communication) ∷ [];
}

vendor_at :
    (k : ℕ) (v : Vendor)
    → In (k, v) small.vendors
    → ((k ≡ 0x10de) × (v ≡ nvidia)) ⊎ ((k ≡ 0x8086) × (v ≡ intel))
vendor_at k v (here e) = inl (ap (λ x. x.0) e, ap (λ x. x.1) e)
vendor_at k v (there (here e)) = inr (ap (λ x. x.0) e, ap (λ x. x.1) e)
vendor_at k v (there (there m)) = elim m [ ]

class_at : (k : ℕ) (c : Class) → In (k, c) small.classes → (k ≡ 7) × (c ≡ communication)
class_at k c (here e) = (ap (λ x. x.0) e, ap (λ x. x.1) e)
class_at k c (there m) = elim m [ ]

In-one : {A : Type 0} {a b : A} → In a (b ∷ []) → a ≡ b
In-one (here e) = e
In-one (there m) = elim m [ ]

device_at :
    (k : ℕ) (v : Vendor) (d : Device)
    → In (k, v) small.vendors
    → In d (devices_of v)
    → ((k ≡ 0x10de) × (d ≡ h100)) ⊎ ((k ≡ 0x8086) × (d ≡ e1000))
device_at k v d m n = elim (vendor_at k v m) [
  | inl (p, e) ↦ inl (p, In-one (rw e at n))
  | inr (p, e) ↦ inr (p, In-one (rw e at n))
]

subclass_at :
    (k : ℕ) (c : Class) (s : Subclass)
    → In (k, c) small.classes
    → In s (subclasses_of c)
    → s ≡ serial
subclass_at k c s m n = In-one (rw ((class_at k c m).1) at n)

small-IsOrderly : IsOrderly small
small-IsOrderly = record {
  vendors = record {
    alone = λ k a b m n. ground (arith, vendor_at k a m, vendor_at k b n);
    owned = λ k a i m n. ground (arith, device_at k a i m n);
    one_item = λ k a i j m n o e. ground (arith, device_at k a i m n, device_at k a j m o);
  };
  classes = record {
    alone = λ k a b m n. (class_at k b n).1 ∙ sym ((class_at k a m).1);
    owned = λ k a i m n. ap subclass_class (subclass_at k a i m n) ∙ sym ((class_at k a m).0);
    one_item = λ k a i j m n o e. subclass_at k a j m o ∙ sym (subclass_at k a i m n);
  };
}

from_vid_pid-h100 : from_vid_pid small 0x10de 0x2330 ≡ some h100
unfolding from_vid_pid vendor_from_id find get
from_vid_pid-h100 = refl

from_vid_pid_iff_example : (from_vid_pid small 0x10de 0x2330 ≡ some h100) ↔ (
    IsListed devices_of device_vendor device_id small.vendors h100
    × (as_vid_pid h100 ≡ (0x10de, 0x2330)))
from_vid_pid_iff_example = from_vid_pid_iff small small-IsOrderly 0x10de 0x2330 h100

from_cid_sid_iff_example : (from_cid_sid small 7 0 ≡ some serial) ↔ (
    IsListed subclasses_of subclass_class subclass_id small.classes serial
    × (as_cid_sid serial ≡ (7, 0)))
from_cid_sid_iff_example = from_cid_sid_iff small small-IsOrderly 7 0 serial
