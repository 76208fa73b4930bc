-- ===== src/PciIds/Identified.antt =====
-- The lookups of the database by the two IDs of a device and of a subclass.
use pcilibs_rs.Prelude.{ℕ, some, List, ◌≡◌, ◌↔◌, ap}
use pcilibs_rs.PciIds.{
  Device, Vendor, Subclass, Class, Database, vendor_from_id, class_from_id, from_vid_pid, vendor_of,
  from_cid_sid, as_vid_pid, as_cid_sid,
}
use pcilibs_rs.PciIds.Lookups.{IsIndexed, IsListed, lookup-IsListed, IsListed-lookup}

abbrev pub devices_of : Vendor → List Device
devices_of v = v.devices

abbrev pub device_vendor : Device → ℕ
device_vendor d = d.vendor_id

abbrev pub device_id : Device → ℕ
device_id d = d.id

abbrev pub subclasses_of : Class → List Subclass
subclasses_of c = c.subclasses

abbrev pub subclass_class : Subclass → ℕ
subclass_class s = s.class_id

abbrev pub subclass_id : Subclass → ℕ
subclass_id s = s.id

module _ (database : Database) where
  -- Every vendor is alone under its ID, and its devices are marked with it, each with an ID of
  -- its own; so too the classes.
  pub record IsOrderly : Type 0 where
    pub vendors : IsIndexed devices_of device_vendor device_id database.vendors
    pub classes : IsIndexed subclasses_of subclass_class subclass_id database.classes

  module _ (orderly : IsOrderly) where
    -- In tables that are in order: a lookup by vendor and device ID gives a device exactly if
    -- some vendor of the table has it and these are its IDs.
    pub from_vid_pid_iff :
        (vid pid : ℕ) (d : Device)
        → (from_vid_pid database vid pid ≡ some d) ↔ (
            IsListed devices_of device_vendor device_id database.vendors d
            × (as_vid_pid d ≡ (vid, pid)))
    unfolding from_vid_pid vendor_from_id
    from_vid_pid_iff vid pid d = (
      λ h.
          (let (listed, v, p, _) =
              lookup-IsListed devices_of device_vendor device_id orderly.vendors vid pid d h in
            (listed, cc (v, p))),
      λ (listed, e).
          (IsListed-lookup devices_of device_vendor device_id orderly.vendors vid pid d listed
            (ap (λ x. x.0) e) (ap (λ x. x.1) e)),
    )

    -- In tables that are in order: the vendor of a device that a lookup gives can be looked up
    -- itself, so that `Device::vendor` does not panic, and is the one under the ID asked for.
    pub vendor_of-from_vid_pid :
        (vid pid : ℕ) (d : Device)
        → from_vid_pid database vid pid ≡ some d
        → (v : Vendor) × (vendor_of database d ≡ some v) × (vendor_from_id database vid ≡ some v)
    unfolding from_vid_pid vendor_of vendor_from_id
    vendor_of-from_vid_pid vid pid d h =
        let (_, key, _, (v, found)) =
          lookup-IsListed devices_of device_vendor device_id orderly.vendors vid pid d h in
        (v, rw key found, found)

    -- In tables that are in order: a lookup by class and subclass ID gives a subclass exactly if
    -- some class of the table has it and these are its IDs.
    pub from_cid_sid_iff :
        (cid sid : ℕ) (s : Subclass)
        → (from_cid_sid database cid sid ≡ some s) ↔ (
            IsListed subclasses_of subclass_class subclass_id database.classes s
            × (as_cid_sid s ≡ (cid, sid)))
    unfolding from_cid_sid class_from_id
    from_cid_sid_iff cid sid s = (
      λ h.
          (let (listed, c, p, _) =
              lookup-IsListed subclasses_of subclass_class subclass_id orderly.classes cid sid s
                h in
            (listed, cc (c, p))),
      λ (listed, e).
          (IsListed-lookup subclasses_of subclass_class subclass_id orderly.classes cid sid s listed
            (ap (λ x. x.0) e) (ap (λ x. x.1) e)),
    )
