-- ===== src/Nvlink/Tests.antt =====
-- A switch, and a management function whose sibling carries the marker, with the theorem at them.
use pcilibs_rs.Prelude.{Bool, true, List, [], ◌∷◌, ◌≡◌, refl, ok}
use pcilibs_rs.Text.{Bytes, codes, equal, split}
use pcilibs_rs.Sysfs.{default}
use pcilibs_rs.Files.{Files, no_files}
use pcilibs_rs.Nvlink.Vpd.{vpd_sw_mng}
use pcilibs_rs.Nvlink.Fabric.{
  PciFunction, is_switch, slot, read_sw_mng, add_function, add_functions, in_slots, discover_fabric,
}

abbrev pub marker : Bytes
marker = 0x90 ∷ 14 ∷ 0 ∷ b'V' ∷ b'A' ∷ 11 ∷ codes "SMDL=SW_MNGx"

-- Every VPD file has the marker.
abbrev managers_only : Files Bool
managers_only = record (no_files (λ path text s. s)) {
  open_file = λ path s. ok tt;
  read_bytes = λ path s. ok marker;
}

abbrev bus : List PciFunction
bus =
    record { bdf = codes "0000:05:00.0"; vendor = 0x10de; class = 0x068000 }
    ∷ record { bdf = codes "0000:06:00.0"; vendor = 0x15b3; class = 0x020700 }
    ∷ record { bdf = codes "0000:07:00.0"; vendor = 0x10de; class = 0x030200 }
    ∷ []

discover-bus :
    discover_fabric managers_only default bus true
    ≡ ok (codes "0000:05:00.0" ∷ [], record { bdf = codes "0000:06:00.0"; sw_mng = true } ∷ [])
unfolding discover_fabric add_functions add_function read_sw_mng in_slots slot is_switch vpd_sw_mng
    split equal
discover-bus = refl
