-- ===== src/Vfio/Modules.antt =====
-- src/vfio.rs: the module for a device, from the kernel's table of aliases. The kinds of VFIO device
-- of src/linux.rs.
use pcilibs_rs.Prelude.{
  ℕ, zero, suc, ◌+◌, ◌-◌, ◌/◌, ◌%◌, Bool, true, false, ◌||◌, ltb, Option, none, some, List, [], ◌∷◌,
  ◌++◌, any, if◌then◌else◌, Result, ◌>>=◌, ok_or,
}
use pcilibs_rs.Text.{Bytes, codes, equal, strip_prefix, lines, split_whitespace}
use pcilibs_rs.Sysfs.{FilePath}
use pcilibs_rs.Files.{Files, IoError, not_found}

abbrev upper_char : ℕ → ℕ
upper_char d = if ltb d 10 then b'0' + d else b'A' + (d - 10)

-- `{n:0kX}`
unfoldable pub upper_hex : ℕ → ℕ → Bytes
upper_hex zero n = []
upper_hex (suc k) n = upper_hex k (n / 16) ++ upper_char (n % 16) ∷ []

abbrev is_some : Option Bytes → Bool
is_some none = false
is_some (some rest) = true

-- `line.contains(wanted)`
unfoldable pub contains : Bytes → Bytes → Bool
unfolding strip_prefix
contains wanted [] = is_some (strip_prefix wanted [])
contains wanted (c ∷ s) = is_some (strip_prefix wanted (c ∷ s)) || contains wanted s

-- `next_back`
unfoldable pub last : List Bytes → Option Bytes
last [] = none
last (x ∷ []) = some x
last (x ∷ y ∷ xs) = last (y ∷ xs)

abbrev pub last_word : Option Bytes → Option Bytes
last_word none = none
last_word (some line) = last (split_whitespace line)

-- `lines().find(..)`
unfoldable pub find_line : Bytes → List Bytes → Option Bytes
unfolding contains
find_line wanted [] = none
find_line wanted (line ∷ rest) =
    let later = find_line wanted rest in if contains wanted line then some line else later

-- `format!("vfio_pci:v{vendor:08X}d{device:08X}")`
unfoldable pub wanted_alias : ℕ → ℕ → Bytes
unfolding upper_hex
wanted_alias vendor device =
    codes "vfio_pci:v" ++ (upper_hex 8 vendor ++ (b'd' ∷ upper_hex 8 device))

module _ {S : Type 0} (files : Files S) where
  unfoldable pub module_for : FilePath → ℕ → ℕ → S → Result IoError Bytes
  unfolding find_line wanted_alias last split_whitespace lines
  module_for modules_alias vendor device s = do
    table ← files.read_to_string modules_alias s
    ok_or (last_word (find_line (wanted_alias vendor device) (lines table))) not_found

abbrev pub driver_vfio_pci_gk_type : Bytes
driver_vfio_pci_gk_type = codes "vfio-pci-gk"

abbrev pub driver_vfio_pci_type : Bytes
driver_vfio_pci_type = codes "vfio-pci"

abbrev pub driver_vfio_ap_type : Bytes
driver_vfio_ap_type = codes "vfio-ap"

abbrev pub driver_vfio_ap_cold_type : Bytes
driver_vfio_ap_cold_type = codes "vfio-ap-cold"

unfoldable pub is_vfio_device_type : Bytes → Bool
unfolding equal
is_vfio_device_type device_type = any (equal device_type) (
    driver_vfio_pci_type ∷ driver_vfio_pci_gk_type ∷ driver_vfio_ap_type ∷ driver_vfio_ap_cold_type
    ∷ [])
