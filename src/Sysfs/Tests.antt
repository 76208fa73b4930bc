-- ===== src/Sysfs/Tests.antt =====
-- Paths under a test tree, and the theorems at them.
use pcilibs_rs.Prelude.{some, false, [], ◌∷◌, ◌++◌, ◌≡◌, refl}
use pcilibs_rs.Text.{Bytes, codes, split_once}
use pcilibs_rs.Text.Hex.{from_str_radix, digit, digits}
use pcilibs_rs.Bdf.{render, normalize_bdf}
use pcilibs_rs.Sysfs.{
  Sysfs, default, normal, join, components, is_component, device, devices, driver, bus_pci,
  module_path, underscored,
}
use pcilibs_rs.Sysfs.Confined.{device-components}

abbrev fake : Sysfs
fake = record { root = codes "/tmp/fake" }

device-short : device default (codes "65:00.0") ≡ some (codes "/sys/bus/pci/devices/0000:65:00.0")
unfolding device devices normalize_bdf split_once from_str_radix digit digits render
device-short = refl

driver-vfio : driver fake (codes "vfio-pci") ≡ some (codes "/tmp/fake/bus/pci/drivers/vfio-pci")
unfolding driver is_component bus_pci
driver-vfio = refl

module_path-vfio : module_path fake (codes "vfio-pci") ≡ some (codes "/tmp/fake/module/vfio_pci")
unfolding module_path is_component join underscored
module_path-vfio = refl

refused_names :
    (is_component (codes "../../../etc") ≡ false)
    × (is_component (codes "/etc") ≡ false)
    × (is_component (codes "vfio-pci/..") ≡ false)
    × (is_component (codes "vfio-pci/") ≡ false)
    × (is_component (codes "..") ≡ false)
    × (is_component (codes ".") ≡ false)
    × (is_component (codes "") ≡ false)
unfolding is_component
refused_names = (refl, refl, refl, refl, refl, refl, refl)

device-components_example :
    (bdf : Bytes) × (normalize_bdf (codes "65:00.0") ≡ some bdf)
    × (components (codes "/sys/bus/pci/devices/0000:65:00.0")
        ≡ components (devices default) ++ normal bdf ∷ [])
device-components_example = device-components default (codes "65:00.0") device-short
