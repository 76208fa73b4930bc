-- ===== src/Sysfs.antt =====
-- src/sysfs.rs: sysfs paths, off an injectable root. `FilePath`, `join` and `components` are the
-- standard library's `PathBuf`, `push` and `components` on Unix.
pub mod Joined
pub mod Confined
pub mod Paths
mod Tests
use pcilibs_rs.Prelude.{
  ℕ, Bool, true, false, ◌&&◌, not, Option, none, some, List, [], ◌∷◌, ◌++◌, ◌==◌, if◌then◌else◌,
  is_empty, map,
}
use pcilibs_rs.Text.{Bytes, codes, equal, split}
use pcilibs_rs.Bdf.{normalize_bdf}

abbrev pub FilePath : Type 0
FilePath = Bytes

abbrev pub is_absolute : FilePath → Bool
is_absolute [] = false
is_absolute (c ∷ s) = c == b'/'

-- Whether a separator is missing behind the path: it is not empty and does not end in one.
unfoldable pub needs_separator : FilePath → Bool
needs_separator [] = false
needs_separator (c ∷ []) = not (c == b'/')
needs_separator (c ∷ d ∷ s) = needs_separator (d ∷ s)

-- `path.join(name)`: an absolute name replaces the path.
unfoldable pub join : FilePath → FilePath → FilePath
unfolding needs_separator
join path name =
    if is_absolute name
    then name
    else if needs_separator path
    then path ++ b'/' ∷ name
    else path ++ name

pub data Component : Type 0 where
  root_dir cur_dir parent_dir : Component
  normal : Bytes → Component

-- One piece between separators; a `.` counts only where a relative path begins.
unfoldable pub piece : Bool → Bytes → List Component
unfolding equal
piece at_start s =
    if is_empty s
    then []
    else if equal s (codes ".")
    then (if at_start then cur_dir ∷ [] else [])
    else if equal s (codes "..")
    then parent_dir ∷ []
    else normal s ∷ []

unfoldable pub pieces : List Bytes → List Component
unfolding piece
pieces [] = []
pieces (s ∷ rest) = piece false s ++ pieces rest

abbrev start_pieces : Bool → List Bytes → List Component
start_pieces absolute [] = []
start_pieces true (s ∷ rest) = root_dir ∷ pieces rest
start_pieces false (s ∷ rest) = piece true s ++ pieces rest

-- `Path::components`
unfoldable pub components : FilePath → List Component
components path = start_pieces (is_absolute path) (split b'/' path)

-- `matches!(components.next(), Some(Normal(one)) if one == name) && components.next().is_none()`
abbrev is_one : List Component → Bytes → Bool
is_one (normal one ∷ []) name = equal one name
is_one _ name = false

unfoldable pub is_component : Bytes → Bool
unfolding components pieces piece split equal
is_component name = is_one (components name) name

pub record Sysfs : Type 0 where
  pub root : FilePath

abbrev pub default : Sysfs
default = record { root = codes "/sys" }

unfoldable pub bus_pci : Sysfs → FilePath
unfolding join
bus_pci s = join s.root (codes "bus/pci")

unfoldable pub devices : Sysfs → FilePath
unfolding bus_pci
devices s = join (bus_pci s) (codes "devices")

unfoldable pub device : Sysfs → Bytes → Option FilePath
device s address = elim (normalize_bdf address) [
  | none ↦ none
  | some bdf ↦ some (join (devices s) bdf)
]

unfoldable pub drivers_probe : Sysfs → FilePath
unfolding bus_pci
drivers_probe s = join (bus_pci s) (codes "drivers_probe")

unfoldable pub driver : Sysfs → Bytes → Option FilePath
driver s name =
    if is_component name then some (join (join (bus_pci s) (codes "drivers")) name) else none

-- `name.replace('-', "_")`
unfoldable pub underscored : Bytes → Bytes
underscored = map (λ c. if c == b'-' then b'_' else c)

unfoldable pub module_path : Sysfs → Bytes → Option FilePath
module_path s name =
    let n = underscored name in
    if is_component n then some (join (join s.root (codes "module")) n) else none

unfoldable pub iommu_groups : Sysfs → FilePath
unfolding join
iommu_groups s = join s.root (codes "kernel/iommu_groups")

unfoldable pub class_path : Sysfs → Bytes → FilePath
unfolding join
class_path s name = join (join s.root (codes "class")) name

unfoldable pub vfio_dev : Sysfs → Bytes → FilePath
unfolding class_path
vfio_dev s name = join (class_path s (codes "vfio-dev")) name

unfoldable pub infiniband : Sysfs → FilePath
unfolding class_path
infiniband s = class_path s (codes "infiniband")

unfoldable pub infiniband_verbs : Sysfs → FilePath
unfolding class_path
infiniband_verbs s = class_path s (codes "infiniband_verbs")
