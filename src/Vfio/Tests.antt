-- ===== src/Vfio/Tests.antt =====
-- A sysfs that is the list of what was written, with a device that no driver holds, and the
-- theorems at it.
use pcilibs_rs.Prelude.{true, [], ◌∷◌, ◌≡◌, refl, ok}
use pcilibs_rs.Text.{codes, equal, strip_prefix, lines, split_whitespace, split, split_once}
use pcilibs_rs.Text.Hex.{digit, from_str_radix}
use pcilibs_rs.Bdf.{normalize_bdf}
use pcilibs_rs.Sysfs.{default, device, devices, components, pieces}
use pcilibs_rs.Files.{Files, no_files, file_name, last_name}
use pcilibs_rs.Files.Logged.{Log, IsLogged}
use pcilibs_rs.Vfio.{resolve, bind, unbind, clear_override, current_driver}
use pcilibs_rs.Files.Fixed.{fixed, text_at}
use pcilibs_rs.Vfio.Modules.{module_for, find_line, contains, wanted_alias, upper_hex, last}
use pcilibs_rs.Vfio.Outcome.{IsBound, bind-IsBound}

abbrev written : Files Log
written = record (no_files (λ path text s. (path, text) ∷ s)) { is_dir = λ path s. true }

written-IsLogged : IsLogged written (λ s. s)
written-IsLogged = record {
  done = λ path text s e. refl;
  undone = λ path text s x e. cc e;
  done_at = λ path offset text s e. refl;
  undone_at = λ path offset text s x e. cc e;
}

resolve-gpu :
    resolve default (codes "65:00.0")
    ≡ ok (codes "/sys/bus/pci/devices/0000:65:00.0", codes "0000:65:00.0")
unfolding resolve file_name last_name device devices normalize_bdf digit split equal split_once
    from_str_radix components pieces
resolve-gpu = refl

bind-IsBound_example :
    let r = bind written default (codes "65:00.0") (codes "vfio-pci") [] in
    IsBound written-IsLogged default
      (codes "/sys/bus/pci/devices/0000:65:00.0")
      (codes "0000:65:00.0")
      (codes "vfio-pci")
      (current_driver written default (codes "0000:65:00.0") [])
      []
      r.1
      r.0
bind-IsBound_example =
    bind-IsBound written-IsLogged default (λ path s. refl) (codes "65:00.0") (codes "vfio-pci") []
      resolve-gpu

unbind-gpu : (unbind written default (codes "65:00.0") []).0 ≡ ok tt
unfolding unbind clear_override current_driver resolve file_name last_name device devices
    normalize_bdf digit split equal split_once from_str_radix components pieces
unbind-gpu = refl

-- The alias of one device, and the module that carries it.
module_for-h100 :
    module_for
      (fixed [] (
        (
          codes "modules.alias",
          codes
              "alias pci:v* vfio_pci\nalias vfio_pci:v000010DEd00002330sv* nvgrace_gpu_vfio_pci\n",
        )
        ∷ []))
      (codes "modules.alias")
      0x10de
      0x2330
      tt
    ≡ ok (codes "nvgrace_gpu_vfio_pci")
unfolding module_for find_line contains strip_prefix wanted_alias upper_hex last split_whitespace
    lines text_at equal
module_for-h100 = refl
