-- ===== src/PciDev/Tests.antt =====
-- A sysfs with one device, asleep at first and with decoding off, and the theorems at it.
use pcilibs_rs.Prelude.{ℕ, true, if◌then◌else◌, some, [], ◌∷◌, ◌≡◌, refl, Result, ok}
use pcilibs_rs.Text.{codes, equal, strip_prefix, trim, split, split_once}
use pcilibs_rs.Text.Hex.{digit, digits, unsigned, is_hexdigit, padded, hex_char, from_str_radix}
use pcilibs_rs.Bdf.{normalize_bdf, parse_address, from_fields, render, function_hex}
use pcilibs_rs.Sysfs.{FilePath, default, device, devices, bus_pci, join, needs_separator}
use pcilibs_rs.Files.{Files, IoError, no_files}
use pcilibs_rs.Files.Logged.{Log, IsLogged}
use pcilibs_rs.Effects.Hoare.{Post}
use pcilibs_rs.Device.{Machine}
use pcilibs_rs.Device.Poll.{poll, poll_from}
use pcilibs_rs.PciDev.Attributes.{attr_hex, parse_attr, without_0x}
use pcilibs_rs.PciDev.Switches.{
  control_file, command, set_memory_decoding, enable_memory_decoding, wake,
}
use pcilibs_rs.PciDev.Handle.{PciDev, Process, switch_on, claimed, open_in, close}
use pcilibs_rs.PciDev.Handles.{
  World, IsConsistent, Reach, opened, dropped, here, next, Reach-IsConsistent,
}
use pcilibs_rs.PciDev.Locks.{Run, table, locked, unlocked, Reach-Run}
use pcilibs_rs.PciDev.Restore.{IsOpened, IsUndone}
use pcilibs_rs.PciDev.Opened.{claimed-log}

abbrev gpu : FilePath
gpu = codes "/sys/bus/pci/devices/0000:65:00.0"

abbrev pub sleeping : Files Log
sleeping = record (no_files (λ path text s. (path, text) ∷ s)) {
  exists = λ path s. true;
  read_to_string = λ path s. ok (
      if equal path (control_file gpu)
      then codes "auto"
      else (if equal path (codes "/sys/bus/pci/devices/0000:65:00.0/power/runtime_status")
          then codes "active"
          else codes "0x10de\n"));
  read_at = λ path offset n s. ok (4 ∷ 0 ∷ []);
}

sleeping-IsLogged : IsLogged sleeping (λ s. s)
sleeping-IsLogged = record {
  done = λ path text s e. refl;
  undone = λ path text s x e. cc e;
  done_at = λ path offset text s e. refl;
  undone_at = λ path offset text s x e. cc e;
}

abbrev pub idle : Machine Log
idle = record {
  read32 = λ offset s. (0, s);
  write32 = λ offset value s. s;
  now = λ s. 0;
  sleep = λ d s. s;
}

abbrev pub bar0_length : FilePath → Log → Result IoError ℕ
bar0_length path s = ok 16777216

abbrev pub unclaimed : Process Log
unclaimed = record { held = []; kernel = [] }

abbrev gpu_handle : PciDev
gpu_handle = record {
  bdf = codes "0000:65:00.0";
  vendor = 4318;
  device = 4318;
  path = gpu;
  bar0 = 16777216;
  power_control = some (codes "auto");
  decoding_enabled = true;
}

abbrev claimed_once : Process Log
claimed_once = record {
  held = gpu ∷ [];
  kernel =
      (codes "/sys/bus/pci/devices/0000:65:00.0/config", 6 ∷ 0 ∷ [])
      ∷ (control_file gpu, codes "on")
      ∷ [];
}

open_in-gpu :
    open_in sleeping idle bar0_length default (codes "65:00.0") unclaimed
    ≡ (ok gpu_handle, claimed_once)
unfolding open_in claimed switch_on attr_hex parse_attr without_0x wake poll poll_from
    enable_memory_decoding set_memory_decoding command normalize_bdf parse_address from_fields
    render function_hex padded hex_char digit digits unsigned is_hexdigit split equal split_once
    strip_prefix trim from_str_radix device devices bus_pci join needs_separator
open_in-gpu = refl

abbrev unopened : World Log
unopened = record { process = unclaimed; handles = [] }

unopened-IsConsistent : IsConsistent unopened
unopened-IsConsistent = record { distinct = tt; exact = λ q. refl }

abbrev closed : World Log
closed = record { process = close sleeping idle bar0_length gpu_handle claimed_once; handles = [] }

opens_and_closes : Reach sleeping idle bar0_length unopened closed
opens_and_closes =
    next (next here (opened default (codes "65:00.0") open_in-gpu)) (dropped [] gpu_handle [] refl)

Reach-IsConsistent_example : IsConsistent closed
Reach-IsConsistent_example =
    Reach-IsConsistent sleeping idle bar0_length opens_and_closes unopened-IsConsistent

claimed-log_example :
    let out = claimed sleeping idle bar0_length (codes "0000:65:00.0") gpu [] in
    Post
      (λ dev. IsOpened sleeping-IsLogged idle (λ d s. refl) gpu (some (codes "auto")) dev [])
      (IsUndone sleeping-IsLogged idle (λ d s. refl) gpu (some (codes "auto")) [])
      out.0
      out.1
unfolding equal trim join needs_separator
claimed-log_example =
    claimed-log sleeping-IsLogged idle (λ d s. refl) bar0_length (codes "0000:65:00.0") gpu []

Reach-Run_example : Run (table unopened) (unlocked gpu ∷ locked gpu ∷ []) (table closed)
unfolding opens_and_closes
Reach-Run_example = Reach-Run sleeping idle bar0_length opens_and_closes unopened-IsConsistent
