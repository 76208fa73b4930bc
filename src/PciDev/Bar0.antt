-- ===== src/PciDev/Bar0.antt =====
-- src/pci_dev.rs: the mapping of BAR0. An access that is misaligned or past its end panics. What
-- `mmap` answers, and the volatile accesses to memory, are parameters.
pub mod Inside
mod Tests
use pcilibs_rs.Prelude.{
  ℕ, ◌+◌, ◌%◌, ◌^◌, ◌==◌, ◌&&◌, ltb, leb, if◌then◌else◌, Option, none, some, Result, ok, err, ◌>>=◌,
}
use pcilibs_rs.Sysfs.{FilePath}
use pcilibs_rs.Files.{Files, IoError, panicked}
use pcilibs_rs.Effects.{Effect}

pub record Mapping : Type 0 where
  pub ptr : ℕ
  pub len : ℕ

-- A load may change the device: some registers are ports.
pub record Memory (S : Type 0) : Type 0 where
  pub read_volatile : ℕ → S → ℕ × S
  pub write_volatile : ℕ → ℕ → S → S

-- `checked_add(4)` on 64 bits fails only where the sum does not fit.
unfoldable pub dword_at : ℕ → ℕ → Option ℕ
dword_at len offset =
    if offset % 4 == 0 && (ltb (offset + 4) (2 ^ 64) && leb (offset + 4) len)
    then some offset
    else none

module _ {S : Type 0} (files : Files S) (mmap : FilePath → ℕ → S → Result IoError ℕ) where
  unfoldable pub map : FilePath → S → Result IoError Mapping
  map resource0 s = do
    _ ← files.open_file resource0 s
    len ← files.file_len resource0 s
    ptr ← mmap resource0 len s
    ok (record { ptr = ptr; len = len })

module _ {S : Type 0} (memory : Memory S) (mapping : Mapping) where
  abbrev pub load : Option ℕ → Effect IoError S ℕ
  load none s = (err panicked, s)
  load (some offset) s = let r = memory.read_volatile (mapping.ptr + offset) s in (ok r.0, r.1)

  unfoldable pub read32 : ℕ → Effect IoError S ℕ
  unfolding dword_at
  read32 offset = load (dword_at mapping.len offset)

  abbrev pub store : ℕ → Option ℕ → Effect IoError S (Unit {0})
  store value none s = (err panicked, s)
  store value (some offset) s = (ok tt, memory.write_volatile (mapping.ptr + offset) value s)

  unfoldable pub write32 : ℕ → ℕ → Effect IoError S (Unit {0})
  unfolding dword_at
  write32 offset value = store value (dword_at mapping.len offset)
