-- ===== src/PciDev/Attributes.antt =====
-- src/pci_dev.rs: `attr_hex`, and the same parsing where other files spell it out.
use pcilibs_rs.Prelude.{ℕ, ◌^◌, Option, ◌∷◌, ◌==◌, ◌&&◌, true, false, Result, ◌>>=◌, ok_or}
use pcilibs_rs.Text.{Bytes, trim}
use pcilibs_rs.Text.Hex.{from_str_radix}
use pcilibs_rs.Sysfs.{FilePath, join}
use pcilibs_rs.Files.{Files, IoError, invalid_data}

abbrev pub u16_max : ℕ
u16_max = 2 ^ 16

abbrev pub u32_max : ℕ
u32_max = 2 ^ 32

-- `trim_start_matches("0x")`: every `0x` in front goes.
unfoldable pub without_0x : Bytes → Bytes
without_0x (a ∷ b ∷ s) = elim (a == b'0' && b == b'x') [ true ↦ without_0x s | false ↦ a ∷ b ∷ s ]
without_0x s = s

-- `T::from_str_radix(text.trim().trim_start_matches("0x"), 16)` for a T below `bound`
unfoldable pub parse_attr : ℕ → Bytes → Option ℕ
unfolding trim without_0x from_str_radix
parse_attr bound text = from_str_radix bound (without_0x (trim text))

module _ {S : Type 0} (files : Files S) where
  unfoldable pub attr_hex : FilePath → Bytes → S → Result IoError ℕ
  unfolding parse_attr
  attr_hex dir name s = do
    text ← files.read_to_string (join dir name) s
    ok_or (parse_attr u32_max text) invalid_data
