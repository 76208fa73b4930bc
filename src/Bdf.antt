-- ===== src/Bdf.antt =====
-- src/linux.rs: PCI addresses, `normalize_bdf`.
pub mod Canonical
mod Tests
use pcilibs_rs.Prelude.{ℕ, ◌^◌, Option, none, some, List, [], ◌∷◌, ◌++◌, ltb, if◌then◌else◌}
use pcilibs_rs.Text.{Bytes, codes, split, split_once}
use pcilibs_rs.Text.Hex.{from_str_radix, padded}

abbrev pub pci_dev_domain : Bytes
pci_dev_domain = codes "0000"

-- `{function:x}` of a byte: one digit where one is enough.
unfoldable pub function_hex : ℕ → Bytes
unfolding padded
function_hex f = if ltb f 16 then padded 1 f else padded 2 f

-- `format!("{domain:04x}:{bus:02x}:{device:02x}.{function:x}")`
unfoldable pub render : ℕ → ℕ → ℕ → ℕ → Bytes
unfolding function_hex
render domain bus device function =
    padded 4 domain
    ++ (b':' ∷ (padded 2 bus ++ (b':' ∷ (padded 2 device ++ (b'.' ∷ function_hex function)))))

abbrev pub u16_bound : ℕ
u16_bound = 2 ^ 16

abbrev pub u8_bound : ℕ
u8_bound = 2 ^ 8

infixl 5 ◌>>=◌
abbrev ◌>>=◌ {ℓ κ} : {A : Type ℓ} {B : Type κ} → Option A → (A → Option B) → Option B
none >>= f = none
some a >>= f = f a

-- The three fields, behind `(domain, bus, slot)`.
unfoldable pub parse_address : Bytes → Bytes → Bytes → Option Bytes
unfolding render
parse_address domain bus slot = do
  parts ← split_once b'.' slot
  d ← from_str_radix u16_bound domain
  b ← from_str_radix u8_bound bus
  v ← from_str_radix u8_bound parts.0
  f ← from_str_radix u8_bound parts.1
  some (render d b v f)

-- `match fields[..]`
unfoldable pub from_fields : List Bytes → Option Bytes
unfolding parse_address
from_fields (bus ∷ slot ∷ []) = parse_address pci_dev_domain bus slot
from_fields (domain ∷ bus ∷ slot ∷ []) = parse_address domain bus slot
from_fields _ = none

unfoldable pub normalize_bdf : Bytes → Option Bytes
unfolding from_fields split
normalize_bdf bdf = from_fields (split b':' bdf)
