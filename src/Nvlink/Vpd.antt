-- ===== src/Nvlink/Vpd.antt =====
-- src/nvlink.rs, `vpd_sw_mng`: the role of a device in its Vital Product Data, a list of tagged
-- resources, of which two hold keywords. Slices are lists of bytes.
pub mod Fuel
pub mod Grammar
mod Tests
use pcilibs_rs.Prelude.{
  ℕ, zero, suc, ◌+◌, ◌*◌, Bool, true, false, not, ◌&&◌, ◌||◌, ◌==◌, leb, if◌then◌else◌, Option,
  none, some, List, [], ◌∷◌, length, take, drop, any, Result, ok, err, ◌>>=◌, bit_and,
}
use pcilibs_rs.Text.{Bytes, codes, equal, split}

abbrev pub vpd_end : ℕ
vpd_end = 0x78

abbrev pub vpd_read_only : ℕ
vpd_read_only = 0x90

abbrev pub vpd_read_write : ℕ
vpd_read_write = 0x91

-- The source's messages; the loops run on fuel, and `out_of_fuel` is none of its errors.
pub data VpdError : Type 0 where
  truncated_length truncated_resource truncated_keyword truncated_value no_end out_of_fuel :
      VpdError

-- A keyword says that the device manages switches.
unfoldable pub manages : ℕ → ℕ → Bytes → Bool
manages a b value =
    a == b'V' && b == b'A' && any (λ field. equal field (codes "SMDL=SW_MNG")) (split b':' value)

-- The inner loop, over the keywords of a resource.
unfoldable pub scan_keywords : ℕ → Bool → Bytes → Result VpdError Bool
unfolding manages
scan_keywords zero found keywords = err out_of_fuel
scan_keywords (suc fuel) found [] = ok found
scan_keywords (suc fuel) found (a ∷ b ∷ n ∷ rest) =
    let later = scan_keywords fuel (found || manages a b (take n rest)) (drop n rest) in
    if leb n (length rest) then later else err truncated_value
scan_keywords (suc fuel) found _ = err truncated_keyword

-- `(length, payload)`
abbrev pub large_size : Bytes → Result VpdError (ℕ × Bytes)
large_size (low ∷ high ∷ payload) = ok (low + 256 * high, payload)
large_size _ = err truncated_length

abbrev pub size : ℕ → Bytes → Result VpdError (ℕ × Bytes)
size tag rest = if not (bit_and tag 0x80 == 0) then large_size rest else ok (bit_and tag 7, rest)

abbrev pub holds_keywords : ℕ → Bool
holds_keywords tag = tag == vpd_read_only || tag == vpd_read_write

-- `payload.get(..length)`
abbrev pub prefix : ℕ → Bytes → Result VpdError Bytes
prefix n payload = if leb n (length payload) then ok (take n payload) else err truncated_resource

-- The role that a resource adds.
unfoldable pub scan_resource : ℕ → Bool → Bytes → Result VpdError Bool
unfolding scan_keywords
scan_resource tag found resource =
    if holds_keywords tag then scan_keywords (suc (length resource)) found resource else ok found

-- A resource whose size is known, and `later` on what is behind it.
abbrev pub resource_then :
    (Bool → Bytes → Result VpdError Bool)
    → ℕ
    → Bool
    → Result VpdError (ℕ × Bytes)
    → Result VpdError Bool
resource_then later tag found (err e) = err e
resource_then later tag found (ok (n, payload)) = do
  resource ← prefix n payload
  next ← scan_resource tag found resource
  later next (drop n payload)

-- The outer loop.
unfoldable pub scan_resources : ℕ → Bool → Bytes → Result VpdError Bool
unfolding scan_resource
scan_resources zero found image = err out_of_fuel
scan_resources (suc fuel) found [] = err no_end
scan_resources (suc fuel) found (tag ∷ rest) =
    if tag == vpd_end
    then ok found
    else resource_then (scan_resources fuel) tag found (size tag rest)

unfoldable pub vpd_sw_mng : Bytes → Result VpdError Bool
unfolding scan_resources
vpd_sw_mng image = scan_resources (suc (length image)) false image
