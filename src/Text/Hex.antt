-- ===== src/Text/Hex.antt =====
-- Hexadecimal numbers: `u16::from_str_radix(s, 16)` and the `{:x}` formats.
pub mod RoundTrip
use pcilibs_rs.Prelude.{
  ℕ, zero, suc, ◌+◌, ◌-◌, ◌*◌, ◌/◌, ◌%◌, Bool, true, false, Option, none, some, List, [], ◌∷◌, ◌++◌,
  ◌==◌, ltb, leb, ◌&&◌, if◌then◌else◌,
}

abbrev within : ℕ → ℕ → ℕ → Bool
within lo hi c = leb lo c && leb c hi

-- `char::to_digit(16)`
unfoldable pub digit : ℕ → Option ℕ
digit c =
    if within b'0' b'9' c
    then some (c - b'0')
    else if within b'a' b'f' c
    then some (c - b'a' + 10)
    else if within b'A' b'F' c
    then some (c - b'A' + 10)
    else none

-- `u8::is_ascii_hexdigit`
unfoldable pub is_hexdigit : ℕ → Bool
unfolding digit
is_hexdigit c = elim (digit c) [ none ↦ false | some d ↦ true ]

-- The digits of a number so far `n`; `none` for a byte that is no digit, or for a value that
-- reaches `bound`, which is 2 ^ w for the w-bit type.
unfoldable pub digits : ℕ → ℕ → List ℕ → Option ℕ
digits bound n [] = some n
digits bound n (c ∷ s) = elim (digit c) [
  | none ↦ none
  | some d ↦ elim (ltb (n * 16 + d) bound) [ true ↦ digits bound (n * 16 + d) s | false ↦ none ]
]

-- After the sign there must be a digit.
unfoldable pub unsigned : ℕ → List ℕ → Option ℕ
unfolding digits
unsigned bound [] = none
unsigned bound (c ∷ s) = digits bound 0 (c ∷ s)

-- `from_str_radix(s, 16)` of an unsigned type: one leading `+` is allowed.
unfoldable pub from_str_radix : ℕ → List ℕ → Option ℕ
unfolding unsigned
from_str_radix bound [] = none
from_str_radix bound (c ∷ s) = if c == b'+' then unsigned bound s else unsigned bound (c ∷ s)

unfoldable pub hex_char : ℕ → ℕ
hex_char d = if ltb d 10 then b'0' + d else b'a' + (d - 10)

-- The lowest `k` hexadecimal digits of `n`, most significant first: `{n:0kx}` for `n < 16 ^ k`.
unfoldable pub padded : ℕ → ℕ → List ℕ
unfolding hex_char
padded zero n = []
padded (suc k) n = padded k (n / 16) ++ hex_char (n % 16) ∷ []
