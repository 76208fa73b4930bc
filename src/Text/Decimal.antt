-- ===== src/Text/Decimal.antt =====
-- Decimal numbers: `s.parse::<u32>()`, `s.parse::<i64>()` and the `{}` format.
pub mod RoundTrip
use pcilibs_rs.Prelude.{
  ℕ, zero, suc, ◌+◌, ◌-◌, ◌*◌, ◌/◌, ◌%◌, ◌^◌, Bool, true, false, Option, none, some, List, [], ◌∷◌,
  ◌++◌, ◌==◌, ltb, leb, ◌&&◌, if◌then◌else◌,
}
use pcilibs_rs.Text.{Bytes}

-- `char::to_digit(10)`
unfoldable pub digit : ℕ → Option ℕ
digit c = if leb b'0' c && leb c b'9' then some (c - b'0') else none

-- The digits of a number so far `n`; `none` for a byte that is no digit, or for a value that
-- reaches `bound`.
unfoldable pub digits : ℕ → ℕ → Bytes → Option ℕ
digits bound n [] = some n
digits bound n (c ∷ s) = elim (digit c) [
  | none ↦ none
  | some d ↦ elim (ltb (n * 10 + d) bound) [ true ↦ digits bound (n * 10 + d) s | false ↦ none ]
]

-- After the sign there must be a digit.
unfoldable pub magnitude : ℕ → Bytes → Option ℕ
unfolding digits
magnitude bound [] = none
magnitude bound (c ∷ s) = digits bound 0 (c ∷ s)

-- An unsigned type with values below `bound`: one leading `+` is allowed.
unfoldable pub parse_unsigned : ℕ → Bytes → Option ℕ
unfolding magnitude
parse_unsigned bound [] = none
parse_unsigned bound (c ∷ s) = if c == b'+' then magnitude bound s else magnitude bound (c ∷ s)

-- The integers, over the native numbers.
pub data ℤ : Type 0 where
  pos negsuc : ℕ → ℤ

abbrev pub negated : ℕ → ℤ
negated zero = pos 0
negated (suc n) = negsuc n

abbrev negative : Option ℕ → Option ℤ
negative none = none
negative (some n) = some (negated n)

abbrev positive : Option ℕ → Option ℤ
positive none = none
positive (some n) = some (pos n)

-- `i64`: a magnitude up to `2 ^ 63` behind a `-`, below it otherwise
unfoldable pub parse_i64 : Bytes → Option ℤ
unfolding magnitude
parse_i64 [] = none
parse_i64 (c ∷ s) =
    if c == b'-'
    then negative (magnitude (2 ^ 63 + 1) s)
    else positive (parse_unsigned (2 ^ 63) (c ∷ s))

-- `{n}`, with a digit for each round; ten are enough for 32 bits.
unfoldable pub printed : ℕ → ℕ → Bytes
printed zero n = []
printed (suc k) n =
    let front = printed k (n / 10) in
    if ltb n 10 then (b'0' + n) ∷ [] else front ++ (b'0' + n % 10) ∷ []
