-- ===== src/Text/Ipv6.antt =====
-- `str::parse::<Ipv6Addr>` of the standard library: eight groups of hexadecimal digits, with one
-- `::` for some groups that are zero, and an IPv4 address for the last two. The result is the
-- address as a number of 128 bits.
use pcilibs_rs.Prelude.{
  ℕ, zero, suc, ◌+◌, ◌-◌, ◌*◌, Bool, true, false, not, ◌&&◌, ◌||◌, Option, none, some, List, [],
  ◌∷◌, ◌++◌, ◌==◌, ltb, length, is_empty, if◌then◌else◌,
}
use pcilibs_rs.Text.{Bytes}
use pcilibs_rs.Text.Hex.{digit}

infixl 5 ◌>>=◌
abbrev ◌>>=◌ : {A B : Type 0} → Option A → (A → Option B) → Option B
none >>= f = none
some a >>= f = f a

-- `char::to_digit(radix)`
abbrev to_digit : ℕ → ℕ → Option ℕ
to_digit radix c = digit c >>= λ d. if ltb d radix then some d else none

-- The number so far, with the digits that it has had and those that it may still have. A value
-- that reaches `bound`, or a digit too many, is a failure.
unfoldable pub read_digits : ℕ → ℕ → ℕ → ℕ → ℕ → Bytes → Option (ℕ × ℕ × Bytes)
read_digits radix bound room count n [] = some (n, count, [])
read_digits radix bound room count n (c ∷ s) = elim (to_digit radix c) [
  | none ↦ some (n, count, c ∷ s)
  | some d ↦ elim (ltb (n * radix + d) bound && not (room == 0)) [
    | true ↦ read_digits radix bound (room - 1) (suc count) (n * radix + d) s
    | false ↦ none
  ]
]

abbrev starts_with_zero : Bytes → Bool
starts_with_zero [] = false
starts_with_zero (c ∷ s) = c == b'0'

-- `read_number(radix, Some(room), allow_zero_prefix)`
unfoldable pub read_number : ℕ → ℕ → ℕ → Bool → Bytes → Option (ℕ × Bytes)
unfolding read_digits
read_number radix bound room zero_prefix s =
    read_digits radix bound room 0 0 s >>= λ (n, count, rest).
    if count == 0 || not zero_prefix && starts_with_zero s && ltb 1 count
    then none
    else some (n, rest)

-- `read_given_char`
abbrev given : ℕ → Bytes → Option Bytes
given b [] = none
given b (c ∷ s) = if c == b then some s else none

-- `read_separator`: in front of every group but the first
abbrev separated : ℕ → ℕ → Bytes → Option Bytes
separated b zero s = some s
separated b (suc i) s = given b s

abbrev octet : ℕ → Bytes → Option (ℕ × Bytes)
octet i s = separated b'.' i s >>= λ t. read_number 10 256 3 false t

-- The four numbers as two groups.
unfoldable pub read_ipv4_addr : Bytes → Option (ℕ × ℕ × Bytes)
unfolding read_number
read_ipv4_addr s = octet 0 s >>= λ (a, s1). octet 1 s1 >>= λ (b, s2).
    octet 2 s2 >>= λ (c, s3). octet 3 s3 >>= λ (d, s4). some (a * 256 + b, c * 256 + d, s4)

abbrev embedded : ℕ → ℕ → Bytes → Option (ℕ × ℕ × Bytes)
embedded (suc (suc room)) i s = separated b':' i s >>= read_ipv4_addr
embedded _ i s = none

abbrev prepend : ℕ → List ℕ × Bool × Bytes → List ℕ × Bool × Bytes
prepend g (gs, ipv4, rest) = (g ∷ gs, ipv4, rest)

-- `read_groups`, with room for so many groups, from the group with the number `i` on: the groups,
-- whether the last two are an IPv4 address, and the rest.
unfoldable pub read_groups : ℕ → ℕ → Bytes → List ℕ × Bool × Bytes
unfolding read_ipv4_addr read_number
read_groups zero i s = ([], false, s)
read_groups (suc room) i s = elim (embedded (suc room) i s) [
  | some (a, b, rest) ↦ (a ∷ b ∷ [], true, rest)
  | none ↦ elim (separated b':' i s >>= λ t. read_number 16 65536 4 true t) [
    | none ↦ ([], false, s)
    | some (g, rest) ↦ prepend g (read_groups room (suc i) rest)
  ]
]

abbrev zeros : ℕ → List ℕ
zeros zero = []
zeros (suc n) = 0 ∷ zeros n

-- The groups behind `::` are the last ones, and those between are zero.
abbrev with_tail : List ℕ → List ℕ × Bool × Bytes → List ℕ × Bytes
with_tail head (tail, ipv4, rest) = (head ++ (zeros (8 - length head - length tail) ++ tail), rest)

abbrev compressed : List ℕ → Bytes → Option (List ℕ × Bytes)
compressed head s = do
  s1 ← given b':' s
  s2 ← given b':' s1
  some (with_tail head (read_groups (8 - (length head + 1)) 0 s2))

abbrev completed : List ℕ × Bool × Bytes → Option (List ℕ × Bytes)
completed (head, ipv4, rest) =
    if length head == 8 then some (head, rest) else if ipv4 then none else compressed head rest

unfoldable pub read_ipv6_addr : Bytes → Option (List ℕ × Bytes)
unfolding read_groups
read_ipv6_addr s = completed (read_groups 8 0 s)

-- `u128::from`
abbrev pub number_from : ℕ → List ℕ → ℕ
number_from n [] = n
number_from n (g ∷ gs) = number_from (n * 65536 + g) gs

-- Nothing may follow the address.
unfoldable pub parse_ipv6 : Bytes → Option ℕ
unfolding read_ipv6_addr
parse_ipv6 s = do
  (groups, rest) ← read_ipv6_addr s
  if is_empty rest then some (number_from 0 groups) else none
