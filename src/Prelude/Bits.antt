-- ===== src/Prelude/Bits.antt =====
-- The bit operations on the native numbers where one operand is a field or a mask.
use Prim.Native.Nat.{
  ℕ, zero, suc, ◌+◌, ◌*◌, ◌/◌, ◌%◌, ◌^◌, ◌≤◌, ◌<◌, min, max, digits, bit_and, bit_or,
  bit_and-bitwise, bit_or-bitwise,
}
use mathlib.Core.Path.{◌≡◌, refl, sym, ap, ◌∙◌}
use native.Mathlib.Omega.{arith}
use native.Mathlib.Nat.{pow-suc}

-- The library's recursion on binary digits has enough fuel from the first operand on.
module _ (rest : ℕ → ℕ) (digit : ℕ → ℕ → ℕ) where
  spent : (n b : ℕ) → digits rest digit n 0 b ≡ rest b
  spent zero b = refl
  spent (suc n) b = refl

  any_fuel : (m n a b : ℕ) → a ≤ m → a ≤ n → digits rest digit m a b ≡ digits rest digit n a b
  any_fuel m n zero b h k = spent m b ∙ sym (spent n b)
  any_fuel zero n (suc a) b h k = absurd (omega arith)
  any_fuel (suc m) zero (suc a) b h k = absurd (omega arith)
  any_fuel (suc m) (suc n) (suc a) b h k =
      ap (λ (t : ℕ). t * 2 + digit (suc a % 2) (b % 2))
        (any_fuel m n (suc a / 2) (b / 2) (omega arith) (omega arith))

or-halves : (a b : ℕ) → bit_or a b ≡ bit_or (a / 2) (b / 2) * 2 + max (a % 2) (b % 2)
or-halves zero b = bit_or-bitwise 0 b ∙ omega (arith, bit_or-bitwise 0 (b / 2))
or-halves (suc a) b =
    bit_or-bitwise (suc a) b
    ∙ ap (λ (t : ℕ). t * 2 + max (suc a % 2) (b % 2))
        (any_fuel (λ y. y) max a (suc a / 2) (suc a / 2) (b / 2) (omega arith) (omega arith)
          ∙ sym (bit_or-bitwise (suc a / 2) (b / 2)))

and-halves : (a b : ℕ) → bit_and a b ≡ bit_and (a / 2) (b / 2) * 2 + min (a % 2) (b % 2)
and-halves zero b = bit_and-bitwise 0 b ∙ omega (arith, bit_and-bitwise 0 (b / 2))
and-halves (suc a) b =
    bit_and-bitwise (suc a) b
    ∙ ap (λ (t : ℕ). t * 2 + min (suc a % 2) (b % 2))
        (any_fuel (λ y. 0) min a (suc a / 2) (suc a / 2) (b / 2) (omega arith) (omega arith)
          ∙ sym (bit_and-bitwise (suc a / 2) (b / 2)))

or_nothing_fuel : (n a : ℕ) → a ≤ n → bit_or a 0 ≡ a
or_nothing_fuel n zero h = refl
or_nothing_fuel zero (suc a) h = absurd (omega arith)
or_nothing_fuel (suc n) (suc a) h =
    omega (arith, or-halves (suc a) 0, or_nothing_fuel n (suc a / 2) (omega arith))

and_nothing_fuel : (n a : ℕ) → a ≤ n → bit_and a 0 ≡ 0
and_nothing_fuel n zero h = refl
and_nothing_fuel zero (suc a) h = absurd (omega arith)
and_nothing_fuel (suc n) (suc a) h =
    omega (arith, and-halves (suc a) 0, and_nothing_fuel n (suc a / 2) (omega arith))

doubled : (k high : ℕ) → high * 2 ^ suc k ≡ 2 * (high * 2 ^ k)
doubled k high = omega (arith, ap (λ (t : ℕ). high * t) (pow-suc 2 k))

-- A low field and a high one, in either order, are their sum.
pub bit_or_above : (k low high : ℕ) → low < 2 ^ k → bit_or low (high * 2 ^ k) ≡ low + high * 2 ^ k
bit_or_above zero low high h = ground (arith, bit_or-bitwise 0 high)
bit_or_above (suc k) low high h = ground (
  arith,
  or-halves low (high * 2 ^ suc k),
  doubled k high,
  pow-suc 2 k,
  bit_or_above k (low / 2) high (omega (arith, pow-suc 2 k)),
)

pub bit_or_below : (k low high : ℕ) → low < 2 ^ k → bit_or (high * 2 ^ k) low ≡ low + high * 2 ^ k
bit_or_below zero low high h = ground (arith, or_nothing_fuel high high)
bit_or_below (suc k) low high h = ground (
  arith,
  or-halves (high * 2 ^ suc k) low,
  doubled k high,
  pow-suc 2 k,
  bit_or_below k (low / 2) high (omega (arith, pow-suc 2 k)),
)

-- A mask of `k` ones.
abbrev pub ones : ℕ → ℕ
ones zero = 0
ones (suc k) = ones k * 2 + 1

-- The mask takes the low field.
pub bit_and-ones : (k low high : ℕ) → low < 2 ^ k → bit_and (low + high * 2 ^ k) (ones k) ≡ low
bit_and-ones zero low high h =
    and_nothing_fuel (low + high * 1) (low + high * 1) (omega arith) ∙ omega arith
bit_and-ones (suc k) low high h = ground (
  arith,
  and-halves (low + high * 2 ^ suc k) (ones k * 2 + 1),
  doubled k high,
  pow-suc 2 k,
  bit_and-ones k (low / 2) high (omega (arith, pow-suc 2 k)),
)
