-- ===== src/Text/Hex/RoundTrip.antt =====
-- A printed hexadecimal number reads back, and its bytes are hexadecimal digits.
use native.Mathlib.Nat.{pow-suc}
use pcilibs_rs.Prelude.{
  ℕ, zero, suc, ◌+◌, ◌*◌, ◌/◌, ◌%◌, ◌^◌, ◌<◌, Bool, true, ◌&&◌, ◌||◌, some, List, [], ◌∷◌, ◌++◌,
  ◌==◌, ltb, leb, ◌≡◌, ◌≢◌, refl, arith, All, All-append, ◌∙◌, ap, length, length-append,
  Bool-cases, Option-cases, inl, inr,
}
use pcilibs_rs.Text.Hex.{digit, digits, unsigned, from_str_radix, hex_char, padded}

-- `0`-`9` and `a`-`f`
abbrev pub is_lower_hex : ℕ → Bool
is_lower_hex c = leb b'0' c && leb c b'9' || leb b'a' c && leb c b'f'

abbrev pub LowerHex : ℕ → Type 0
LowerHex c = is_lower_hex c ≡ true

digit-hex_char : (d : ℕ) → d < 16 → digit (hex_char d) ≡ some d
unfolding digit hex_char
digit-hex_char d h = ground arith

hex_char-LowerHex : (d : ℕ) → d < 16 → LowerHex (hex_char d)
unfolding hex_char
hex_char-LowerHex d h = ground arith

pub padded-LowerHex : (k n : ℕ) → All LowerHex (padded k n)
unfolding padded
padded-LowerHex zero n = tt
padded-LowerHex (suc k) n =
    All-append LowerHex (padded k (n / 16)) _ (padded-LowerHex k (n / 16))
      (hex_char-LowerHex (n % 16) (omega arith), tt)

pub length-padded : (k n : ℕ) → length (padded k n) ≡ k
unfolding padded
length-padded zero n = refl
length-padded (suc k) n =
    omega
      (arith, length-append (padded k (n / 16)) (hex_char (n % 16) ∷ []), length-padded k (n / 16))

pub digits-append :
    (bound a m : ℕ) (xs ys : List ℕ)
    → digits bound a xs ≡ some m
    → digits bound a (xs ++ ys) ≡ digits bound m ys
unfolding digits
digits-append bound a m [] ys h = ground arith
digits-append bound a m (x ∷ xs) ys h = elim (Option-cases (digit x)) [
  | inl e ↦ absurd (ground arith)
  | inr (d, e) ↦ elim (Bool-cases (ltb (a * 16 + d) bound)) [
    | inl t ↦ ground (arith, digits-append bound (a * 16 + d) m xs ys)
    | inr t ↦ absurd (ground arith)
  ]
]

digits_last : (bound n : ℕ) → n < bound → digits bound (n / 16) (hex_char (n % 16) ∷ []) ≡ some n
unfolding digits
digits_last bound n h = ground (arith, digit-hex_char (n % 16))

pub from_str_radix-LowerHex :
    (bound : ℕ) (s : List ℕ) → All LowerHex s → s ≢ [] → from_str_radix bound s ≡ digits bound 0 s
unfolding from_str_radix
from_str_radix-LowerHex bound [] h n = absurd (n refl)
from_str_radix-LowerHex bound (c ∷ s) h n = ground arith

pub digits-padded : (k bound n : ℕ) → n < 16 ^ k → n < bound → digits bound 0 (padded k n) ≡ some n
unfolding padded
digits-padded zero bound n h b = unfold digits in ground arith
digits-padded (suc k) bound n h b =
    let q = rw pow-suc at h in
    digits-append bound 0 (n / 16) (padded k (n / 16)) (hex_char (n % 16) ∷ [])
      (digits-padded k bound (n / 16) (omega arith) (omega arith))
    ∙ digits_last bound n b

-- `from_str_radix` reads back a number printed with `k + 1` digits.
pub from_str_radix-padded :
    (k bound n : ℕ) → n < 16 ^ suc k → n < bound → from_str_radix bound (padded (suc k) n) ≡ some n
from_str_radix-padded k bound n h b =
    from_str_radix-LowerHex bound (padded (suc k) n) (padded-LowerHex (suc k) n)
      (λ e. ne (ap length e))
    ∙ digits-padded (suc k) bound n h b
  where
    ne : length (padded (suc k) n) ≡ 0 → ⊥
    ne e = omega (arith, length-padded (suc k) n)

digits-lt : (bound a n : ℕ) (s : List ℕ) → a < bound → digits bound a s ≡ some n → n < bound
unfolding digits
digits-lt bound a n [] h e = ground arith
digits-lt bound a n (c ∷ s) h e = elim (Option-cases (digit c)) [
  | inl m ↦ absurd (ground arith)
  | inr (d, m) ↦ elim (Bool-cases (ltb (a * 16 + d) bound)) [
    | inl t ↦ digits-lt bound (a * 16 + d) n s (ground arith) (ground arith)
    | inr t ↦ absurd (ground arith)
  ]
]

unsigned-lt : (bound n : ℕ) (s : List ℕ) → 0 < bound → unsigned bound s ≡ some n → n < bound
unfolding unsigned
unsigned-lt bound n [] h e = absurd (ground arith)
unsigned-lt bound n (c ∷ s) h e = digits-lt bound 0 n (c ∷ s) h e

pub from_str_radix-lt :
    (bound n : ℕ) (s : List ℕ) → 0 < bound → from_str_radix bound s ≡ some n → n < bound
unfolding from_str_radix
from_str_radix-lt bound n [] h e = absurd (ground arith)
from_str_radix-lt bound n (c ∷ s) h e = elim (Bool-cases (c == b'+')) [
  | inl t ↦ unsigned-lt bound n s h (unfold unsigned in ground arith)
  | inr t ↦ unsigned-lt bound n (c ∷ s) h (unfold unsigned in ground arith)
]

-- `k` digits further: `a * 16 ^ k`.
abbrev pub shifted : ℕ → ℕ → ℕ
shifted zero a = a
shifted (suc k) a = shifted k a * 16

digits_one :
    (bound a d : ℕ)
    → d < 16
    → a * 16 + d < bound
    → digits bound a (hex_char d ∷ []) ≡ some (a * 16 + d)
unfolding digits
digits_one bound a d h b = ground (arith, digit-hex_char d h)

-- The digits behind those that are read already.
pub digits-padded_behind :
    (k bound a n : ℕ)
    → n < 16 ^ k
    → shifted k a + n < bound
    → digits bound a (padded k n) ≡ some (shifted k a + n)
unfolding padded
digits-padded_behind zero bound a n h b = unfold digits in ap some (omega arith)
digits-padded_behind (suc k) bound a n h b =
    let q = rw pow-suc at h in
    digits-append bound a (shifted k a + n / 16) (padded k (n / 16)) (hex_char (n % 16) ∷ [])
      (digits-padded_behind k bound a (n / 16) (omega arith) (omega arith))
    ∙ digits_one bound (shifted k a + n / 16) (n % 16) (omega arith) (omega arith)
    ∙ ap some (omega arith)
