-- ===== src/Text/Decimal/RoundTrip.antt =====
-- A printed decimal number reads back.
use native.Mathlib.Nat.{pow-suc}
use pcilibs_rs.Prelude.{
  ℕ, zero, suc, ◌+◌, ◌*◌, ◌/◌, ◌%◌, ◌^◌, ◌<◌, Bool, true, false, ◌&&◌, some, [], ◌∷◌, ◌++◌, ◌==◌,
  ltb, leb, ◌≡◌, arith, ◌∙◌, ap, Bool-cases, Option-cases, inl, inr,
}
use pcilibs_rs.Text.{Bytes}
use pcilibs_rs.Text.Decimal.{digit, digits, magnitude, parse_unsigned, printed}

digits-append :
    (bound a m : ℕ) (xs ys : Bytes)
    → digits bound a xs ≡ some m
    → digits bound a (xs ++ ys) ≡ digits bound m ys
unfolding digits
digits-append bound a m [] ys h = ground arith
digits-append bound a m (x ∷ xs) ys h = elim (Option-cases (digit x)) [
  | inl e ↦ absurd (ground arith)
  | inr (d, e) ↦ elim (Bool-cases (ltb (a * 10 + d) bound)) [
    | inl t ↦ ground (arith, digits-append bound (a * 10 + d) m xs ys)
    | inr t ↦ absurd (ground arith)
  ]
]

digits-one :
    (bound a d : ℕ)
    → d < 10
    → a * 10 + d < bound
    → digits bound a ((b'0' + d) ∷ []) ≡ some (a * 10 + d)
unfolding digits digit
digits-one bound a d h b = ground arith

digits-printed : (k bound n : ℕ) → n < 10 ^ k → n < bound → digits bound 0 (printed k n) ≡ some n
unfolding printed
digits-printed zero bound n h b = unfold digits in ground arith
digits-printed (suc k) bound n h b = elim (Bool-cases (ltb n 10)) [
  | inl e ↦ rw e (digits-one bound 0 n (ground arith) (ground arith) ∙ ap some (omega arith))
  | inr e ↦
      let q = rw pow-suc at h in
      rw e (
        digits-append bound 0 (n / 10) (printed k (n / 10)) ((b'0' + n % 10) ∷ [])
          (digits-printed k bound (n / 10) (omega arith) (omega arith))
        ∙ digits-one bound (n / 10) (n % 10) (omega arith) (omega arith)
        ∙ ap some (omega arith))
]

-- Whether a text begins with a digit.
abbrev starts_with_digit : Bytes → Bool
starts_with_digit [] = false
starts_with_digit (c ∷ s) = leb b'0' c && leb c b'9'

starts_with_digit-append :
    (s t : Bytes) → starts_with_digit s ≡ true → starts_with_digit (s ++ t) ≡ true
starts_with_digit-append [] t h = ground arith
starts_with_digit-append (c ∷ s) t h = h

starts_with_digit-printed : (k n : ℕ) → starts_with_digit (printed (suc k) n) ≡ true
unfolding printed
starts_with_digit-printed zero n = elim (Bool-cases (ltb n 10)) [
  | inl e ↦ rw e (ground arith)
  | inr e ↦ rw e (ground arith)
]
starts_with_digit-printed (suc k) n = elim (Bool-cases (ltb n 10)) [
  | inl e ↦ rw e (ground arith)
  | inr e ↦ rw e (
      starts_with_digit-append (printed (suc k) (n / 10)) ((b'0' + n % 10) ∷ [])
        (starts_with_digit-printed k (n / 10)))
]

parse_unsigned-digits :
    (bound : ℕ) (s : Bytes) → starts_with_digit s ≡ true → parse_unsigned bound s ≡ digits bound 0 s
unfolding parse_unsigned magnitude
parse_unsigned-digits bound [] h = ground arith
parse_unsigned-digits bound (c ∷ s) h = ground arith

pub parse_unsigned-printed :
    (k bound n : ℕ) → n < 10 ^ suc k → n < bound → parse_unsigned bound (printed (suc k) n) ≡ some n
parse_unsigned-printed k bound n h b =
    parse_unsigned-digits bound (printed (suc k) n) (starts_with_digit-printed k n)
    ∙ digits-printed (suc k) bound n h b

digits-lt : (bound a n : ℕ) (s : Bytes) → a < bound → digits bound a s ≡ some n → n < bound
unfolding digits
digits-lt bound a n [] h e = ground arith
digits-lt bound a n (c ∷ s) h e = elim (Option-cases (digit c)) [
  | inl m ↦ absurd (ground arith)
  | inr (d, m) ↦ elim (Bool-cases (ltb (a * 10 + d) bound)) [
    | inl t ↦ digits-lt bound (a * 10 + d) n s (ground arith) (ground arith)
    | inr t ↦ absurd (ground arith)
  ]
]

magnitude-lt : (bound n : ℕ) (s : Bytes) → 0 < bound → magnitude bound s ≡ some n → n < bound
unfolding magnitude
magnitude-lt bound n [] h e = absurd (ground arith)
magnitude-lt bound n (c ∷ s) h e = digits-lt bound 0 n (c ∷ s) h e

pub parse_unsigned-lt :
    (bound n : ℕ) (s : Bytes) → 0 < bound → parse_unsigned bound s ≡ some n → n < bound
unfolding parse_unsigned
parse_unsigned-lt bound n [] h e = absurd (ground arith)
parse_unsigned-lt bound n (c ∷ s) h e = elim (Bool-cases (c == b'+')) [
  | inl t ↦ magnitude-lt bound n s h (unfold magnitude in ground arith)
  | inr t ↦ magnitude-lt bound n (c ∷ s) h (unfold magnitude in ground arith)
]
