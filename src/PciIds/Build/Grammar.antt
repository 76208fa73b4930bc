-- ===== src/PciIds/Build/Grammar.antt =====
-- What the parser of an ID accepts, and what it refuses, by nom's documentation.
use pcilibs_rs.Prelude.{
  ℕ, zero, suc, ◌^◌, ◌<◌, Bool, true, false, none, some, [], ◌∷◌, ◌++◌, length, take, drop, leb,
  is_empty, all, All, ◌≡◌, ◌≢◌, refl, ap, ◌∙◌, arith, Bool-cases, inl, inr, le→leb, length-append,
}
use pcilibs_rs.Text.{Bytes}
use pcilibs_rs.Text.Hex.{digit, is_hexdigit, from_str_radix, padded}
use pcilibs_rs.Text.Hex.RoundTrip.{LowerHex, padded-LowerHex, length-padded, from_str_radix-padded}
use pcilibs_rs.PciIds.Build.Packages.{Nom, IsNom, ◌>>=◌, longest_run, not_empty, at_end}
use pcilibs_rs.PciIds.Build.Parser as Syntax

is_hexdigit-LowerHex : (c : ℕ) → LowerHex c → is_hexdigit c ≡ true
unfolding is_hexdigit digit
is_hexdigit-LowerHex c h = ground arith

all-LowerHex : (s : Bytes) → All LowerHex s → all is_hexdigit s ≡ true
all-LowerHex [] h = refl
all-LowerHex (c ∷ s) h = rw (is_hexdigit-LowerHex c h.0, all-LowerHex s h.1)

longest_run-all : (p : ℕ → Bool) (s : Bytes) → all p s ≡ true → longest_run p s ≡ ([], s)
longest_run-all p [] h = refl
longest_run-all p (c ∷ s) h = elim (Bool-cases (p c)) [
  | inl e ↦ rw (e, longest_run-all p s (rw e at h))
  | inr e ↦ cc (rw e at h)
]

longest_run-some :
    (p : ℕ → Bool) (s : Bytes) → all p s ≡ false → is_empty (longest_run p s).0 ≡ false
longest_run-some p [] h = cc h
longest_run-some p (c ∷ s) h = elim (Bool-cases (p c)) [
  | inl e ↦ rw e (longest_run-some p s (rw e at h))
  | inr e ↦ rw e refl
]

take-append : (xs ys : Bytes) → take (length xs) (xs ++ ys) ≡ xs
take-append [] ys = refl
take-append (x ∷ xs) ys = ap (◌∷◌ x) (take-append xs ys)

drop-append : (xs ys : Bytes) → drop (length xs) (xs ++ ys) ≡ ys
drop-append [] ys = refl
drop-append (x ∷ xs) ys = drop-append xs ys

-- A character that is no digit stands among the first `n`.
all-take_other :
    (n : ℕ) (front back : Bytes) (c : ℕ)
    → length front < n
    → is_hexdigit c ≡ false
    → all is_hexdigit (take n (front ++ c ∷ back)) ≡ false
all-take_other zero front back c h other = absurd (omega arith)
all-take_other (suc n) [] back c h other = rw other refl
all-take_other (suc n) (x ∷ front) back c h other = elim (Bool-cases (is_hexdigit x)) [
  | inl e ↦ rw e (all-take_other n front back c (omega arith) other)
  | inr e ↦ rw e refl
]

not_whole : (r : Bytes × Bytes) → is_empty r.0 ≡ false → (not_empty r >>= at_end) ≡ none
not_whole (rest, []) h = refl
not_whole (rest, c ∷ found) h = rw h

module _ (nom : Nom) (law : IsNom nom) where
  whole_run :
      (s : Bytes) (c : ℕ)
      → all is_hexdigit (c ∷ s) ≡ true
      → nom.all_consuming _ nom.hex_digit1 (c ∷ s) ≡ some ([], c ∷ s)
  whole_run s c h =
      law.all_consuming_eq _ nom.hex_digit1 (c ∷ s)
      ∙ rw (law.hex_digit1_eq (c ∷ s), longest_run-all is_hexdigit (c ∷ s) h)

  no_run : (s : Bytes) → all is_hexdigit s ≡ false → nom.all_consuming _ nom.hex_digit1 s ≡ none
  no_run s h =
      law.all_consuming_eq _ nom.hex_digit1 s
      ∙ rw (law.hex_digit1_eq s)
          (not_whole (longest_run is_hexdigit s) (longest_run-some is_hexdigit s h))

  id-text :
      (bound n : ℕ) (t rest : Bytes)
      → t ≢ []
      → all is_hexdigit t ≡ true
      → from_str_radix bound t ≡ some n
      → Syntax.id nom (length t) bound (t ++ rest) ≡ some (rest, n)
  unfolding Syntax.id
  id-text bound n [] rest ne h e = absurd (ne refl)
  id-text bound n (c ∷ s) rest ne h e =
      let fits : leb (length (c ∷ s)) (length (c ∷ s ++ rest)) ≡ true =
        le→leb _ _ (omega (arith, length-append s rest)) in
      rw (
        law.map_res_eq,
        law.map_parser_eq,
        law.take_eq,
        fits,
        drop-append s rest,
        take-append s rest,
        whole_run s c h,
        e,
      )

  -- `size` digits are an ID, whatever follows.
  pub id-padded :
      (k bound n : ℕ) (rest : Bytes)
      → n < 16 ^ suc k
      → n < bound
      → Syntax.id nom (suc k) bound (padded (suc k) n ++ rest) ≡ some (rest, n)
  id-padded k bound n rest h b =
      let t = padded (suc k) n in
      rw (length-padded (suc k) n) at (
        id-text bound n (padded (suc k) n) rest
          (λ e. absurd (let m = ap length e in let l = length-padded (suc k) n in omega arith))
          (all-LowerHex (padded (suc k) n) (padded-LowerHex (suc k) n))
          (from_str_radix-padded k bound n h b))

  -- A character that is no digit, among the first `size`, and there is no ID.
  pub id-other :
      (size bound : ℕ) (front back : Bytes) (c : ℕ)
      → length front < size
      → is_hexdigit c ≡ false
      → Syntax.id nom size bound (front ++ c ∷ back) ≡ none
  unfolding Syntax.id
  id-other size bound front back c h other =
      elim (Bool-cases (leb size (length (front ++ c ∷ back)))) [
        | inl e ↦ rw (
          law.map_res_eq,
          law.map_parser_eq,
          law.take_eq,
          e,
          no_run _ (all-take_other size front back c h other),
        )
        | inr e ↦ rw (law.map_res_eq, law.map_parser_eq, law.take_eq, e)
      ]
