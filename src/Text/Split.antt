-- ===== src/Text/Split.antt =====
-- Splitting a text at a byte that its fields do not hold.
use pcilibs_rs.Prelude.{
  ℕ, false, some, [], ◌∷◌, ◌++◌, ◌==◌, ◌≡◌, ◌≢◌, arith, All, All-append, ◌∙◌, ap, Bool-cases, inl,
  inr,
}
use mathlib.Core.List.{append_assoc, append-nil}
use pcilibs_rs.Text.{Bytes, split, split_from, split_once, split_once_from}

-- The byte does not occur.
abbrev pub Free : ℕ → Bytes → Type 0
Free b s = All (λ c. (c == b) ≡ false) s

split_from-Free :
    (b : ℕ) (field s rest : Bytes)
    → Free b s
    → split_from b field (s ++ b ∷ rest) ≡ (field ++ s) ∷ split_from b [] rest
unfolding split_from
split_from-Free b field [] rest f = rw append-nil (ground arith)
split_from-Free b field (c ∷ s) rest f =
    rw (f.0, split_from) (split_from-Free b (field ++ c ∷ []) s rest f.1 ∙ rw append_assoc)

split_from-Free_last :
    (b : ℕ) (field s : Bytes) → Free b s → split_from b field s ≡ (field ++ s) ∷ []
unfolding split_from
split_from-Free_last b field [] f = rw append-nil
split_from-Free_last b field (c ∷ s) f =
    rw (f.0, split_from) (split_from-Free_last b (field ++ c ∷ []) s f.1 ∙ rw append_assoc)

pub split-Free : (b : ℕ) (s rest : Bytes) → Free b s → split b (s ++ b ∷ rest) ≡ s ∷ split b rest
unfolding split
split-Free b s rest f = split_from-Free b [] s rest f

pub split-Free_last : (b : ℕ) (s : Bytes) → Free b s → split b s ≡ s ∷ []
unfolding split
split-Free_last b s f = split_from-Free_last b [] s f

split_once_from-Free :
    (b : ℕ) (field s rest : Bytes)
    → Free b s
    → split_once_from b field (s ++ b ∷ rest) ≡ some (field ++ s, rest)
unfolding split_once_from
split_once_from-Free b field [] rest f = rw append-nil (ground arith)
split_once_from-Free b field (c ∷ s) rest f =
    rw (f.0, split_once_from)
      (split_once_from-Free b (field ++ c ∷ []) s rest f.1 ∙ rw append_assoc)

pub split_once-Free :
    (b : ℕ) (s rest : Bytes) → Free b s → split_once b (s ++ b ∷ rest) ≡ some (s, rest)
unfolding split_once
split_once-Free b s rest f = split_once_from-Free b [] s rest f

split_from-append :
    (b : ℕ) (field s rest : Bytes)
    → split_from b field (s ++ b ∷ rest) ≡ split_from b field s ++ split_from b [] rest
unfolding split_from
split_from-append b field [] rest = ground arith
split_from-append b field (c ∷ s) rest = elim (Bool-cases (c == b)) [
  | inl t ↦ rw (t, split_from) (ap (◌∷◌ field) (split_from-append b [] s rest))
  | inr t ↦ rw (t, split_from) (split_from-append b (field ++ c ∷ []) s rest)
]

pub split-append : (b : ℕ) (s rest : Bytes) → split b (s ++ b ∷ rest) ≡ split b s ++ split b rest
unfolding split
split-append b s rest = split_from-append b [] s rest

split_from-ne-nil : (b : ℕ) (field s : Bytes) → split_from b field s ≢ []
unfolding split_from
split_from-ne-nil b field [] h = cc
split_from-ne-nil b field (c ∷ s) h = ground (arith, split_from-ne-nil b (field ++ c ∷ []) s)

pub split-ne-nil : (b : ℕ) (s : Bytes) → split b s ≢ []
unfolding split
split-ne-nil b s = split_from-ne-nil b [] s

split_from-All-Free : (b : ℕ) (field s : Bytes) → Free b field → All (Free b) (split_from b field s)
unfolding split_from
split_from-All-Free b field [] f = (f, tt)
split_from-All-Free b field (c ∷ s) f = elim (Bool-cases (c == b)) [
  | inl t ↦ rw (t, split_from) (f, split_from-All-Free b [] s tt)
  | inr t ↦
      rw (t, split_from)
        (split_from-All-Free b (field ++ c ∷ []) s
          (All-append (λ (x : ℕ). (x == b) ≡ false) field (c ∷ []) f (t, tt)))
]

-- No field holds the separator.
pub split-All-Free : (b : ℕ) (s : Bytes) → All (Free b) (split b s)
unfolding split
split-All-Free b s = split_from-All-Free b [] s tt
