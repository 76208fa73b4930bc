-- ===== src/Sort/Texts.antt =====
-- The order of strings is total.
use pcilibs_rs.Prelude.{true, false, [], ◌∷◌, ◌≡◌, refl, arith}
use pcilibs_rs.Text.{Bytes}
use pcilibs_rs.Sort.{text_le}
use pcilibs_rs.Sort.Laws.{IsOrder}

pub text_le_total : (s t : Bytes) → text_le s t ≡ false → text_le t s ≡ true
unfolding text_le
text_le_total (a ∷ s) (b ∷ t) h = ground (arith, text_le_total s t)
text_le_total [] t h = ground arith
text_le_total (a ∷ s) [] h = ground arith

pub text_le_trans : (s t u : Bytes) → text_le s t ≡ true → text_le t u ≡ true → text_le s u ≡ true
unfolding text_le
text_le_trans [] t u h k = ground arith
text_le_trans (a ∷ s) [] u h k = ground arith
text_le_trans (a ∷ s) (b ∷ t) [] h k = ground arith
text_le_trans (a ∷ s) (b ∷ t) (c ∷ u) h k = ground (arith, text_le_trans s t u)

pub text_le_antisymm : (s t : Bytes) → text_le s t ≡ true → text_le t s ≡ true → s ≡ t
unfolding text_le
text_le_antisymm [] [] h k = refl
text_le_antisymm [] (b ∷ t) h k = ground arith
text_le_antisymm (a ∷ s) [] h k = ground arith
text_le_antisymm (a ∷ s) (b ∷ t) h k = ground (arith, text_le_antisymm s t)

-- Records are sorted by one of their strings.
pub by_text-IsOrder {ℓ} :
    {A : Type ℓ} (key : A → Bytes) → IsOrder (λ (a b : A). text_le (key a) (key b))
by_text-IsOrder key = record {
  total = λ a b. text_le_total (key a) (key b);
  trans = λ a b c. text_le_trans (key a) (key b) (key c);
}
