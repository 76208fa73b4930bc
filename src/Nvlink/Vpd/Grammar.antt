-- ===== src/Nvlink/Vpd/Grammar.antt =====
-- The grammar of Vital Product Data, and that the two loops parse it.
use pcilibs_rs.Prelude.{
  ℕ, zero, suc, ◌+◌, ◌*◌, ◌<◌, Bool, true, false, ◌||◌, ◌==◌, List, [], ◌∷◌, ◌++◌, length, take,
  drop, any, All, Result, ok, ◌≡◌, refl, ◌∙◌, ap, arith, bit_and, length-append, le→leb, ◌>>=◌,
}
use pcilibs_rs.Text.{Bytes}
use pcilibs_rs.Nvlink.Vpd.{
  VpdError, vpd_end, vpd_read_only, vpd_read_write, manages, scan_keywords, resource_then,
  holds_keywords, scan_resource, scan_resources, vpd_sw_mng,
}

take-append {ℓ} : {A : Type ℓ} (xs ys : List A) → take (length xs) (xs ++ ys) ≡ xs
take-append [] ys = refl
take-append (x ∷ xs) ys = ap (λ t. x ∷ t) (take-append xs ys)

drop-append {ℓ} : {A : Type ℓ} (xs ys : List A) → drop (length xs) (xs ++ ys) ≡ ys
drop-append [] ys = refl
drop-append (x ∷ xs) ys = drop-append xs ys

abbrev pub Keyword : Type 0
Keyword = ℕ × ℕ × Bytes

unfoldable pub spell_keywords : List Keyword → Bytes
spell_keywords [] = []
spell_keywords ((a, b, value) ∷ ks) = a ∷ b ∷ length value ∷ value ++ spell_keywords ks

abbrev pub names_manager : Keyword → Bool
names_manager (a, b, value) = manages a b value

-- Resources by the form of their size. The two with keywords stand apart: writable or read-only.
pub data Resource : Type 0 where
  small : ℕ → Bytes → Resource
  large : ℕ → ℕ → ℕ → Bytes → Resource
  keyed : Bool → ℕ → ℕ → List Keyword → Resource

abbrev pub keyed_tag : Bool → ℕ
keyed_tag true = vpd_read_write
keyed_tag false = vpd_read_only

-- An image: the resources, the end tag, and anything behind it.
unfoldable pub spell : List Resource → Bytes → Bytes
unfolding spell_keywords
spell [] trailing = vpd_end ∷ trailing
spell (small tag payload ∷ rs) trailing = tag ∷ payload ++ spell rs trailing
spell (large tag low high payload ∷ rs) trailing = tag ∷ low ∷ high ∷ payload ++ spell rs trailing
spell (keyed writable low high ks ∷ rs) trailing =
    keyed_tag writable ∷ low ∷ high ∷ spell_keywords ks ++ spell rs trailing

abbrev pub IsResource : Resource → Type 0
IsResource (small tag payload) =
    ((tag == vpd_end) ≡ false)
    × ((bit_and tag 0x80 == 0) ≡ true)
    × (holds_keywords tag ≡ false)
    × (bit_and tag 7 ≡ length payload)
IsResource (large tag low high payload) =
    ((tag == vpd_end) ≡ false)
    × ((bit_and tag 0x80 == 0) ≡ false)
    × (holds_keywords tag ≡ false)
    × (low + 256 * high ≡ length payload)
IsResource (keyed writable low high ks) = low + 256 * high ≡ length (spell_keywords ks)

unfoldable pub is_manager : Resource → Bool
is_manager (small tag payload) = false
is_manager (large tag low high payload) = false
is_manager (keyed writable low high ks) = any names_manager ks

or_assoc : (a b c : Bool) → ((a || b) || c) ≡ (a || (b || c))
or_assoc true b c = refl
or_assoc false b c = refl

scan_keywords-spell :
    (ks : List Keyword) (fuel : ℕ) (found : Bool)
    → length (spell_keywords ks) < fuel
    → scan_keywords fuel found (spell_keywords ks) ≡ ok (found || any names_manager ks)
unfolding scan_keywords spell_keywords
scan_keywords-spell ks zero found h = ground arith
scan_keywords-spell [] (suc fuel) found h = ground arith
scan_keywords-spell ((a, b, value) ∷ ks) (suc fuel) found h =
    let l = length-append value (spell_keywords ks) in
    let again =
      scan_keywords-spell ks fuel (found || manages a b value) (omega arith)
      ∙ ap ok (or_assoc found (manages a b value) (any names_manager ks)) in
    rw (le→leb (length value) (length (value ++ spell_keywords ks)) (omega arith)) (
      rw (take-append value (spell_keywords ks)) (rw (drop-append value (spell_keywords ks)) again))

-- A resource whose payload is at hand, and what is behind it.
resource_then-append :
    (later : Bool → Bytes → Result VpdError Bool) (tag : ℕ) (found : Bool) (n : ℕ)
    (payload rest : Bytes)
    → n ≡ length payload
    → resource_then later tag found (ok (n, payload ++ rest))
      ≡ (scan_resource tag found payload >>= λ next. later next rest)
resource_then-append later tag found n payload rest e =
    let l = length-append payload rest in
    rw e (
      rw (le→leb (length payload) (length (payload ++ rest)) (omega arith))
        (rw (take-append payload rest) (rw (drop-append payload rest) refl)))

scan_other :
    (tag : ℕ) (found : Bool) (payload : Bytes)
    → holds_keywords tag ≡ false
    → scan_resource tag found payload ≡ ok found
unfolding scan_resource
scan_other tag found payload e = rw e refl

scan_keyed :
    (writable : Bool) (found : Bool) (ks : List Keyword)
    → scan_resource (keyed_tag writable) found (spell_keywords ks)
      ≡ ok (found || any names_manager ks)
unfolding scan_resource
scan_keyed true found ks =
    scan_keywords-spell ks (suc (length (spell_keywords ks))) found (omega arith)
scan_keyed false found ks =
    scan_keywords-spell ks (suc (length (spell_keywords ks))) found (omega arith)

scan_resources-spell :
    (rs : List Resource) (fuel : ℕ) (found : Bool) (trailing : Bytes)
    → All IsResource rs
    → length (spell rs trailing) < fuel
    → scan_resources fuel found (spell rs trailing) ≡ ok (found || any is_manager rs)
unfolding scan_resources spell is_manager
scan_resources-spell rs zero found trailing w h = ground arith
scan_resources-spell [] (suc fuel) found trailing w h = ground arith
scan_resources-spell (small tag payload ∷ rs) (suc fuel) found trailing w h =
    let (not_end, is_small, other, n) = w.0 in
    let l = length-append payload (spell rs trailing) in
    let step =
      resource_then-append (scan_resources fuel) tag found (bit_and tag 7) payload
        (spell rs trailing) n in
    let again = scan_resources-spell rs fuel found trailing w.1 (omega arith) in
    rw not_end (rw is_small (step ∙ rw (scan_other tag found payload other) again))
scan_resources-spell (large tag low high payload ∷ rs) (suc fuel) found trailing w h =
    let (not_end, is_large, other, n) = w.0 in
    let l = length-append payload (spell rs trailing) in
    let step =
      resource_then-append (scan_resources fuel) tag found (low + 256 * high) payload
        (spell rs trailing) n in
    let again = scan_resources-spell rs fuel found trailing w.1 (omega arith) in
    rw not_end (rw is_large (step ∙ rw (scan_other tag found payload other) again))
scan_resources-spell (keyed true low high ks ∷ rs) (suc fuel) found trailing w h =
    let l = length-append (spell_keywords ks) (spell rs trailing) in
    let step =
      resource_then-append (scan_resources fuel) (keyed_tag true) found (low + 256 * high)
        (spell_keywords ks) (spell rs trailing) w.0 in
    let again =
      scan_resources-spell rs fuel (found || any names_manager ks) trailing w.1 (omega arith)
      ∙ ap ok (or_assoc found (any names_manager ks) (any is_manager rs)) in
    step ∙ rw (scan_keyed true found ks) again
scan_resources-spell (keyed false low high ks ∷ rs) (suc fuel) found trailing w h =
    let l = length-append (spell_keywords ks) (spell rs trailing) in
    let step =
      resource_then-append (scan_resources fuel) (keyed_tag false) found (low + 256 * high)
        (spell_keywords ks) (spell rs trailing) w.0 in
    let again =
      scan_resources-spell rs fuel (found || any names_manager ks) trailing w.1 (omega arith)
      ∙ ap ok (or_assoc found (any names_manager ks) (any is_manager rs)) in
    step ∙ rw (scan_keyed false found ks) again

-- In a well-formed image, whatever bytes stand behind its end, `vpd_sw_mng` finds the marker
-- exactly if a keyword of one of its keyword resources says it.
pub vpd_sw_mng-spell :
    (rs : List Resource) (trailing : Bytes)
    → All IsResource rs
    → vpd_sw_mng (spell rs trailing) ≡ ok (any is_manager rs)
unfolding vpd_sw_mng
vpd_sw_mng-spell rs trailing w =
    scan_resources-spell rs (suc (length (spell rs trailing))) false trailing w (omega arith)
