-- ===== src/Nvlink/Vpd/Fuel.antt =====
-- The loops of `vpd_sw_mng` end on any bytes.
use pcilibs_rs.Prelude.{
  ℕ, zero, suc, ◌+◌, ◌*◌, ◌<◌, ◌≤◌, Bool, false, ◌||◌, ◌==◌, leb, List, [], ◌∷◌, length, take, drop,
  Result, ok, err, ◌≡◌, ◌≢◌, refl, arith, bit_and, Bool-cases, inl, inr, Result-cases, ◌⊎◌, ◌>>=◌,
}
use pcilibs_rs.Text.{Bytes}
use pcilibs_rs.Nvlink.Vpd.{
  VpdError, out_of_fuel, vpd_end, manages, scan_keywords, size, large_size, truncated_length,
  resource_then, holds_keywords, scan_resource, scan_resources, vpd_sw_mng,
}

length-drop {ℓ} : {A : Type ℓ} (n : ℕ) (xs : List A) → length (drop n xs) ≤ length xs
length-drop zero xs = omega arith
length-drop (suc n) [] = omega arith
length-drop (suc n) (x ∷ xs) = let h = length-drop n xs in omega arith

-- Each keyword takes three bytes at least.
scan_keywords-ne-out_of_fuel :
    (fuel : ℕ) (found : Bool) (keywords : Bytes)
    → length keywords < fuel
    → scan_keywords fuel found keywords ≢ err out_of_fuel
unfolding scan_keywords
scan_keywords-ne-out_of_fuel zero found keywords h = omega arith
scan_keywords-ne-out_of_fuel (suc fuel) found [] h = λ e. cc e
scan_keywords-ne-out_of_fuel (suc fuel) found (a ∷ []) h = λ e. cc e
scan_keywords-ne-out_of_fuel (suc fuel) found (a ∷ b ∷ []) h = λ e. cc e
scan_keywords-ne-out_of_fuel (suc fuel) found (a ∷ b ∷ n ∷ rest) h =
    let l = length-drop n rest in
    let again =
      scan_keywords-ne-out_of_fuel fuel (found || manages a b (take n rest)) (drop n rest)
        (omega arith) in
    elim (Bool-cases (leb n (length rest))) [
      | inl fits ↦ rw fits again
      | inr cut ↦ rw cut (λ e. cc e)
    ]

scan_resource-ne-out_of_fuel :
    (tag : ℕ) (found : Bool) (resource : Bytes) → scan_resource tag found resource ≢ err out_of_fuel
unfolding scan_resource
scan_resource-ne-out_of_fuel tag found resource =
    let inner = scan_keywords-ne-out_of_fuel (suc (length resource)) found resource (omega arith) in
    elim (Bool-cases (holds_keywords tag)) [ inl e ↦ rw e inner | inr e ↦ rw e (λ x. cc x) ]

large_size-cases :
    (rest : Bytes)
    → ((n : ℕ) × (payload : Bytes) × (large_size rest ≡ ok (n, payload))
        × (length payload ≤ length rest))
      ⊎ (large_size rest ≡ err truncated_length)
large_size-cases [] = inr refl
large_size-cases (a ∷ []) = inr refl
large_size-cases (a ∷ b ∷ payload) = inl (a + 256 * b, payload, refl, omega arith)

size-cases :
    (tag : ℕ) (rest : Bytes)
    → ((n : ℕ) × (payload : Bytes) × (size tag rest ≡ ok (n, payload))
        × (length payload ≤ length rest))
      ⊎ (size tag rest ≡ err truncated_length)
size-cases tag rest = elim (Bool-cases (bit_and tag 0x80 == 0)) [
  | inl small ↦ inl (bit_and tag 7, rest, rw small refl, omega arith)
  | inr large ↦ rw large (large_size-cases rest)
]

-- What is behind a resource is no longer than what is behind its tag.
resource_then-ne-out_of_fuel :
    (later : Bool → Bytes → Result VpdError Bool) (fuel tag : ℕ) (found : Bool) (n : ℕ)
    (payload : Bytes)
    → length payload < fuel
    → ((f : Bool) (image : Bytes) → length image < fuel → later f image ≢ err out_of_fuel)
    → resource_then later tag found (ok (n, payload)) ≢ err out_of_fuel
resource_then-ne-out_of_fuel later fuel tag found n payload h total =
    let short = length-drop n payload in
    elim (Bool-cases (leb n (length payload))) [
      | inr cut ↦ rw cut (λ e. cc e)
      | inl fits ↦ rw fits (behind (Result-cases (scan_resource tag found (take n payload))))
    ]
  where
    behind :
        ((f : Bool) × (scan_resource tag found (take n payload) ≡ ok f))
          ⊎ ((x : VpdError) × (scan_resource tag found (take n payload) ≡ err x))
        → (scan_resource tag found (take n payload) >>= λ next. later next (drop n payload))
          ≢ err out_of_fuel
    behind (inl (f, e)) =
        rw e (total f (drop n payload) (let short = length-drop n payload in omega arith))
    behind (inr (x, e)) =
        let never = scan_resource-ne-out_of_fuel tag found (take n payload) in
        rw e (λ y. never (cc (e, y)))

scan_resources-ne-out_of_fuel :
    (fuel : ℕ) (found : Bool) (image : Bytes)
    → length image < fuel
    → scan_resources fuel found image ≢ err out_of_fuel
unfolding scan_resources
scan_resources-ne-out_of_fuel zero found image h = omega arith
scan_resources-ne-out_of_fuel (suc fuel) found [] h = λ e. cc e
scan_resources-ne-out_of_fuel (suc fuel) found (tag ∷ rest) h = elim (Bool-cases (tag == vpd_end)) [
  | inl e ↦ rw e (λ x. cc x)
  | inr e ↦ rw e (elim (size-cases tag rest) [
    | inl (n, payload, sized, le) ↦ rw sized (
        resource_then-ne-out_of_fuel (scan_resources fuel) fuel tag found n payload (omega arith)
          (λ f image l. scan_resources-ne-out_of_fuel fuel f image l))
    | inr cut ↦ rw cut (λ x. cc x)
  ])
]

-- The loops of `vpd_sw_mng` end: whatever the bytes, the fuel that they are given is enough.
pub vpd_sw_mng-ne-out_of_fuel : (image : Bytes) → vpd_sw_mng image ≢ err out_of_fuel
unfolding vpd_sw_mng
vpd_sw_mng-ne-out_of_fuel image =
    scan_resources-ne-out_of_fuel (suc (length image)) false image (omega arith)
