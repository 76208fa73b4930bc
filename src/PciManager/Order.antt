-- ===== src/PciManager/Order.antt =====
-- The key by which devices are sorted is the address as one number.
use pcilibs_rs.Prelude.{
  ℕ, ◌+◌, ◌*◌, ◌^◌, ◌<◌, false, some, [], ◌∷◌, ◌++◌, All, All-append, length, length-append, ◌≡◌,
  refl, arith, ◌∙◌, ap,
}
use pcilibs_rs.Text.{Bytes}
use pcilibs_rs.Text.Hex.{padded, from_str_radix, digits}
use pcilibs_rs.Text.Hex.RoundTrip.{
  is_lower_hex, LowerHex, padded-LowerHex, length-padded, digits-append, digits-padded,
  digits-padded_behind, from_str_radix-LowerHex,
}
use pcilibs_rs.Bdf.{render, function_hex}
use pcilibs_rs.PciManager.{address_to_id, without, or_zero}

without-append : (c : ℕ) (xs ys : Bytes) → without c (xs ++ ys) ≡ without c xs ++ without c ys
without-append c [] ys = refl
without-append c (x ∷ xs) ys = ground (arith, without-append c xs ys)

without-LowerHex : (c : ℕ) (s : Bytes) → is_lower_hex c ≡ false → All LowerHex s → without c s ≡ s
without-LowerHex c [] h d = refl
without-LowerHex c (x ∷ s) h d = ground (arith, without-LowerHex c s h d.1)

abbrev joined : ℕ → ℕ → ℕ → ℕ → Bytes
joined domain bus device function =
    padded 4 domain ++ (padded 2 bus ++ (padded 2 device ++ padded 1 function))

joined-LowerHex :
    (domain bus device function : ℕ) → All LowerHex (joined domain bus device function)
joined-LowerHex domain bus device function =
    All-append LowerHex (padded 4 domain) _ (padded-LowerHex 4 domain) (
      All-append LowerHex (padded 2 bus) _ (padded-LowerHex 2 bus) (
        All-append LowerHex (padded 2 device) _ (padded-LowerHex 2 device)
          (padded-LowerHex 1 function)))

digits-joined :
    (domain bus device function : ℕ)
    → domain < 2 ^ 16
    → bus < 2 ^ 8
    → device < 2 ^ 8
    → function < 16
    → digits (2 ^ 64) 0 (joined domain bus device function)
      ≡ some (((domain * 256 + bus) * 256 + device) * 16 + function)
digits-joined domain bus device function d b v f =
    digits-append (2 ^ 64) 0 domain (padded 4 domain) _
      (digits-padded 4 (2 ^ 64) domain (omega arith) (omega arith))
    ∙ digits-append (2 ^ 64) domain (domain * 256 + bus) (padded 2 bus) _ (
        digits-padded_behind 2 (2 ^ 64) domain bus (omega arith) (omega arith)
        ∙ ap some (omega arith))
    ∙ digits-append (2 ^ 64) (domain * 256 + bus) ((domain * 256 + bus) * 256 + device)
        (padded 2 device) _
        (digits-padded_behind 2 (2 ^ 64) (domain * 256 + bus) device (omega arith) (omega arith)
          ∙ ap some (omega arith))
    ∙ digits-padded_behind 1 (2 ^ 64) ((domain * 256 + bus) * 256 + device) function (omega arith)
        (omega arith)

-- Both separators go.
abbrev plain : Bytes → Bytes
plain s = without b'.' (without b':' s)

plain-append :
    (xs rest front back : Bytes)
    → plain xs ≡ front
    → plain rest ≡ back
    → plain (xs ++ rest) ≡ front ++ back
plain-append xs rest front back e h =
    ap (without b'.') (without-append b':' xs rest)
    ∙ without-append b'.' (without b':' xs) (without b':' rest)
    ∙ ap (λ t. t ++ plain rest) e
    ∙ ap (λ t. front ++ t) h

plain-padded : (k n : ℕ) → plain (padded k n) ≡ padded k n
plain-padded k n =
    ap (without b'.') (without-LowerHex b':' (padded k n) refl (padded-LowerHex k n))
    ∙ without-LowerHex b'.' (padded k n) refl (padded-LowerHex k n)

function_hex-digit : (f : ℕ) → f < 16 → function_hex f ≡ padded 1 f
unfolding function_hex
function_hex-digit f h = ground arith

without-render :
    (domain bus device function : ℕ)
    → function < 16
    → without b'.' (without b':' (render domain bus device function))
      ≡ joined domain bus device function
unfolding render
without-render domain bus device function f =
    plain-append (padded 4 domain)
      (b':' ∷ (padded 2 bus ++ (b':' ∷ (padded 2 device ++ (b'.' ∷ function_hex function)))))
      (padded 4 domain) (padded 2 bus ++ (padded 2 device ++ padded 1 function))
      (plain-padded 4 domain)
      (plain-append (padded 2 bus) (b':' ∷ (padded 2 device ++ (b'.' ∷ function_hex function)))
        (padded 2 bus) (padded 2 device ++ padded 1 function) (plain-padded 2 bus)
        (plain-append (padded 2 device) (b'.' ∷ function_hex function) (padded 2 device)
          (padded 1 function) (plain-padded 2 device)
          (ap plain (function_hex-digit function f) ∙ plain-padded 1 function)))

-- The key of a canonical address with a one-digit function is the number that its fields make,
-- the domain first.
pub address_to_id-render :
    (domain bus device function : ℕ)
    → domain < 2 ^ 16
    → bus < 2 ^ 8
    → device < 2 ^ 8
    → function < 16
    → address_to_id (render domain bus device function)
      ≡ ((domain * 256 + bus) * 256 + device) * 16 + function
unfolding address_to_id
address_to_id-render domain bus device function d b v f = ap or_zero (
    ap (from_str_radix (2 ^ 64)) (without-render domain bus device function f)
    ∙ from_str_radix-LowerHex (2 ^ 64) (joined domain bus device function)
        (joined-LowerHex domain bus device function)
        (λ e. omega (
          arith,
          ap length e,
          length-padded 4 domain,
          length-append (padded 4 domain) (padded 2 bus ++ (padded 2 device ++ padded 1 function)),
        ))
    ∙ digits-joined domain bus device function d b v f)
