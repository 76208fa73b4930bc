-- ===== src/Bdf/Canonical.antt =====
-- What `normalize_bdf` returns is canonical, and holds none of the caller's bytes.
use pcilibs_rs.Prelude.{
  ℕ, ◌<◌, true, false, ◌||◌, Option, none, some, List, [], ◌∷◌, ◌++◌, ◌==◌, ltb, ◌≡◌, refl, arith,
  All, All-append, ◌∙◌, ap, Bool-cases, inl, inr,
}
use pcilibs_rs.Text.{Bytes, split, split_once}
use pcilibs_rs.Text.Hex.{from_str_radix, padded}
use pcilibs_rs.Text.Hex.RoundTrip.{
  is_lower_hex, LowerHex, padded-LowerHex, from_str_radix-padded, from_str_radix-lt,
}
use pcilibs_rs.Text.Split.{Free, split-Free, split-Free_last, split_once-Free}
use pcilibs_rs.Bdf.{
  u16_bound, u8_bound, pci_dev_domain, function_hex, render, parse_address, from_fields,
  normalize_bdf, ◌>>=◌,
}

-- An address in range.
pub record Address : Type 0 where
  pub domain : ℕ
  pub bus : ℕ
  pub device : ℕ
  pub function : ℕ

abbrev pub spelled : Address → Bytes
spelled a = render a.domain a.bus a.device a.function

pub record InRange (a : Address) : Type 0 where
  pub domain_fits : a.domain < u16_bound
  pub bus_fits : a.bus < u8_bound
  pub device_fits : a.device < u8_bound
  pub function_fits : a.function < u8_bound

LowerHex-Free : (b : ℕ) (s : Bytes) → is_lower_hex b ≡ false → All LowerHex s → Free b s
LowerHex-Free b [] n h = tt
LowerHex-Free b (c ∷ s) n h = (ground arith, LowerHex-Free b s n h.1)

function_hex-LowerHex : (f : ℕ) → All LowerHex (function_hex f)
unfolding function_hex
function_hex-LowerHex f = elim (Bool-cases (ltb f 16)) [
  | inl t ↦ rw t (padded-LowerHex 1 f)
  | inr t ↦ rw t (padded-LowerHex 2 f)
]

from_str_radix-function_hex :
    (f : ℕ) → f < u8_bound → from_str_radix u8_bound (function_hex f) ≡ some f
unfolding function_hex
from_str_radix-function_hex f h = elim (Bool-cases (ltb f 16)) [
  | inl t ↦ rw t (from_str_radix-padded 0 u8_bound f (ground arith) h)
  | inr t ↦ rw t (from_str_radix-padded 1 u8_bound f h h)
]

Free-hex : (b k n : ℕ) → is_lower_hex b ≡ false → Free b (padded k n)
Free-hex b k n h = LowerHex-Free b (padded k n) h (padded-LowerHex k n)

abbrev slot_of : Address → Bytes
slot_of a = padded 2 a.device ++ (b'.' ∷ function_hex a.function)

slot_of-Free : (a : Address) → Free b':' (slot_of a)
slot_of-Free a =
    All-append _ (padded 2 a.device) _ (Free-hex b':' 2 a.device refl)
      (refl, LowerHex-Free b':' (function_hex a.function) refl (function_hex-LowerHex a.function))

split-spelled :
    (a : Address) → split b':' (spelled a) ≡ padded 4 a.domain ∷ padded 2 a.bus ∷ slot_of a ∷ []
unfolding render
split-spelled a =
    split-Free b':' (padded 4 a.domain) _ (Free-hex b':' 4 a.domain refl)
    ∙ ap (◌∷◌ (padded 4 a.domain)) (
        split-Free b':' (padded 2 a.bus) _ (Free-hex b':' 2 a.bus refl)
        ∙ ap (◌∷◌ (padded 2 a.bus)) (split-Free_last b':' (slot_of a) (slot_of-Free a)))

parse_address-spelled :
    (a : Address)
    → InRange a
    → parse_address (padded 4 a.domain) (padded 2 a.bus) (slot_of a) ≡ some (spelled a)
unfolding parse_address
parse_address-spelled a r = rw (
  split_once-Free b'.' (padded 2 a.device) (function_hex a.function)
      (Free-hex b'.' 2 a.device refl),
  from_str_radix-padded 3 u16_bound a.domain r.domain_fits r.domain_fits,
  from_str_radix-padded 1 u8_bound a.bus r.bus_fits r.bus_fits,
  from_str_radix-padded 1 u8_bound a.device r.device_fits r.device_fits,
  from_str_radix-function_hex a.function r.function_fits,
)

-- An address that is spelled the way sysfs does normalizes to itself.
pub normalize_bdf-spelled : (a : Address) → InRange a → normalize_bdf (spelled a) ≡ some (spelled a)
unfolding normalize_bdf
normalize_bdf-spelled a r = rw (split-spelled a) (parse_address-spelled a r)

bind-eq-some {ℓ κ} :
    {A : Type ℓ} {B : Type κ} (m : Option A) (f : A → Option B) {b : B}
    → (m >>= f) ≡ some b
    → (a : A) × (m ≡ some a) × (f a ≡ some b)
bind-eq-some none f h = cc
bind-eq-some (some a) f h = (a, refl, h)

-- A normalized address, and how it is spelled.
pub record Normalized (t : Bytes) : Type 0 where
  pub address : Address
  pub in_range : InRange address
  pub spells : t ≡ spelled address

parse_address-Normalized :
    (domain bus slot : Bytes) {t : Bytes} → parse_address domain bus slot ≡ some t → Normalized t
unfolding parse_address
parse_address-Normalized domain bus slot h =
    let (parts, _, h1) = bind-eq-some (split_once b'.' slot) _ h in
    let (d, ed, h2) = bind-eq-some (from_str_radix u16_bound domain) _ h1 in
    let (b, eb, h3) = bind-eq-some (from_str_radix u8_bound bus) _ h2 in
    let (v, ev, h4) = bind-eq-some (from_str_radix u8_bound parts.0) _ h3 in
    let (f, ef, h5) = bind-eq-some (from_str_radix u8_bound parts.1) _ h4 in
    record {
      address = record { domain = d; bus = b; device = v; function = f };
      in_range = record {
        domain_fits = from_str_radix-lt u16_bound d domain (omega arith) ed;
        bus_fits = from_str_radix-lt u8_bound b bus (omega arith) eb;
        device_fits = from_str_radix-lt u8_bound v parts.0 (omega arith) ev;
        function_fits = from_str_radix-lt u8_bound f parts.1 (omega arith) ef;
      };
      spells = cc h5;
    }

from_fields-Normalized :
    (fields : List Bytes) {t : Bytes} → from_fields fields ≡ some t → Normalized t
unfolding from_fields
from_fields-Normalized (bus ∷ slot ∷ []) h = parse_address-Normalized pci_dev_domain bus slot h
from_fields-Normalized (domain ∷ bus ∷ slot ∷ []) h = parse_address-Normalized domain bus slot h
from_fields-Normalized _ h = absurd (ground arith)

-- Whatever is accepted, the result spells four numbers in range: a 16-bit domain and three bytes.
pub normalize_bdf-Normalized : (bdf : Bytes) {t : Bytes} → normalize_bdf bdf ≡ some t → Normalized t
unfolding normalize_bdf
normalize_bdf-Normalized bdf h = from_fields-Normalized (split b':' bdf) h

-- Normalizing an accepted address again changes nothing.
pub normalize_bdf_idem :
    (bdf : Bytes) {t : Bytes} → normalize_bdf bdf ≡ some t → normalize_bdf t ≡ some t
normalize_bdf_idem bdf h =
    let n = normalize_bdf-Normalized bdf h in
    rw n.spells (normalize_bdf-spelled n.address n.in_range)

-- Lowercase hexadecimal digits, colons and the dot.
abbrev pub AddressByte : ℕ → Type 0
AddressByte c = (is_lower_hex c || c == b':' || c == b'.') ≡ true

All-AddressByte : (s : Bytes) → All LowerHex s → All AddressByte s
All-AddressByte [] h = tt
All-AddressByte (c ∷ s) h = (ground arith, All-AddressByte s h.1)

All-separated :
    (b : ℕ) (x y : Bytes)
    → AddressByte b
    → All AddressByte x
    → All AddressByte y
    → All AddressByte (x ++ b ∷ y)
All-separated b x y hb hx hy = All-append AddressByte x (b ∷ y) hx (hb, hy)

pub spelled-AddressByte : (a : Address) → All AddressByte (spelled a)
unfolding render
spelled-AddressByte a =
    let hex = λ (k n : ℕ). All-AddressByte (padded k n) (padded-LowerHex k n) in
    let last = All-AddressByte (function_hex a.function) (function_hex-LowerHex a.function) in
    let slot =
      All-separated b'.' (padded 2 a.device) (function_hex a.function) refl (hex 2 a.device) last in
    All-separated b':' (padded 4 a.domain) (padded 2 a.bus ++ (b':' ∷ slot_of a)) refl
      (hex 4 a.domain) (All-separated b':' (padded 2 a.bus) (slot_of a) refl (hex 2 a.bus) slot)

-- An accepted address holds nothing but lowercase hexadecimal digits, colons and dots, whatever
-- bytes the caller wrote.
pub normalize_bdf-AddressByte :
    (bdf : Bytes) {t : Bytes} → normalize_bdf bdf ≡ some t → All AddressByte t
normalize_bdf-AddressByte bdf h =
    let n = normalize_bdf-Normalized bdf h in rw n.spells (spelled-AddressByte n.address)
