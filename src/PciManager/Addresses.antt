-- ===== src/PciManager/Addresses.antt =====
-- Devices whose keys ascend, by the fields of their addresses.
use pcilibs_rs.Prelude.{
  ℕ, ◌+◌, ◌*◌, ◌<◌, ◌≤◌, true, List, [], ◌∷◌, ◌++◌, map, All, length, length-append, Bool-cases,
  ltb, ◌≡◌, refl, ◌∙◌, ap, arith, ◌⊎◌, inl, inr,
}
use pcilibs_rs.Text.{Bytes}
use pcilibs_rs.Text.Hex.{padded}
use pcilibs_rs.Text.Hex.RoundTrip.{length-padded}
use pcilibs_rs.Sort.{by_key}
use pcilibs_rs.Sort.Laws.{Ascending}
use pcilibs_rs.Bdf.{render, function_hex}
use pcilibs_rs.Bdf.Canonical.{Address, spelled, InRange, Normalized}
use pcilibs_rs.PciManager.{PciDevice, address_to_id}
use pcilibs_rs.PciManager.Order.{address_to_id-render}

-- The order of the addresses: by domain, then bus, then device, then function.
abbrev pub NotAfter : Address → Address → Type 0
NotAfter a b =
    (a.domain < b.domain)
    ⊎ ((a.domain ≡ b.domain)
        × ((a.bus < b.bus)
            ⊎ ((a.bus ≡ b.bus)
                × ((a.device < b.device) ⊎ ((a.device ≡ b.device) × (a.function ≤ b.function))))))

-- Each address stands before none that is smaller.
abbrev pub Ascends : List Address → Type 0
Ascends [] = Unit
Ascends (a ∷ rest) = All (NotAfter a) rest × Ascends rest

abbrev pub address_of : PciDevice → Bytes
address_of dev = dev.address

-- The devices have these addresses, which are in range and ascend.
abbrev pub IsListed : List PciDevice → List Address → Type 0
IsListed devs addresses =
    (map address_of devs ≡ map spelled addresses) × All InRange addresses × Ascends addresses

-- With one digit for the function: `0000:65:00.0`
abbrev pub HasOneDigit : PciDevice → Type 0
HasOneDigit dev = length dev.address ≡ 12

abbrev pub key : PciDevice → ℕ
key dev = address_to_id dev.address

abbrev number : Address → ℕ
number a = ((a.domain * 256 + a.bus) * 256 + a.device) * 16 + a.function

number-NotAfter :
    (a b : Address)
    → InRange a
    → InRange b
    → a.function < 16
    → b.function < 16
    → number a ≤ number b
    → NotAfter a b
number-NotAfter a b r q f g h = elim (Bool-cases (ltb a.domain b.domain)) [
  | inl d ↦ inl (ground arith)
  | inr d ↦
      let bound1 = r.bus_fits in
      let bound2 = r.device_fits in
      let bound3 = q.bus_fits in
      let bound4 = q.device_fits in
      let same : a.domain ≡ b.domain = ground arith in
      inr (
        same,
        elim (Bool-cases (ltb a.bus b.bus)) [
          | inl e ↦ inl (ground arith)
          | inr e ↦
              let same_bus : a.bus ≡ b.bus = ground arith in
              inr (
                same_bus,
                elim (Bool-cases (ltb a.device b.device)) [
                  | inl v ↦ inl (ground arith)
                  | inr v ↦
                      let same_device : a.device ≡ b.device = ground arith in
                      inr (same_device, omega arith)
                ],
              )
        ],
      )
]

length-separated :
    (b c d : ℕ) (w x y z : Bytes)
    → length (w ++ (b ∷ (x ++ (c ∷ (y ++ (d ∷ z))))))
      ≡ length w + length x + length y + length z + 3
length-separated b c d w x y z = omega (
  arith,
  length-append w (b ∷ (x ++ (c ∷ (y ++ (d ∷ z))))),
  length-append x (c ∷ (y ++ (d ∷ z))),
  length-append y (d ∷ z),
)

length-function_hex : (f : ℕ) → length (function_hex f) ≡ 1 → f < 16
unfolding function_hex
length-function_hex f h = elim (Bool-cases (ltb f 16)) [
  | inl t ↦ ground arith
  | inr t ↦ let e = rw t at h in absurd (omega (arith, e, length-padded 2 f))
]

length-spelled : (a : Address) → length (spelled a) ≡ 12 → a.function < 16
unfolding render
length-spelled a h = length-function_hex a.function (
    omega (
      arith,
      h,
      length-separated b':' b':' b'.' (padded 4 a.domain) (padded 2 a.bus) (padded 2 a.device)
          (function_hex a.function),
      length-padded 4 a.domain,
      length-padded 2 a.bus,
      length-padded 2 a.device,
    ))

number-key :
    (dev : PciDevice) (a : Address)
    → dev.address ≡ spelled a
    → InRange a
    → HasOneDigit dev
    → key dev ≡ number a
number-key dev a e r h =
    ap address_to_id e
    ∙ address_to_id-render a.domain a.bus a.device a.function r.domain_fits r.bus_fits r.device_fits
        (length-spelled a (rw e at h))

-- Behind a device stand the addresses of devices with greater keys.
above-All :
    (dev : PciDevice) (a : Address) (devs : List PciDevice) (addresses : List Address)
    → dev.address ≡ spelled a
    → InRange a
    → HasOneDigit dev
    → map address_of devs ≡ map spelled addresses
    → All InRange addresses
    → All HasOneDigit devs
    → All (λ other. by_key key dev other ≡ true) devs
    → All (NotAfter a) addresses
above-All dev a devs [] e r h same rs hs k = tt
above-All dev a [] (b ∷ bs) e r h same rs hs k = absurd (cc same)
above-All dev a (x ∷ xs) (b ∷ bs) e r h same rs hs k =
    let first : x.address ≡ spelled b = cc same in
    let behind : map address_of xs ≡ map spelled bs = cc same in
    let one = number-key dev a e r h in
    let two = number-key x b first rs.0 hs.0 in
    let three = k.0 in
    (
      number-NotAfter a b r rs.0 (length-spelled a (rw e at h))
          (length-spelled b (let g = hs.0 in rw first at g)) (ground arith),
      above-All dev a xs bs e r h behind rs.1 hs.1 k.1,
    )

pub Ascending-IsListed :
    (devs : List PciDevice)
    → All (λ dev. Normalized dev.address) devs
    → All HasOneDigit devs
    → Ascending (by_key key) devs
    → (addresses : List Address) × IsListed devs addresses
Ascending-IsListed [] n h o = ([], (refl, tt, tt))
Ascending-IsListed (dev ∷ devs) n h o =
    let a = n.0.address in
    let (bs, (same, rs, below)) = Ascending-IsListed devs n.1 h.1 o.1 in
    (
      a ∷ bs,
      (
        cc (n.0.spells, same),
        (n.0.in_range, rs),
        (above-All dev a devs bs n.0.spells n.0.in_range h.0 same rs h.1 o.0, below),
      ),
    )
