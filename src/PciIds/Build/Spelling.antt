-- ===== src/PciIds/Build/Spelling.antt =====
-- How `pci.ids` spells its lines, and that the build takes each for what it is.
use pcilibs_rs.Prelude.{
  ℕ, ◌<◌, true, false, ◌==◌, Option, none, some, List, [], ◌∷◌, ◌++◌, ◌≡◌, refl, arith,
  Option-cases, inl, inr,
}
use pcilibs_rs.Text.{Bytes}
use pcilibs_rs.Text.Hex.{digit, is_hexdigit, padded}
use pcilibs_rs.Text.Hex.RoundTrip.{LowerHex, padded-LowerHex, length-padded}
use pcilibs_rs.PciIds.{◌>>=◌}
use pcilibs_rs.PciIds.Build.{
  Line, vendor_line, device_line, subsystems_line, class_line, subclass_line, prog_if_line,
  Generated, is_skipped, parse_line, add_line, read_lines,
}
use pcilibs_rs.PciIds.Build.Parser
use pcilibs_rs.PciIds.Build.Packages.{Nom, IsNom}
use pcilibs_rs.PciIds.Build.Kinds.{
  gap, vendor-padded, vendor-other, vendor-short, device-padded, device-other, device-short,
  subsystems-padded, subsystems-other, subsystems-one, subsystems-short, class-padded, class-other,
  subclass-padded, subclass-tab, prog_if-padded,
}

abbrev pub spell : Line → Bytes
spell (vendor_line name id) = padded 4 id ++ gap name
spell (device_line name id) = 9 ∷ (padded 4 id ++ gap name)
spell (subsystems_line name subvendor subdevice) =
    9 ∷ 9 ∷ (padded 4 subvendor ++ 32 ∷ (padded 4 subdevice ++ gap name))
spell (class_line name id) = b'C' ∷ 32 ∷ (padded 2 id ++ gap name)
spell (subclass_line name id) = 9 ∷ (padded 2 id ++ gap name)
spell (prog_if_line name id) = 9 ∷ 9 ∷ (padded 2 id ++ gap name)

-- The IDs fit their types.
abbrev pub IsInRange : Line → Type 0
IsInRange (vendor_line name id) = id < 65536
IsInRange (device_line name id) = id < 65536
IsInRange (subsystems_line name subvendor subdevice) = (subvendor < 65536) × (subdevice < 65536)
IsInRange (class_line name id) = id < 256
IsInRange (subclass_line name id) = id < 256
IsInRange (prog_if_line name id) = id < 256

-- The lines of a file, which may have comments and empty lines among them.
pub data Spells : List (Option Bytes) → List Line → Type 0 where
  done : Spells [] []
  comment :
      {line : Bytes} {text : List (Option Bytes)} {ls : List Line}
      → is_skipped line ≡ true
      → Spells text ls
      → Spells (some line ∷ text) ls
  spelled :
      {l : Line} {text : List (Option Bytes)} {ls : List Line}
      → IsInRange l
      → Spells text ls
      → Spells (some (spell l) ∷ text) (l ∷ ls)

hex-ne-tab : (c : ℕ) → LowerHex c → (9 == c) ≡ false
hex-ne-tab c h = ground arith

hex-ne-hash : (c : ℕ) → LowerHex c → (c == b'#') ≡ false
hex-ne-hash c h = ground arith

is_skipped-spell : (l : Line) → is_skipped (spell l) ≡ false
unfolding padded
is_skipped-spell (vendor_line name id) = hex-ne-hash _ ((padded-LowerHex 4 id).0)
is_skipped-spell (device_line name id) = refl
is_skipped-spell (subsystems_line name subvendor subdevice) = refl
is_skipped-spell (class_line name id) = refl
is_skipped-spell (subclass_line name id) = refl
is_skipped-spell (prog_if_line name id) = refl

space : is_hexdigit 32 ≡ false
unfolding is_hexdigit digit
space = refl

tab : is_hexdigit 9 ≡ false
unfolding is_hexdigit digit
tab = refl

abbrev pub add_all : List Line → Generated → Option Generated
add_all [] g = some g
add_all (l ∷ ls) g = add_line l g >>= λ g'. add_all ls g'

module _ (nom : Nom) (law : IsNom nom) where
  -- Two digits are too few for the ID of a device.
  device-two : (id : ℕ) (name : Bytes) → Parser.device nom (9 ∷ (padded 2 id ++ gap name)) ≡ none
  device-two id name =
      device-short nom law (padded 2 id) (32 ∷ name) 32 (omega (arith, length-padded 2 id)) space

  subsystems-two :
      (id : ℕ) (name : Bytes) → Parser.subsystems nom (9 ∷ 9 ∷ (padded 2 id ++ gap name)) ≡ none
  subsystems-two id name =
      subsystems-short nom law (padded 2 id) (32 ∷ name) 32 (omega (arith, length-padded 2 id))
        space

  subsystems-digit :
      (id : ℕ) (name : Bytes) → Parser.subsystems nom (9 ∷ (padded 2 id ++ gap name)) ≡ none
  unfolding padded
  subsystems-digit id name = subsystems-one nom law _ _ (hex-ne-tab _ ((padded-LowerHex 2 id).0))

  parse_line-spell : (l : Line) → IsInRange l → parse_line nom (spell l) ≡ some l
  unfolding parse_line
  parse_line-spell (vendor_line name id) h = rw (vendor-padded nom law id name h)
  parse_line-spell (device_line name id) h =
      rw (vendor-other nom law 9 _ tab, device-padded nom law id name h)
  parse_line-spell (subsystems_line name subvendor subdevice) h = rw (
    vendor-other nom law 9 _ tab,
    device-short nom law [] _ 9 (omega arith) tab,
    subsystems-padded nom law subvendor subdevice name h.0 h.1,
  )
  parse_line-spell (class_line name id) h = rw (
    vendor-short nom law (b'C' ∷ []) _ 32 (omega arith) space,
    device-other nom law b'C' _ refl,
    subsystems-other nom law b'C' _ refl,
    class-padded nom law id name h,
  )
  parse_line-spell (subclass_line name id) h = rw (
    vendor-other nom law 9 _ tab,
    device-two id name,
    subsystems-digit id name,
    class-other nom law 9 _ refl,
    subclass-padded nom law id name h,
  )
  parse_line-spell (prog_if_line name id) h = rw (
    vendor-other nom law 9 _ tab,
    device-short nom law [] _ 9 (omega arith) tab,
    subsystems-two id name,
    class-other nom law 9 _ refl,
    subclass-tab nom law _,
    prog_if-padded nom law id name h,
  )

  -- Lines as they are spelled are taken for what they are, and comments for nothing.
  pub read_lines-Spells :
      {text : List (Option Bytes)} {ls : List Line} (g : Generated)
      → Spells text ls
      → read_lines nom text g ≡ add_all ls g
  unfolding read_lines
  read_lines-Spells g done = refl
  read_lines-Spells g (comment skipped s) = rw skipped (read_lines-Spells g s)
  read_lines-Spells g (spelled {l} {ls = ls} h s) =
      rw (is_skipped-spell l, parse_line-spell l h)
        (elim (Option-cases (add_line l g)) [
          | inl e ↦ rw e refl
          | inr (g', e) ↦ rw e (read_lines-Spells g' s)
        ])
