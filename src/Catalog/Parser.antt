-- ===== src/Catalog/Parser.antt =====
-- src/catalog/records.rs: the text of one record.
use pcilibs_rs.Prelude.{
  ℕ, suc, ◌+◌, ◌^◌, Bool, false, ◌&&◌, ◌||◌, not, Option, none, some, List, [], ◌∷◌, ◌==◌, leb,
  if◌then◌else◌, Result, ok, err, ◌>>=◌, ◌>>◌, ensure, ok_or, length, all, is_empty,
}
use pcilibs_rs.Text.{Bytes, codes, equal, strip_prefix, lines, trim_ascii, split_ascii_whitespace}
use pcilibs_rs.Text.Hex.{digit, is_hexdigit, from_str_radix}
use pcilibs_rs.Catalog.Records.{
  DeviceKind, gpu, nic, switch, bridge, other, Attachment, pcie, sxm, coherent, unknown, Entry,
}

-- The messages of the errors, one constructor for each text of the source.
pub data Message : Type 0 where
  missing_identity four_digits invalid_identity : Message
  invalid_kind missing_profile invalid_profile invalid_attachment extra_fields : Message
  byte_limit entry_limit unsorted overlapping conflicts_with_builtin : Message

abbrev pub u16_bound : ℕ
u16_bound = 2 ^ 16

-- `value.strip_prefix("0x").unwrap_or(value)`
unfoldable pub without_prefix : Bytes → Bytes
unfolding strip_prefix
without_prefix s = elim (strip_prefix (codes "0x") s) [ none ↦ s | some rest ↦ rest ]

unfoldable pub hex_id : Option Bytes → Result Message ℕ
unfolding without_prefix is_hexdigit from_str_radix digit
hex_id field = do
  value ← ok_or field missing_identity
  let digits = without_prefix value
  ensure (length digits == 4 && all is_hexdigit digits) four_digits
  ok_or (from_str_radix u16_bound digits) invalid_identity

unfoldable pub subsystem_id : Option Bytes → Result Message (Option ℕ)
unfolding hex_id equal
subsystem_id none = do v ← hex_id none; ok (some v)
subsystem_id (some s) =
    if equal s (codes "*") then ok none else (do v ← hex_id (some s); ok (some v))

unfoldable pub device_kind : Option Bytes → Result Message DeviceKind
unfolding equal
device_kind none = err invalid_kind
device_kind (some s) =
    if equal s (codes "gpu")
    then ok gpu
    else if equal s (codes "nic")
    then ok nic
    else if equal s (codes "switch")
    then ok switch
    else if equal s (codes "bridge")
    then ok bridge
    else if equal s (codes "other")
    then ok other
    else err invalid_kind

-- `b.is_ascii_alphanumeric() || b"._-".contains(&b)`
unfoldable pub is_profile_byte : ℕ → Bool
is_profile_byte c =
    leb b'0' c && leb c b'9'
    || leb b'A' c && leb c b'Z'
    || leb b'a' c && leb c b'z'
    || c == b'.'
    || c == b'_'
    || c == b'-'

unfoldable pub profile_name : Option Bytes → Result Message Bytes
unfolding is_profile_byte
profile_name field = do
  s ← ok_or field missing_profile
  ensure (leb (length s) 64 && all is_profile_byte s) invalid_profile
  ok s

unfoldable pub attachment_name : Option Bytes → Result Message Attachment
unfolding equal
attachment_name none = err invalid_attachment
attachment_name (some s) =
    if equal s (codes "pcie")
    then ok pcie
    else if equal s (codes "sxm")
    then ok sxm
    else if equal s (codes "coherent")
    then ok coherent
    else if equal s (codes "unknown")
    then ok unknown
    else err invalid_attachment

-- `fields.next()`: the field, and the fields behind it.
abbrev pub next : List Bytes → Option Bytes × List Bytes
next [] = (none, [])
next (f ∷ fs) = (some f, fs)

unfoldable pub parse_fields : List Bytes → Result Message Entry
unfolding hex_id subsystem_id device_kind profile_name attachment_name
parse_fields f0 = do
  let (v, f1) = next f0
  vendor ← hex_id v
  let (d, f2) = next f1
  device ← hex_id d
  let (sv, f3) = next f2
  subsystem_vendor ← subsystem_id sv
  let (sd, f4) = next f3
  subsystem_device ← subsystem_id sd
  let (k, f5) = next f4
  kind ← device_kind k
  let (p, f6) = next f5
  profile ← profile_name p
  let (a, f7) = next f6
  attachment ← attachment_name a
  ensure (is_empty f7) extra_fields
  ok (record {
    vendor = vendor;
    device = device;
    subsystem_vendor = subsystem_vendor;
    subsystem_device = subsystem_device;
    properties = record { kind = kind; profile = profile; attachment = attachment };
  })

unfoldable pub parse_entry : Bytes → Result Message Entry
unfolding parse_fields split_ascii_whitespace
parse_entry text = parse_fields (split_ascii_whitespace text)

-- `!text.is_empty() && !text.starts_with('#')`
unfoldable pub is_record : Bytes → Bool
is_record [] = false
is_record (c ∷ s) = not (c == b'#')

unfoldable pub numbered : ℕ → List Bytes → List (ℕ × Bytes)
unfolding trim_ascii is_record
numbered line [] = []
numbered line (text ∷ rest) =
    let trimmed = trim_ascii text in
    let others = numbered (suc line) rest in
    if is_record trimmed then (line + 1, trimmed) ∷ others else others

-- The records of a text, trimmed, with their line numbers from 1.
unfoldable pub record_lines : Bytes → List (ℕ × Bytes)
unfolding numbered lines
record_lines text = numbered 0 (lines text)
