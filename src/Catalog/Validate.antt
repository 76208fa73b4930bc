-- ===== src/Catalog/Validate.antt =====
-- src/catalog/records.rs: `validate`, which checks a whole text before any record is used.
use pcilibs_rs.Prelude.{
  ℕ, suc, ◌*◌, Bool, true, Option, none, some, List, [], ◌∷◌, ltb, leb, not, if◌then◌else◌, Result,
  ok, err, ◌>>=◌, ◌>>◌, length, take,
}
use pcilibs_rs.Text.{Bytes}
use pcilibs_rs.Catalog.Records.{Entry, Key, key, key_leb, overlaps}
use pcilibs_rs.Catalog.Parser.{
  Message, byte_limit, entry_limit, unsorted, overlapping, parse_entry, record_lines,
}

abbrev pub max_bytes : ℕ
max_bytes = 64 * 1024

abbrev pub max_entries : ℕ
max_entries = 1024

-- `line` counts from 1; 0 is an error of the whole input.
pub record Error : Type 0 where
  pub line : ℕ
  pub message : Message

-- What stops the code: an error that it returns, or a failed `expect`.
pub data Fault : Type 0 where
  failed : Error → Fault
  panicked : Fault

abbrev pub Checked : Type 0 → Type 0
Checked A = Result Fault A

abbrev pub fail {ℓ} : {A : Type ℓ} → ℕ → Message → Result Fault A
fail line message = err (failed (record { line = line; message = message }))

-- `map_err(|message| fail(line, message))?`
abbrev pub at_line {ℓ} : {A : Type ℓ} → ℕ → Result Message A → Result Fault A
at_line line (ok a) = ok a
at_line line (err m) = fail line m

-- `expect`
abbrev pub expect {ℓ κ} : {E : Type ℓ} {A : Type κ} → Result E A → Result Fault A
expect (ok a) = ok a
expect (err e) = err panicked

abbrev pub is_after : Option Key → Key → Bool
is_after none k = true
is_after (some p) k = not (key_leb k p)

-- The inner loop, over the records before this one.
unfoldable pub no_overlap : ℕ → Entry → List (ℕ × Bytes) → Checked (Unit {0})
no_overlap line entry [] = ok tt
no_overlap line entry ((_, text) ∷ before) =
    let rest = no_overlap line entry before in
    expect (parse_entry text) >>= λ previous.
    if overlaps entry previous then fail line overlapping else rest

-- The outer loop: `count` records of `every` are behind it.
unfoldable pub validate_from :
    List (ℕ × Bytes) → ℕ → Option Key → List (ℕ × Bytes) → Checked (Unit {0})
unfolding no_overlap
validate_from every count previous [] = ok tt
validate_from every count previous ((line, text) ∷ rest) =
    let later = λ (k : Key). validate_from every (suc count) (some k) rest in
    do
      (if leb max_entries count then fail line entry_limit else ok tt)
      entry ← at_line line (parse_entry text)
      (if is_after previous (key entry) then ok tt else fail line unsorted)
      no_overlap line entry (take count every)
      later (key entry)

unfoldable pub validate : Bytes → Checked (Unit {0})
unfolding validate_from
validate text =
    if ltb max_bytes (length text)
    then fail 0 byte_limit
    else validate_from (record_lines text) 0 none (record_lines text)
