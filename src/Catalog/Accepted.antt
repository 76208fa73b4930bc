-- ===== src/Catalog/Accepted.antt =====
-- What `validate` decides.
use pcilibs_rs.Prelude.{
  ℕ, ◌+◌, ◌≤◌, true, false, Option, none, List, [], ◌∷◌, ◌++◌, ◌≡◌, ◌↔◌, refl, arith, ok, length,
  length-append, any, All, All-middle,
}
use mathlib.Core.List.{append_assoc}
use pcilibs_rs.Text.{Bytes}
use pcilibs_rs.Catalog.Records.{Entry, Key, key, overlaps}
use pcilibs_rs.Catalog.Parser.{record_lines}
use pcilibs_rs.Catalog.Validate.{is_after, max_entries, max_bytes, validate_from, validate}
use pcilibs_rs.Catalog.Parsed.{Parses, nil, cons, IsOrdered, Precedes}
use pcilibs_rs.Catalog.Rounds.{
  is_after-last_from, Checkpoint, resume, resume-cons, advance, start, validate-Holds,
}

IsOrdered-Precedes :
    (es : List Entry) (f : Entry) (gs : List Entry)
    → IsOrdered (es ++ f ∷ gs)
    → All (λ e. Precedes e f) es
IsOrdered-Precedes [] f gs o = tt
IsOrdered-Precedes (e ∷ es) f gs o =
    (All-middle (Precedes e) es f gs o.0, IsOrdered-Precedes es f gs o.1)

any-overlaps_of_Precedes :
    (es : List Entry) (f : Entry) → All (λ e. Precedes e f) es → any (overlaps f) es ≡ false
any-overlaps_of_Precedes [] f h = refl
any-overlaps_of_Precedes (e ∷ es) f h = ground (arith, any-overlaps_of_Precedes es f h.1)

Parses-resume :
    (rest : List (ℕ × Bytes)) {before : List (ℕ × Bytes)} {es : List Entry} {previous : Option Key}
    {fs : List Entry}
    → Checkpoint before es previous
    → Parses rest fs
    → IsOrdered (es ++ fs)
    → length before + length rest ≤ max_entries
    → resume before previous rest ≡ ok tt
unfolding validate_from
Parses-resume [] c nil o n = refl
Parses-resume ((line, text) ∷ rest) {before} {es} {previous} c (cons {entry} {entries} p q) o n =
    let behind = IsOrdered-Precedes es entry entries o in
    let a : is_after previous (key entry) ≡ true =
      rw c.is_last (is_after-last_from none es entry refl behind) in
    let d = any-overlaps_of_Precedes es entry behind in
    let later =
      Parses-resume rest (advance line text entry c p a d) q (rw append_assoc o)
        (omega (arith, length-append before ((line, text) ∷ []))) in
    rw (resume-cons line text rest entry c p) (ground arith)

-- A text that fits the limits, whose records parse, and whose records are ordered and free of
-- overlaps, is accepted.
validate_complete :
    (text : Bytes) {es : List Entry}
    → length text ≤ max_bytes
    → Parses (record_lines text) es
    → IsOrdered es
    → length (record_lines text) ≤ max_entries
    → validate text ≡ ok tt
unfolding validate
validate_complete text n p o m =
    ground (arith, Parses-resume (record_lines text) start p o (omega arith))

-- The condition that `validate` decides.
pub record IsValid (text : Bytes) : Type 0 where
  pub entries : List Entry
  pub parses : Parses (record_lines text) entries
  pub ordered : IsOrdered entries
  pub few : length (record_lines text) ≤ max_entries
  pub short : length text ≤ max_bytes

validate_sound : (text : Bytes) → validate text ≡ ok tt → IsValid text
unfolding validate
validate_sound text h =
    let r = validate-Holds text h in
    record {
      entries = r.entries;
      parses = r.parses;
      ordered = r.ordered;
      few = omega (arith, r.few);
      short = ground arith;
    }

-- `validate` accepts a text exactly when it has at most 65,536 bytes and 1,024 records, every
-- record parses, the keys grow from record to record, and no two records overlap.
pub validate_iff : (text : Bytes) → (validate text ≡ ok tt) ↔ IsValid text
validate_iff text =
    (validate_sound text, λ v. validate_complete text v.short v.parses v.ordered v.few)
