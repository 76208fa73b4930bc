-- ===== src/Catalog/Rounds.antt =====
-- The rounds of `validate`: what they establish of a text, and that none panics.
use pcilibs_rs.Prelude.{
  ℕ, suc, ◌+◌, ◌<◌, ◌≤◌, true, false, Option, none, some, List, [], ◌∷◌, ◌++◌, ◌≡◌, ◌≢◌, refl, sym,
  arith, if◌then◌else◌, Result, ok, err, ◌>>◌, Result-cases, length, length-append, any, All,
  Bool-cases, inl, inr, leb,
}
use mathlib.Core.List.{append_assoc, append-nil}
use pcilibs_rs.Text.{Bytes}
use pcilibs_rs.Catalog.Records.{Entry, Key, key, key_leb, overlaps}
use pcilibs_rs.Catalog.Parser.{parse_entry, record_lines, unsorted, entry_limit, overlapping}
use pcilibs_rs.Catalog.Validate.{
  Fault, panicked, fail, is_after, max_entries, validate_from, validate,
}
use pcilibs_rs.Catalog.Parsed.{
  Parses, nil, cons, Parses-concat, IsOrdered, Precedes, IsOrdered-concat, UpTo, UpTo-is_after,
  UpTo-concat, take-append, no_overlap-eq-any, any-overlaps-false,
}

-- The key of the last record, which the loop keeps in `previous`.
abbrev pub last_from : Option Key → List Entry → Option Key
last_from p [] = p
last_from p (e ∷ es) = last_from (some (key e)) es

last_from-concat :
    (p : Option Key) (es : List Entry) (e : Entry) → last_from p (es ++ e ∷ []) ≡ some (key e)
last_from-concat p [] e = refl
last_from-concat p (x ∷ es) e = last_from-concat (some (key x)) es e

pub is_after-last_from :
    (p : Option Key) (es : List Entry) (f : Entry)
    → is_after p (key f) ≡ true
    → All (λ e. Precedes e f) es
    → is_after (last_from p es) (key f) ≡ true
unfolding key_leb
is_after-last_from p [] f h a = h
is_after-last_from p (e ∷ es) f h a = is_after-last_from (some (key e)) es f (ground arith) a.1

-- The outer loop is at `rest`, the records `before` are checked and hold the entries `es`.
pub record Checkpoint (before : List (ℕ × Bytes)) (es : List Entry) (previous : Option Key)
    : Type 0 where
  pub parses : Parses before es
  pub ordered : IsOrdered es
  pub up_to : UpTo previous es
  pub is_last : previous ≡ last_from none es

abbrev pub resume : List (ℕ × Bytes) → Option Key → List (ℕ × Bytes) → Result Fault (Unit {0})
resume before previous rest = validate_from (before ++ rest) (length before) previous rest

resume-shift :
    (before : List (ℕ × Bytes)) (l : ℕ × Bytes) (rest : List (ℕ × Bytes)) (k : Option Key)
    → validate_from (before ++ l ∷ rest) (suc (length before)) k rest
      ≡ resume (before ++ l ∷ []) k rest
resume-shift before l rest k =
    let e : suc (length before) ≡ length (before ++ l ∷ []) =
      omega (arith, length-append before (l ∷ [])) in
    rw (e, append_assoc before (l ∷ []) rest)

-- One round on a record that parses.
pub resume-cons :
    {before : List (ℕ × Bytes)} {es : List Entry} {previous : Option Key} (line : ℕ) (text : Bytes)
    (rest : List (ℕ × Bytes)) (e : Entry)
    → Checkpoint before es previous
    → parse_entry text ≡ ok e
    → resume before previous ((line, text) ∷ rest) ≡ (
        if leb max_entries (length before)
        then fail line entry_limit
        else if is_after previous (key e)
        then ((if any (overlaps e) es then fail line overlapping else ok tt)
            >> resume (before ++ (line, text) ∷ []) (some (key e)) rest)
        else fail line unsorted)
unfolding validate_from
resume-cons {before} {es} {previous} line text rest e c p =
    rw (p, take-append before ((line, text) ∷ rest), no_overlap-eq-any line e c.parses)
      (rw (← resume-shift before (line, text) rest (some (key e))) (ground arith))

pub advance :
    {before : List (ℕ × Bytes)} {es : List Entry} {previous : Option Key} (line : ℕ) (text : Bytes)
    (e : Entry)
    → Checkpoint before es previous
    → parse_entry text ≡ ok e
    → is_after previous (key e) ≡ true
    → any (overlaps e) es ≡ false
    → Checkpoint (before ++ (line, text) ∷ []) (es ++ e ∷ []) (some (key e))
advance {before} {es} {previous} line text e c p a o =
    let behind = UpTo-is_after previous e es c.up_to a (any-overlaps-false e es o) in
    record {
      parses = Parses-concat line text c.parses p;
      ordered = IsOrdered-concat es e c.ordered behind;
      up_to = UpTo-concat e es behind;
      is_last = sym (last_from-concat none es e);
    }

-- The tests that a round passed, and the round behind it.
record Passes (before : List (ℕ × Bytes)) (es : List Entry) (previous : Option Key) (line : ℕ)
    (text : Bytes) (rest : List (ℕ × Bytes)) (e : Entry) : Type 0 where
  small : length before < max_entries
  after : is_after previous (key e) ≡ true
  disjoint : any (overlaps e) es ≡ false
  later : resume (before ++ (line, text) ∷ []) (some (key e)) rest ≡ ok tt

resume-Passes :
    {before : List (ℕ × Bytes)} {es : List Entry} {previous : Option Key} (line : ℕ) (text : Bytes)
    (rest : List (ℕ × Bytes)) (e : Entry)
    → Checkpoint before es previous
    → parse_entry text ≡ ok e
    → resume before previous ((line, text) ∷ rest) ≡ ok tt
    → Passes before es previous line text rest e
resume-Passes {before} {es} {previous} line text rest e c p h =
    let k = rw (resume-cons line text rest e c p) at h in
    record {
      small = ground arith;
      after = ground arith;
      disjoint = ground arith;
      later = ground arith;
    }

resume_parses :
    (before : List (ℕ × Bytes)) (previous : Option Key) (line : ℕ) (text : Bytes)
    (rest : List (ℕ × Bytes))
    → resume before previous ((line, text) ∷ rest) ≡ ok tt
    → (e : Entry) × (parse_entry text ≡ ok e)
unfolding validate_from
resume_parses before previous line text rest h = elim (Result-cases (parse_entry text)) [
  | inl found ↦ found
  | inr (m, p) ↦ absurd (ground arith)
]

-- What a text that the loop accepts holds.
pub record Holds (es : List Entry) (count : ℕ) (rest : List (ℕ × Bytes)) : Type 0 where
  pub entries : List Entry
  pub parses : Parses rest entries
  pub ordered : IsOrdered (es ++ entries)
  pub few : count ≤ max_entries → count + length rest ≤ max_entries

resume-Holds :
    (rest : List (ℕ × Bytes)) {before : List (ℕ × Bytes)} {es : List Entry} {previous : Option Key}
    → Checkpoint before es previous
    → resume before previous rest ≡ ok tt
    → Holds es (length before) rest
resume-Holds [] {before} {es} c h = record {
  entries = [];
  parses = nil;
  ordered = rw append-nil c.ordered;
  few = λ n. omega arith;
}
resume-Holds ((line, text) ∷ rest) {before} {es} {previous} c h =
    let (e, p) = resume_parses before previous line text rest h in
    let q = resume-Passes line text rest e c p h in
    let r = resume-Holds rest (advance line text e c p q.after q.disjoint) q.later in
    record {
      entries = e ∷ r.entries;
      parses = cons p r.parses;
      ordered = rw append_assoc at r.ordered;
      few = λ n. omega (arith, length-append before ((line, text) ∷ []), q.small, r.few);
    }

resume-ne-panicked :
    (rest : List (ℕ × Bytes)) {before : List (ℕ × Bytes)} {es : List Entry} {previous : Option Key}
    → Checkpoint before es previous
    → resume before previous rest ≢ err panicked
unfolding validate_from
resume-ne-panicked [] c h = cc
resume-ne-panicked ((line, text) ∷ rest) {before} {es} {previous} c h =
    elim (Result-cases (parse_entry text)) [
      | inl (e, p) ↦
          let k = rw (resume-cons line text rest e c p) at h in
          elim (Bool-cases (is_after previous (key e))) [
            | inl a ↦ elim (Bool-cases (any (overlaps e) es)) [
              | inl o ↦ ground arith
              | inr o ↦ ground (arith, resume-ne-panicked rest (advance line text e c p a o))
            ]
            | inr a ↦ ground arith
          ]
      | inr (m, p) ↦ ground arith
    ]

abbrev pub start : Checkpoint [] [] none
start = record { parses = nil; ordered = tt; up_to = refl; is_last = refl }

-- `validate` never panics.
pub validate-ne-panicked : (text : Bytes) → validate text ≢ err panicked
unfolding validate
validate-ne-panicked text h = ground (arith, resume-ne-panicked (record_lines text) start)

pub validate-Holds : (text : Bytes) → validate text ≡ ok tt → Holds [] 0 (record_lines text)
unfolding validate
validate-Holds text h = resume-Holds (record_lines text) start (ground arith)
