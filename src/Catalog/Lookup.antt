-- ===== src/Catalog/Lookup.antt =====
-- Lookup in a validated text: the early stop loses no record, and the answer is the one record
-- that matches.
use pcilibs_rs.Prelude.{
  ℕ, true, false, Option, none, some, List, [], ◌∷◌, ◌≡◌, refl, arith, if◌then◌else◌, ok,
  Bool-cases, All, All-In, In, here, there, inl, inr,
}
use pcilibs_rs.Text.{Bytes}
use pcilibs_rs.Catalog.Records.{Properties, PciIdentity, Entry, key_ltb, matches}
use pcilibs_rs.Catalog.Identity.{overlaps_of_matches}
use pcilibs_rs.Catalog.Parsed.{Parses, nil, cons, IsOrdered, Precedes}
use pcilibs_rs.Catalog.Snapshot.{is_past, lookup_lines}

-- The first record that matches, with no early stop.
abbrev pub find : List Entry → PciIdentity → Option Properties
find [] i = none
find (e ∷ es) i = if matches e i then some e.properties else find es i

-- Behind a record that is past an identity none matches it.
find_past :
    (e : Entry) (i : PciIdentity) (es : List Entry)
    → is_past e i ≡ true
    → All (Precedes e) es
    → find es i ≡ none
unfolding is_past key_ltb matches
find_past e i [] p h = refl
find_past e i (f ∷ fs) p h = ground (arith, find_past e i fs p h.1)

past_matches : (e : Entry) (i : PciIdentity) → is_past e i ≡ true → matches e i ≡ false
unfolding is_past matches
past_matches e i p = ground arith

-- The loop of the code is a plain search.
pub lookup_lines-eq-find :
    {ls : List (ℕ × Bytes)} {es : List Entry} (i : PciIdentity)
    → Parses ls es
    → IsOrdered es
    → lookup_lines ls i ≡ ok (find es i)
unfolding lookup_lines
lookup_lines-eq-find i nil o = refl
lookup_lines-eq-find i (cons {entry} {entries} p q) o = rw p (elim (Bool-cases (is_past entry i)) [
  | inl past ↦ ground (arith, find_past entry i entries past o.0, past_matches entry i past)
  | inr not_past ↦ ground (arith, lookup_lines-eq-find i q o.1)
])

-- Among ordered records at most one matches.
pub find-In :
    (e : Entry) (i : PciIdentity) (es : List Entry)
    → IsOrdered es
    → In e es
    → matches e i ≡ true
    → find es i ≡ some e.properties
find-In e i [] o h m = elim h [ ]
find-In e i (f ∷ fs) o (here h) m = rw (← h) (ground arith)
find-In e i (f ∷ fs) o (there h) m = elim (Bool-cases (matches f i)) [
  | inl other ↦
      let apart = (All-In (Precedes f) o.0 h).1 in
      absurd (ground (arith, overlaps_of_matches e f i m other))
  | inr skip ↦ rw skip (find-In e i fs o.1 h m)
]

-- What is found was listed, and matches.
pub find-eq-some :
    (i : PciIdentity) (es : List Entry) {p : Properties}
    → find es i ≡ some p
    → (e : Entry) × In e es × (matches e i ≡ true) × (e.properties ≡ p)
find-eq-some i [] h = absurd (ground arith)
find-eq-some i (e ∷ es) h = elim (Bool-cases (matches e i)) [
  | inl m ↦ (e, here refl, m, ground arith)
  | inr m ↦ let r = find-eq-some i es (ground arith) in (r.0, there r.1, r.2, r.3)
]
