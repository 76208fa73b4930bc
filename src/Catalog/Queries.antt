-- ===== src/Catalog/Queries.antt =====
-- The queries of a catalog: what `lookup` and `may_be_coherent` answer, and that they never panic.
use pcilibs_rs.Prelude.{
  ℕ, true, none, some, List, [], ◌∷◌, ◌++◌, ◌≡◌, ◌≢◌, refl, ap, ◌∙◌, arith, ok, err, Result-cases,
  Bool-cases, In, inl, inr, Option-cases,
}
use pcilibs_rs.Text.{Bytes}
use pcilibs_rs.Catalog.Records.{Properties, PciIdentity, Entry, matches}
use pcilibs_rs.Catalog.Parser.{record_lines}
use pcilibs_rs.Catalog.Validate.{panicked, validate}
use pcilibs_rs.Catalog.Parsed.{Parses, nil, cons}
use pcilibs_rs.Catalog.Lookup.{find, find-In, lookup_lines-eq-find}
use pcilibs_rs.Catalog.Rounds.{validate-Holds, validate-ne-panicked}
use pcilibs_rs.Catalog.Extension.{Accepted, parse-Accepted, find-agree, no_conflicts-ne-panicked}
use pcilibs_rs.Catalog.Snapshot.{Catalog, builtin, parse, lookup}

pub Parses-unique :
    {ls : List (ℕ × Bytes)} {es fs : List Entry} → Parses ls es → Parses ls fs → es ≡ fs
Parses-unique nil nil = refl
Parses-unique (cons p q) (cons p' q') = ground (arith, p, p', Parses-unique q q')

find-append :
    (es fs : List Entry) (i : PciIdentity) {p : Properties}
    → find es i ≡ some p
    → find (es ++ fs) i ≡ some p
find-append [] fs i h = cc
find-append (e ∷ es) fs i h = elim (Bool-cases (matches e i)) [
  | inl m ↦ ground arith
  | inr m ↦ rw m (find-append es fs i (rw m at h))
]

find-append_none :
    (es fs : List Entry) (i : PciIdentity) → find es i ≡ none → find (es ++ fs) i ≡ find fs i
find-append_none [] fs i h = refl
find-append_none (e ∷ es) fs i h = elim (Bool-cases (matches e i)) [
  | inl m ↦ ground arith
  | inr m ↦ ground (arith, find-append_none es fs i)
]

-- An accepted extension answers as a search through its own records and then the built-in ones.
pub lookup-Accepted :
    (builtin_text : Bytes) {c : Catalog} (a : Accepted builtin_text c) (i : PciIdentity)
    → lookup builtin_text c i ≡ ok (find (a.own ++ a.known) i)
unfolding lookup builtin
lookup-Accepted builtin_text a i = elim (Option-cases (find a.own i)) [
  | inl e ↦ ground (
    arith,
    lookup_lines-eq-find i a.parses a.ordered,
    lookup_lines-eq-find i a.known_parses a.known_ordered,
    find-append_none a.own a.known i,
    a.is_extension,
  )
  | inr (p, e) ↦
      ground (arith, lookup_lines-eq-find i a.parses a.ordered, find-append a.own a.known i e)
]

-- In a text that `validate` accepts, the lookup of an identity that a record matches answers
-- with that record's properties, whichever record it is.
pub lookup-listed :
    (builtin_text : Bytes) (c : Catalog) (i : PciIdentity) (e : Entry) {es : List Entry}
    → validate c.text ≡ ok tt
    → Parses (record_lines c.text) es
    → In e es
    → matches e i ≡ true
    → lookup builtin_text c i ≡ ok (some e.properties)
unfolding lookup
lookup-listed builtin_text c i e {es} valid p at_e m =
    let h = validate-Holds c.text valid in
    let o = rw (Parses-unique h.parses p) at h.ordered in
    ground (arith, lookup_lines-eq-find i p o, find-In e i es o at_e m)

-- With a bundled text that `validate` accepts, an accepted extension does not change the answer
-- for any identity that the built-in catalog knows.
pub lookup-parse_keeps :
    (builtin_text text : Bytes) (i : PciIdentity) {c : Catalog} {p : Properties}
    → validate builtin_text ≡ ok tt
    → parse builtin_text text ≡ ok c
    → lookup builtin_text (builtin builtin_text) i ≡ ok (some p)
    → lookup builtin_text c i ≡ ok (some p)
lookup-parse_keeps builtin_text text i {c} {p} bundled h k =
    let a = parse-Accepted builtin_text bundled text h in
    let known : find a.known i ≡ some p =
      unfold lookup builtin in
      ground (arith, lookup_lines-eq-find i a.known_parses a.known_ordered) in
    elim (find-agree a.own a.known i a.agrees known) [
      | inl miss ↦
          lookup-Accepted builtin_text a i ∙ ap ok (find-append_none a.own a.known i miss ∙ known)
      | inr hit ↦ lookup-Accepted builtin_text a i ∙ ap ok (find-append a.own a.known i hit)
    ]

-- With a bundled text that `validate` accepts, `Catalog::parse` never panics.
pub parse-ne-panicked :
    (builtin_text text : Bytes)
    → validate builtin_text ≡ ok tt
    → parse builtin_text text ≢ err panicked
unfolding parse builtin
parse-ne-panicked builtin_text text bundled h = elim (Result-cases (validate text)) [
  | inl (_, valid) ↦
      let own = validate-Holds text valid in
      let known = validate-Holds builtin_text bundled in
      ground (arith, no_conflicts-ne-panicked known.parses own.parses)
  | inr (e, bad) ↦ ground (arith, validate-ne-panicked text)
]
