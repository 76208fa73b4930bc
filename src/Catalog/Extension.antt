-- ===== src/Catalog/Extension.antt =====
-- An accepted extension agrees with the built-in records, and no query panics.
use pcilibs_rs.Prelude.{
  ℕ, Bool, true, false, not, ◌&&◌, none, some, List, [], ◌∷◌, ◌≡◌, ◌≢◌, refl, sym, ap, ◌∙◌, arith,
  if◌then◌else◌, ok, err, bind-eq-ok, Bool-cases, any, All, All-In, In, here, there, ◌⊎◌, inl, inr,
  Option-cases,
}
use pcilibs_rs.Text.{Bytes}
use pcilibs_rs.Catalog.Records.{Properties, PciIdentity, Entry, matches, overlaps, properties_eq}
use pcilibs_rs.Catalog.Identity.{overlaps_of_matches, properties_eq_iff}
use pcilibs_rs.Catalog.Parser.{record_lines, conflicts_with_builtin}
use pcilibs_rs.Catalog.Validate.{panicked, fail, validate}
use pcilibs_rs.Catalog.Parsed.{Parses, nil, cons, IsOrdered}
use pcilibs_rs.Catalog.Lookup.{find, find-eq-some}
use pcilibs_rs.Catalog.Rounds.{validate-Holds}
use pcilibs_rs.Catalog.Snapshot.{Catalog, no_conflict, no_conflicts, builtin, parse}

abbrev pub conflicts : Entry → Entry → Bool
conflicts e known = overlaps e known && not (properties_eq e.properties known.properties)

no_conflict-eq-any :
    {ls : List (ℕ × Bytes)} {known : List Entry} (line : ℕ) (e : Entry)
    → Parses ls known
    → no_conflict line e ls
      ≡ (if any (conflicts e) known then fail line conflicts_with_builtin else ok tt)
unfolding no_conflict
no_conflict-eq-any line e nil = refl
no_conflict-eq-any line e (cons {entry} p q) = rw p (ground (arith, no_conflict-eq-any line e q))

module _ {bs : List (ℕ × Bytes)} {known : List Entry} (kp : Parses bs known) where
  pub no_conflicts-ne-panicked :
      {ls : List (ℕ × Bytes)} {es : List Entry} → Parses ls es → no_conflicts bs ls ≢ err panicked
  unfolding no_conflicts
  no_conflicts-ne-panicked nil h = cc
  no_conflicts-ne-panicked (cons {line} {entry} p q) h =
      elim (Bool-cases (any (conflicts entry) known)) [
        | inl bad ↦ ground (arith, p, no_conflict-eq-any line entry kp, no_conflicts-ne-panicked q)
        | inr good ↦ ground (arith, p, no_conflict-eq-any line entry kp, no_conflicts-ne-panicked q)
      ]

  no_conflicts-All :
      {ls : List (ℕ × Bytes)} {es : List Entry}
      → Parses ls es
      → no_conflicts bs ls ≡ ok tt
      → All (λ e. any (conflicts e) known ≡ false) es
  unfolding no_conflicts
  no_conflicts-All nil h = tt
  no_conflicts-All (cons {line} {entry} p q) h = elim (Bool-cases (any (conflicts entry) known)) [
    | inl bad ↦ absurd (ground (arith, p, no_conflict-eq-any line entry kp))
    | inr good ↦ (good, no_conflicts-All q (ground (arith, p, no_conflict-eq-any line entry kp)))
  ]

-- Two records that match one identity and do not conflict have the same properties.
agree :
    (e : Entry) (known : List Entry) (b : Entry) (i : PciIdentity)
    → any (conflicts e) known ≡ false
    → In b known
    → matches e i ≡ true
    → matches b i ≡ true
    → e.properties ≡ b.properties
agree e [] b i h m p q = elim m [ ]
agree e (k ∷ known) b i h (here r) p q =
    (properties_eq_iff e.properties b.properties).0
      (rw r (ground (arith, overlaps_of_matches e k i p (rw r at q))))
agree e (k ∷ known) b i h (there m) p q = agree e known b i (ground arith) m p q

-- What `find` finds among the extension's records first.
pub find-agree :
    (es known : List Entry) (i : PciIdentity) {p : Properties}
    → All (λ e. any (conflicts e) known ≡ false) es
    → find known i ≡ some p
    → (find es i ≡ none) ⊎ (find es i ≡ some p)
find-agree es known i {p} h f = elim (Option-cases (find es i)) [
  | inl e ↦ inl e
  | inr (q, e) ↦
      let (x, x_in, x_matches, x_props) = find-eq-some i es e in
      let (b, b_in, b_matches, b_props) = find-eq-some i known f in
      let same = agree x known b i (All-In _ h x_in) b_in x_matches b_matches in
      inr (e ∙ ap some (sym x_props ∙ same ∙ b_props))
]

-- An accepted extension: its own records, and those of the built-in text.
pub record Accepted (builtin_text : Bytes) (c : Catalog) : Type 0 where
  pub own : List Entry
  pub known : List Entry
  pub parses : Parses (record_lines c.text) own
  pub ordered : IsOrdered own
  pub known_parses : Parses (record_lines builtin_text) known
  pub known_ordered : IsOrdered known
  pub is_extension : c.extension ≡ true
  pub agrees : All (λ e. any (conflicts e) known ≡ false) own

module _ (builtin_text : Bytes) (bundled : validate builtin_text ≡ ok tt) where
  pub parse-Accepted :
      (text : Bytes) {c : Catalog} → parse builtin_text text ≡ ok c → Accepted builtin_text c
  unfolding parse builtin
  parse-Accepted text {c} h =
      let (_, valid, h') = bind-eq-ok (validate text) _ h in
      let (_, free, made) =
        bind-eq-ok (no_conflicts (record_lines builtin_text) (record_lines text)) _ h' in
      let own = validate-Holds text valid in
      let known = validate-Holds builtin_text bundled in
      let made' : record { text = text; extension = true } ≡ c = cc in
      rw (← made') (record {
        own = own.entries;
        known = known.entries;
        parses = own.parses;
        ordered = own.ordered;
        known_parses = known.parses;
        known_ordered = known.ordered;
        is_extension = refl;
        agrees = no_conflicts-All known.parses own.parses free;
      })
