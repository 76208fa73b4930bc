-- ===== src/Catalog/Coherence.antt =====
-- `may_be_coherent`, the query without subsystem identity, is conservative.
use pcilibs_rs.Prelude.{
  ℕ, Bool, true, ◌||◌, some, List, [], ◌∷◌, ◌++◌, ◌≡◌, refl, ◌∙◌, ap, arith, ok, any, In, here,
  there,
}
use pcilibs_rs.Text.{Bytes}
use pcilibs_rs.Catalog.Records.{Properties, PciIdentity, Entry, matches, coherent}
use pcilibs_rs.Catalog.Validate.{validate}
use pcilibs_rs.Catalog.Parsed.{Parses, nil, cons}
use pcilibs_rs.Catalog.Lookup.{find, find-eq-some}
use pcilibs_rs.Catalog.Extension.{Accepted, parse-Accepted}
use pcilibs_rs.Catalog.Queries.{lookup-Accepted}
use pcilibs_rs.Catalog.Snapshot.{
  Catalog, any_coherent, is_coherent_for, builtin, parse, lookup, may_be_coherent,
}

any_coherent-eq-any :
    {ls : List (ℕ × Bytes)} {es : List Entry} (v d : ℕ)
    → Parses ls es
    → any_coherent ls v d ≡ ok (any (is_coherent_for v d) es)
unfolding any_coherent
any_coherent-eq-any v d nil = refl
any_coherent-eq-any v d (cons {entry} p q) = rw p (ground (arith, any_coherent-eq-any v d q))

any-append {ℓ} :
    {A : Type ℓ} (t : A → Bool) (xs ys : List A) → any t (xs ++ ys) ≡ (any t xs || any t ys)
any-append t [] ys = refl
any-append t (x ∷ xs) ys = ground (arith, any-append t xs ys)

any-In {ℓ} :
    {A : Type ℓ} (t : A → Bool) {a : A} {xs : List A} → In a xs → t a ≡ true → any t xs ≡ true
any-In t (here e) h = let k = rw e at h in ground arith
any-In t (there m) h = ground (arith, any-In t m h)

-- The query is a search through the extension's records and the built-in ones.
may_be_coherent-Accepted :
    (builtin_text : Bytes) {c : Catalog} (a : Accepted builtin_text c) (v d : ℕ)
    → may_be_coherent builtin_text c v d ≡ ok (any (is_coherent_for v d) (a.own ++ a.known))
unfolding may_be_coherent builtin
may_be_coherent-Accepted builtin_text a v d = ground (
  arith,
  any_coherent-eq-any v d a.parses,
  any_coherent-eq-any v d a.known_parses,
  any-append (is_coherent_for v d) a.own a.known,
  a.is_extension,
)

coherent_match :
    (e : Entry) (i : PciIdentity)
    → matches e i ≡ true
    → e.properties.attachment ≡ coherent
    → is_coherent_for i.vendor i.device e ≡ true
unfolding matches is_coherent_for
coherent_match e i m h = rw h (ground arith)

-- With a bundled text that `validate` accepts: where `lookup` in an accepted extension answers
-- that a device is coherent, `may_be_coherent` is true of its vendor and device IDs.
pub may_be_coherent-lookup :
    (builtin_text text : Bytes) (i : PciIdentity) {c : Catalog} {p : Properties}
    → validate builtin_text ≡ ok tt
    → parse builtin_text text ≡ ok c
    → lookup builtin_text c i ≡ ok (some p)
    → p.attachment ≡ coherent
    → may_be_coherent builtin_text c i.vendor i.device ≡ ok true
may_be_coherent-lookup builtin_text text i {c} {p} bundled h k q =
    let a = parse-Accepted builtin_text bundled text h in
    let found : find (a.own ++ a.known) i ≡ some p = cc (lookup-Accepted builtin_text a i) in
    let (e, e_in, m, same) = find-eq-some i (a.own ++ a.known) found in
    may_be_coherent-Accepted builtin_text a i.vendor i.device
    ∙ ap ok (any-In _ e_in (coherent_match e i m (ap (λ (x : Properties). x.attachment) same ∙ q)))
