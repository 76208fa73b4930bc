-- ===== src/Catalog/Input/Merge.antt =====
-- Merging texts that were validated does not panic, and merges what they say.
use pcilibs_rs.Prelude.{
  ℕ, Bool, true, false, ◌&&◌, List, [], ◌∷◌, ◌++◌, All, length, leb, if◌then◌else◌, ◌≡◌, ◌≢◌, inl,
  inr, refl, Bool-cases, Result, ok, err, ◌>>=◌, ◌>>◌,
}
use pcilibs_rs.Text.{Bytes}
use pcilibs_rs.Sort.{sort_by}
use pcilibs_rs.Files.{IoError, panicked}
use pcilibs_rs.Catalog.Records.{Entry, key, key_eq, properties_eq, overlaps}
use pcilibs_rs.Catalog.Parser.{record_lines}
use pcilibs_rs.Catalog.Validate.{Fault, failed, max_entries, validate}
use pcilibs_rs.Catalog.Parsed.{Parses, nil, cons}
use pcilibs_rs.Catalog.Rounds.{validate-Holds, validate-ne-panicked}
use pcilibs_rs.Catalog.Input.{
  Sourced, invalid_text, gather, gather_all, duplicate, merge_sorted, by_identity, accepted_text,
  merge,
}

bind-ne-panicked :
    {A B : Type 0} (r : Result IoError A) (f : A → Result IoError B)
    → r ≢ err panicked
    → ((a : A) → f a ≢ err panicked)
    → (r >>= f) ≢ err panicked
bind-ne-panicked (ok a) f h k = k a
bind-ne-panicked (err e) f h k = λ p. h (cc p)

gather-ne-panicked :
    (lines : List (ℕ × Bytes)) (entries : List Sourced) {es : List Entry}
    → Parses lines es
    → gather lines entries ≢ err panicked
unfolding gather
gather-ne-panicked [] entries nil = λ e. cc e
gather-ne-panicked ((line, text) ∷ lines) entries (cons {entry} e p) =
    let later =
      gather-ne-panicked lines (entries ++ record { entry = entry; text = text } ∷ []) p in
    elim (Bool-cases (leb max_entries (length entries))) [
      | inl full ↦ rw full (λ q. cc q)
      | inr room ↦ rw (room, e) later
    ]

duplicate-ne-panicked : (e : Entry) (accepted : List Entry) → duplicate e accepted ≢ err panicked
unfolding duplicate
duplicate-ne-panicked e [] = λ p. cc p
duplicate-ne-panicked e (prev ∷ accepted) =
    elim (Bool-cases (key_eq (key e) (key prev) && properties_eq e.properties prev.properties)) [
      | inl h ↦ rw h (λ p. cc p)
      | inr h ↦ rw h (elim (Bool-cases (overlaps e prev)) [
        | inl o ↦ rw o (λ p. cc p)
        | inr o ↦ rw o (duplicate-ne-panicked e accepted)
      ])
    ]

if-ne-panicked :
    {A : Type 0} (b : Bool) (x y : Result IoError A)
    → x ≢ err panicked
    → y ≢ err panicked
    → (if b then x else y) ≢ err panicked
if-ne-panicked true x y h k = h
if-ne-panicked false x y h k = k

merge_sorted-ne-panicked :
    (sources : List Sourced) (accepted : List Entry) (merged : Bytes)
    → merge_sorted sources accepted merged ≢ err panicked
unfolding merge_sorted
merge_sorted-ne-panicked [] accepted merged = λ e. cc e
merge_sorted-ne-panicked (s ∷ rest) accepted merged =
    let skip = merge_sorted-ne-panicked rest accepted merged in
    let push =
      merge_sorted-ne-panicked rest (accepted ++ s.entry ∷ []) (merged ++ (s.text ++ 10 ∷ [])) in
    bind-ne-panicked (duplicate s.entry accepted) _ (duplicate-ne-panicked s.entry accepted)
      (λ again. if-ne-panicked again _ _ skip push)

gather_all-ne-panicked :
    (texts : List Bytes) (entries : List Sourced)
    → All (λ t. validate t ≡ ok tt) texts
    → gather_all texts entries ≢ err panicked
unfolding gather_all
gather_all-ne-panicked [] entries h = λ e. cc e
gather_all-ne-panicked (text ∷ texts) entries h =
    bind-ne-panicked (gather (record_lines text) entries) _
      (gather-ne-panicked (record_lines text) entries ((validate-Holds text h.0).parses))
      (λ more. gather_all-ne-panicked texts more h.1)

invalid_text-ne-panicked :
    (r : Result Fault (Unit {0})) (merged : Bytes)
    → r ≢ err Fault.panicked
    → (invalid_text r >> ok merged) ≢ err panicked
invalid_text-ne-panicked (ok _) merged h = λ p. cc p
invalid_text-ne-panicked (err (failed e)) merged h = λ p. cc p
invalid_text-ne-panicked (err Fault.panicked) merged h = absurd (h refl)

accepted_text-ne-panicked : (merged : Bytes) → accepted_text merged ≢ err panicked
accepted_text-ne-panicked merged =
    invalid_text-ne-panicked (validate merged) merged (validate-ne-panicked merged)

-- Merging texts that `validate` accepts never panics: each of their records parses again.
pub merge-ne-panicked :
    (texts : List Bytes) → All (λ t. validate t ≡ ok tt) texts → merge texts ≢ err panicked
unfolding merge
merge-ne-panicked texts h =
    bind-ne-panicked (gather_all texts []) _ (gather_all-ne-panicked texts [] h) (λ entries.
      bind-ne-panicked (merge_sorted (sort_by by_identity entries) [] []) _
        (merge_sorted-ne-panicked (sort_by by_identity entries) [] []) accepted_text-ne-panicked)
