-- ===== src/Catalog/Parsed.antt =====
-- The records of a text as a list of entries, and what `validate` establishes of them.
use pcilibs_rs.Prelude.{
  ℕ, true, false, Option, none, some, List, [], ◌∷◌, ◌++◌, ◌≡◌, refl, ap, arith, if◌then◌else◌, ok,
  length, take, any, All, All-append,
}
use pcilibs_rs.Text.{Bytes}
use pcilibs_rs.Catalog.Records.{Entry, Key, key, key_leb, key_ltb, overlaps}
use pcilibs_rs.Catalog.Identity.{key_ltb_of_leb}
use pcilibs_rs.Catalog.Parser.{overlapping, parse_entry}
use pcilibs_rs.Catalog.Validate.{fail, is_after, no_overlap}

-- The entries that the lines hold, in order.
pub data Parses : List (ℕ × Bytes) → List Entry → Type 0 where
  nil : Parses [] []
  cons :
      {line : ℕ} {text : Bytes} {entry : Entry} {rest : List (ℕ × Bytes)} {entries : List Entry}
      → parse_entry text ≡ ok entry
      → Parses rest entries
      → Parses ((line, text) ∷ rest) (entry ∷ entries)

pub Parses-concat :
    {ls : List (ℕ × Bytes)} {es : List Entry} (line : ℕ) (text : Bytes) {e : Entry}
    → Parses ls es
    → parse_entry text ≡ ok e
    → Parses (ls ++ (line, text) ∷ []) (es ++ e ∷ [])
Parses-concat line text nil p = cons p nil
Parses-concat line text (cons q r) p = cons q (Parses-concat line text r p)

-- A record and one that may stand behind it.
abbrev pub Precedes : Entry → Entry → Type 0
Precedes e f = (key_ltb (key e) (key f) ≡ true) × (overlaps f e ≡ false)

-- Each record precedes all behind it.
abbrev pub IsOrdered : List Entry → Type 0
IsOrdered [] = Unit
IsOrdered (e ∷ es) = All (Precedes e) es × IsOrdered es

pub IsOrdered-concat :
    (es : List Entry) (f : Entry)
    → IsOrdered es
    → All (λ e. Precedes e f) es
    → IsOrdered (es ++ f ∷ [])
IsOrdered-concat [] f o a = (tt, tt)
IsOrdered-concat (e ∷ es) f o a =
    (All-append (Precedes e) es (f ∷ []) o.0 (a.0, tt), IsOrdered-concat es f o.1 a.1)

-- The inner loop, on records that parse: the first overlap is the error, and nothing panics.
pub no_overlap-eq-any :
    {ls : List (ℕ × Bytes)} {es : List Entry} (line : ℕ) (f : Entry)
    → Parses ls es
    → no_overlap line f ls ≡ (if any (overlaps f) es then fail line overlapping else ok tt)
unfolding no_overlap
no_overlap-eq-any line f nil = refl
no_overlap-eq-any line f (cons {entry} p q) = rw p (ground (arith, no_overlap-eq-any line f q))

pub any-overlaps-false :
    (f : Entry) (es : List Entry) → any (overlaps f) es ≡ false → All (λ e. overlaps f e ≡ false) es
any-overlaps-false f [] h = tt
any-overlaps-false f (e ∷ es) h = (ground arith, any-overlaps-false f es (ground arith))

-- No record's key is past `k`.
abbrev pub UpTo : Option Key → List Entry → Type 0
UpTo none es = es ≡ []
UpTo (some k) es = All (λ e. key_leb (key e) k ≡ true) es

UpTo-Precedes :
    (k : Key) (f : Entry) (es : List Entry)
    → UpTo (some k) es
    → is_after (some k) (key f) ≡ true
    → All (λ e. overlaps f e ≡ false) es
    → All (λ e. Precedes e f) es
unfolding key_leb
UpTo-Precedes k f [] u a o = tt
UpTo-Precedes k f (e ∷ es) u a o =
    ((key_ltb_of_leb (key e) k (key f) u.0 (ground arith), o.0), UpTo-Precedes k f es u.1 a o.1)

pub UpTo-is_after :
    (p : Option Key) (f : Entry) (es : List Entry)
    → UpTo p es
    → is_after p (key f) ≡ true
    → All (λ e. overlaps f e ≡ false) es
    → All (λ e. Precedes e f) es
UpTo-is_after none f es u a o = rw u tt
UpTo-is_after (some k) f es u a o = UpTo-Precedes k f es u a o

All-map {ℓ κ ι} :
    {A : Type ℓ} (P : A → Type κ) (Q : A → Type ι) (xs : List A)
    → ((x : A) → P x → Q x)
    → All P xs
    → All Q xs
All-map P Q [] f h = tt
All-map P Q (x ∷ xs) f h = (f x h.0, All-map P Q xs f h.1)

key_leb_of_ltb : (a b : Key) → key_ltb a b ≡ true → key_leb a b ≡ true
unfolding key_leb
key_leb_of_ltb a b h = ground arith

key_leb_refl : (a : Key) → key_leb a a ≡ true
unfolding key_leb
key_leb_refl a = ground arith

pub UpTo-concat :
    (f : Entry) (es : List Entry) → All (λ e. Precedes e f) es → UpTo (some (key f)) (es ++ f ∷ [])
UpTo-concat f es a =
    All-append _ es (f ∷ [])
      (All-map (λ e. Precedes e f) _ es (λ e h. key_leb_of_ltb (key e) (key f) h.0) a)
      (key_leb_refl (key f), tt)

pub take-append {ℓ} : {A : Type ℓ} (xs ys : List A) → take (length xs) (xs ++ ys) ≡ xs
take-append [] ys = refl
take-append (x ∷ xs) ys = ap (◌∷◌ x) (take-append xs ys)
