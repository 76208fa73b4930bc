-- ===== src/Sysfs/Joined.antt =====
-- The components of a path as its texts are joined (src/sysfs.rs joins names onto a root).
use pcilibs_rs.Prelude.{
  ℕ, Bool, true, false, List, [], ◌∷◌, ◌++◌, if◌then◌else◌, is_empty, ◌≡◌, ◌≢◌, refl, arith, All,
  All-append, ==_iff, ◌∙◌, ap, sym, Bool-cases, ◌⊎◌, inl, inr,
}
use mathlib.Core.List.{append_assoc, append-nil}
use pcilibs_rs.Text.{Bytes, codes, equal, split}
use pcilibs_rs.Text.Equality.{equal_iff}
use pcilibs_rs.Text.Split.{Free, split-Free_last, split-append, split-ne-nil, split-All-Free}
use pcilibs_rs.Sysfs.{
  FilePath, Component, root_dir, cur_dir, normal, is_absolute, needs_separator, join, piece, pieces,
  start_pieces, components, is_one, is_component,
}

pieces-append : (xs ys : List Bytes) → pieces (xs ++ ys) ≡ pieces xs ++ pieces ys
unfolding pieces
pieces-append [] ys = refl
pieces-append (x ∷ xs) ys = simp (pieces-append xs ys, append_assoc)

is_absolute-append : (s rest : Bytes) → s ≢ [] → is_absolute (s ++ rest) ≡ is_absolute s
is_absolute-append [] rest h = absurd (h refl)
is_absolute-append (c ∷ s) rest h = refl

start_pieces-append :
    (absolute : Bool) (xs ys : List Bytes)
    → xs ≢ []
    → start_pieces absolute (xs ++ ys) ≡ start_pieces absolute xs ++ pieces ys
start_pieces-append absolute [] ys h = absurd (h refl)
start_pieces-append true (x ∷ xs) ys h = ap (◌∷◌ root_dir) (pieces-append xs ys)
start_pieces-append false (x ∷ xs) ys h = rw (pieces-append xs ys, append_assoc)

components-append :
    (s rest : Bytes)
    → s ≢ []
    → components (s ++ b'/' ∷ rest) ≡ components s ++ pieces (split b'/' rest)
unfolding components
components-append s rest h =
    rw (is_absolute-append s (b'/' ∷ rest) h, split-append b'/' s rest)
      (start_pieces-append (is_absolute s) (split b'/' s) (split b'/' rest) (split-ne-nil b'/' s))

-- A text that is one ordinary piece.
pub record IsOrdinary (name : Bytes) : Type 0 where
  pub free : Free b'/' name
  pub at_start : piece true name ≡ normal name ∷ []
  pub inside : piece false name ≡ normal name ∷ []

abbrev FreeNormal : Component → Type 0
FreeNormal (normal s) = Free b'/' s
FreeNormal _ = Unit

piece-FreeNormal : (b : Bool) (s : Bytes) → Free b'/' s → All FreeNormal (piece b s)
unfolding piece
piece-FreeNormal b s f = elim (Bool-cases (is_empty s)) [
  | inl e ↦ rw e tt
  | inr e ↦ elim (Bool-cases (equal s (codes "."))) [
    | inl d ↦ rw (e, d) (one_dot b)
    | inr d ↦ elim (Bool-cases (equal s (codes ".."))) [
      | inl u ↦ rw (e, d, u) (tt, tt)
      | inr u ↦ rw (e, d, u) (f, tt)
    ]
  ]
]
  where
    one_dot : (b : Bool) → All FreeNormal (if b then cur_dir ∷ [] else [])
    one_dot true = (tt, tt)
    one_dot false = tt

pieces-FreeNormal : (xs : List Bytes) → All (Free b'/') xs → All FreeNormal (pieces xs)
unfolding pieces
pieces-FreeNormal [] f = tt
pieces-FreeNormal (x ∷ xs) f =
    All-append FreeNormal (piece false x) (pieces xs) (piece-FreeNormal false x f.0)
      (pieces-FreeNormal xs f.1)

start_pieces-FreeNormal :
    (absolute : Bool) (xs : List Bytes)
    → All (Free b'/') xs
    → All FreeNormal (start_pieces absolute xs)
start_pieces-FreeNormal absolute [] f = tt
start_pieces-FreeNormal true (x ∷ xs) f = (tt, pieces-FreeNormal xs f.1)
start_pieces-FreeNormal false (x ∷ xs) f =
    All-append FreeNormal (piece true x) (pieces xs) (piece-FreeNormal true x f.0)
      (pieces-FreeNormal xs f.1)

components-FreeNormal : (s : FilePath) → All FreeNormal (components s)
unfolding components
components-FreeNormal s =
    start_pieces-FreeNormal (is_absolute s) (split b'/' s) (split-All-Free b'/' s)

is_one-eq : (cs : List Component) (name : Bytes) → is_one cs name ≡ true → cs ≡ normal name ∷ []
is_one-eq (normal one ∷ []) name h = ap (λ x. normal x ∷ []) ((equal_iff one name).0 h)
is_one-eq _ name h = absurd (ground arith)

not-is_absolute : (s : Bytes) → Free b'/' s → is_absolute s ≡ false
not-is_absolute [] f = refl
not-is_absolute (c ∷ s) f = f.0

components-Free : (s : Bytes) → Free b'/' s → components s ≡ piece true s
unfolding components pieces
components-Free s f = rw (not-is_absolute s f, split-Free_last b'/' s f, append-nil)

piece_inside : (s : Bytes) → piece true s ≡ normal s ∷ [] → piece false s ≡ normal s ∷ []
unfolding piece
piece_inside s h = ground arith

-- `is_component` accepts ordinary pieces only.
pub is_component-IsOrdinary : (name : Bytes) → is_component name ≡ true → IsOrdinary name
unfolding is_component
is_component-IsOrdinary name h =
    let e = is_one-eq (components name) name h in
    let f = (rw e at (components-FreeNormal name)).0 in
    let p = sym (components-Free name f) ∙ e in
    record { free = f; at_start = p; inside = piece_inside name p }

needs_separator-ne-nil : (path : FilePath) → needs_separator path ≡ true → path ≢ []
unfolding needs_separator
needs_separator-ne-nil path h e = let k = rw e at h in cc k

-- The path's last separator, where no other is needed.
trailing :
    (path : FilePath)
    → needs_separator path ≡ false
    → (path ≡ []) ⊎ ((q : FilePath) × (path ≡ q ++ b'/' ∷ []))
unfolding needs_separator
trailing [] h = inl refl
trailing (c ∷ []) h = inr ([], ap (λ (x : ℕ). x ∷ []) ((==_iff c b'/').0 (ground arith)))
trailing (c ∷ d ∷ s) h = elim (trailing (d ∷ s) h) [
  | inl e ↦ absurd (cc e)
  | inr (q, e) ↦ inr (c ∷ q, ap (◌∷◌ c) e)
]

components-slash :
    (q rest : Bytes)
    → components (q ++ b'/' ∷ rest) ≡ components (q ++ b'/' ∷ []) ++ pieces (split b'/' rest)
unfolding components pieces split
components-slash [] rest = refl
components-slash (c ∷ q) rest =
    components-append (c ∷ q) rest (λ e. cc e)
    ∙ rw (components-append (c ∷ q) [] (λ e. cc e), append-nil)

-- Joining an ordinary name adds it as the last component.
pub components-join :
    (path : FilePath) {name : Bytes}
    → IsOrdinary name
    → components (join path name) ≡ components path ++ normal name ∷ []
unfolding join pieces components split
components-join path {name} o = elim (Bool-cases (needs_separator path)) [
  | inl t ↦
      rw (not-is_absolute name o.free, t)
        (components-append path name (needs_separator-ne-nil path t) ∙ rw last)
  | inr t ↦
      rw (not-is_absolute name o.free, t)
        (elim (trailing path t) [
          | inl e ↦ rw e (components-Free name o.free ∙ o.at_start)
          | inr (q, e) ↦ rw (e, append_assoc) (components-slash q name ∙ rw last)
        ])
]
  where
    last : pieces (split b'/' name) ≡ normal name ∷ []
    last = rw (split-Free_last b'/' name o.free, o.inside)
