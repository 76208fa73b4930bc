-- ===== src/Infiniband/Reported.antt =====
-- Of the snapshot in src/linux.rs: which names it reports.
use pcilibs_rs.Prelude.{
  ◌≡◌, refl, Option, none, some, List, [], ◌∷◌, In, here, there, ok, err, Result,
}
use pcilibs_rs.Text.{Bytes}
use pcilibs_rs.Files.{Files, IoError}
use pcilibs_rs.Sysfs.{Sysfs}
use pcilibs_rs.Infiniband.{flatten, parts_of, push_part, ib_part, ib_text}

flatten-In :
    {name : Bytes} (entries : List (Result IoError Bytes))
    → In (ok name) entries
    → In name (flatten entries)
unfolding flatten
flatten-In [] i = elim i [ ]
flatten-In (err x ∷ entries) (here e) = cc
flatten-In (ok n ∷ entries) (here e) = here cc
flatten-In (ok n ∷ entries) (there i) = there (flatten-In entries i)
flatten-In (err x ∷ entries) (there i) = flatten-In entries i

In-push_part :
    (o : Option Bytes) {p : Bytes} {parts : List Bytes} → In p parts → In p (push_part o parts)
In-push_part none i = i
In-push_part (some q) i = there i

parts_of-In :
    (part : Bytes → Option Bytes) {p name : Bytes} (names : List Bytes)
    → part name ≡ some p
    → In name names
    → In p (parts_of part names)
unfolding parts_of
parts_of-In part [] h i = elim i [ ]
parts_of-In part (n ∷ names) h (here e) = rw⁻¹ e (rw h (here refl))
parts_of-In part (n ∷ names) h (there i) = In-push_part (part n) (parts_of-In part names h i)

module _ {S : Type 0} (files : Files S) (sysfs : Sysfs) where
  -- Every InfiniBand device whose entry can be read is reported, whatever its attributes are.
  ib_part-In :
      (s : S) (name : Bytes) (entries : List (Result IoError Bytes))
      → In (ok name) entries
      → In (ib_text files sysfs s name) (parts_of (ib_part files sysfs s) (flatten entries))
  ib_part-In s name entries i =
      parts_of-In (ib_part files sysfs s) (flatten entries) refl (flatten-In entries i)
