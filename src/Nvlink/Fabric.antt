-- ===== src/Nvlink/Fabric.antt =====
-- src/nvlink.rs: switches and management functions among the PCI functions of the node. The file
-- system is a parameter; a separator that `slot` does not find is a panic of the source.
use pcilibs_rs.Prelude.{
  ℕ, ◌+◌, ◌/◌, Bool, false, ◌&&◌, ◌==◌, ltb, any, if◌then◌else◌, bind-eq-ok, ◌≡◌, refl, ◌∙◌, ap,
  sym, Bool-cases, inl, inr, Option, none, some, List, [], ◌∷◌, ◌++◌, length, take, Result, ok, err,
  ◌>>=◌, map_err,
}
use mathlib.Core.List.{append_assoc, append-nil}
use pcilibs_rs.Text.{Bytes, codes, equal}
use pcilibs_rs.Sysfs.{Sysfs, FilePath, join, devices}
use pcilibs_rs.Files.{Files, IoError, not_found, invalid_data, panicked}
use pcilibs_rs.Nvlink.Vpd.{vpd_sw_mng}

abbrev pub nvidia : ℕ
nvidia = 0x10de

abbrev pub mellanox : ℕ
mellanox = 0x15b3

abbrev pub max_vpd : ℕ
max_vpd = 32768

pub record PciFunction : Type 0 where
  pub bdf : Bytes
  pub vendor : ℕ
  pub class : ℕ

pub record ManagementFunction : Type 0 where
  pub bdf : Bytes
  pub sw_mng : Bool

-- `function.class >> 8 == 0x0680`
unfoldable pub is_switch : PciFunction → Bool
is_switch f = f.vendor == nvidia && f.class / 256 == 0x0680

-- The names of the switches in a list, which `discover_switches` returns.
unfoldable pub switch_names : List PciFunction → List Bytes
unfolding is_switch
switch_names [] = []
switch_names (f ∷ fs) = let rest = switch_names fs in if is_switch f then f.bdf ∷ rest else rest

-- `rsplit_once('.')`, the part before the last dot.
unfoldable pub before_last_dot : Bytes → Option Bytes
before_last_dot [] = none
before_last_dot (c ∷ s) = elim (before_last_dot s) [
  | some front ↦ some (c ∷ front)
  | none ↦ if c == b'.' then some [] else none
]

unfoldable pub slot : Bytes → Result IoError Bytes
unfolding before_last_dot
slot bdf = elim (before_last_dot bdf) [ none ↦ err panicked | some front ↦ ok front ]

-- The filter of `discover_fabric`.
unfoldable pub in_slots :
    List Bytes → List ManagementFunction → Result IoError (List ManagementFunction)
unfolding slot
in_slots slots [] = ok []
in_slots slots (m ∷ ms) = do
  here ← slot m.bdf
  rest ← in_slots slots ms
  ok (if any (equal here) slots then m ∷ rest else rest)

-- What the loop of `discover_fabric` has collected.
pub record Found : Type 0 where
  pub switches : List Bytes
  pub managers : List ManagementFunction
  pub slots : List Bytes

switch_names-cons :
    (f : PciFunction) (fs : List PciFunction)
    → switch_names (f ∷ []) ++ switch_names fs ≡ switch_names (f ∷ fs)
unfolding switch_names
switch_names-cons f fs = elim (Bool-cases (is_switch f)) [ inl e ↦ rw e refl | inr e ↦ rw e refl ]

module _ {S : Type 0} (files : Files S) (sysfs : Sysfs) where
  -- The bytes of a VPD file, `MAX_VPD + 1` at most.
  abbrev check_vpd : Bytes → Result IoError Bool
  check_vpd image =
      if ltb max_vpd (length image)
      then err invalid_data
      else map_err (λ _. invalid_data) (vpd_sw_mng image)

  abbrev opened : FilePath → S → Result IoError (Unit {0}) → Result IoError Bool
  opened path s (ok _) = do image ← files.read_bytes path s; check_vpd (take (max_vpd + 1) image)
  opened path s (err not_found) = ok false
  opened path s (err e) = err e

  unfoldable pub read_sw_mng : FilePath → S → Result IoError Bool
  read_sw_mng path s = opened path s (files.open_file path s)

  -- A Mellanox function with its own role; a marker makes its slot a management slot.
  abbrev pub with_role : PciFunction → Found → Bool → Result IoError Found
  with_role f found sw_mng = do
    slots ←
        (if sw_mng then (slot f.bdf >>= λ here. ok (found.slots ++ here ∷ [])) else ok found.slots)
    ok (record {
      switches = found.switches;
      managers = found.managers ++ record { bdf = f.bdf; sw_mng = sw_mng } ∷ [];
      slots = slots;
    })

  -- A virtual function has a `physfn` link, and is no management function.
  abbrev pub with_physfn :
      PciFunction → Found → S → Result IoError (Unit {0}) → Result IoError Found
  with_physfn f found s (ok _) = ok found
  with_physfn f found s (err not_found) = do
    sw_mng ← read_sw_mng (join (join (devices sysfs) f.bdf) (codes "vpd")) s
    with_role f found sw_mng
  with_physfn f found s (err e) = err e

  unfoldable pub add_function : PciFunction → Found → S → Result IoError Found
  unfolding read_sw_mng
  add_function f found s =
      if is_switch f
      then ok (record {
        switches = found.switches ++ f.bdf ∷ [];
        managers = found.managers;
        slots = found.slots;
      })
      else if f.vendor == mellanox
      then with_physfn f found s
          (files.symlink_metadata (join (join (devices sysfs) f.bdf) (codes "physfn")) s)
      else ok found

  -- The loop of `discover_fabric`.
  unfoldable pub add_functions : List PciFunction → Found → S → Result IoError Found
  unfolding add_function
  add_functions [] found s = ok found
  add_functions (f ∷ fs) found s = add_function f found s >>= λ next. add_functions fs next s

  unfoldable pub discover_fabric :
      List PciFunction → S → Result IoError (List Bytes × List ManagementFunction)
  unfolding add_functions in_slots
  discover_fabric functions s = do
    found ← add_functions functions (record { switches = []; managers = []; slots = [] }) s
    managers ← in_slots found.slots found.managers
    ok (found.switches, managers)

  with_role-switches :
      (f : PciFunction) (found : Found) (sw_mng : Bool) {next : Found}
      → with_role f found sw_mng ≡ ok next
      → next.switches ≡ found.switches
  with_role-switches f found sw_mng h =
      let (slots, _, e) =
        bind-eq-ok
          (if sw_mng
            then (slot f.bdf >>= λ here. ok (found.slots ++ here ∷ []))
            else ok found.slots)
          _ h in
      cc e

  with_physfn-switches :
      (f : PciFunction) (found : Found) (s : S) (r : Result IoError (Unit {0})) {next : Found}
      → with_physfn f found s r ≡ ok next
      → next.switches ≡ found.switches
  with_physfn-switches f found s (ok _) h = cc h
  with_physfn-switches f found s (err not_found) h =
      let (sw_mng, _, e) =
        bind-eq-ok (read_sw_mng (join (join (devices sysfs) f.bdf) (codes "vpd")) s) _ h in
      with_role-switches f found sw_mng e
  with_physfn-switches f found s (err _) h = cc h

  add_function-switches :
      (f : PciFunction) (found : Found) (s : S) {next : Found}
      → add_function f found s ≡ ok next
      → next.switches ≡ found.switches ++ switch_names (f ∷ [])
  unfolding add_function switch_names
  add_function-switches f found s {next} = elim (Bool-cases (is_switch f)) [
    | inl e ↦ rw e (λ h. cc h)
    | inr e ↦ rw e (elim (Bool-cases (f.vendor == mellanox)) [
      | inl m ↦ rw m (λ h.
          (with_physfn-switches f found s
              (files.symlink_metadata (join (join (devices sysfs) f.bdf) (codes "physfn")) s) h
            ∙ sym (append-nil found.switches)))
      | inr o ↦ rw o (λ h.
          (let same : found ≡ next = cc h in
            ap (λ (x : Found). x.switches) (sym same) ∙ sym (append-nil found.switches)))
    ])
  ]

  add_functions-switches :
      (fs : List PciFunction) (found : Found) (s : S) {last : Found}
      → add_functions fs found s ≡ ok last
      → last.switches ≡ found.switches ++ switch_names fs
  unfolding add_functions switch_names
  add_functions-switches [] found s {last} h =
      let same : found ≡ last = cc h in
      ap (λ (x : Found). x.switches) (sym same) ∙ sym (append-nil found.switches)
  add_functions-switches (f ∷ fs) found s {last} h =
      let (next, one, rest) = bind-eq-ok (add_function f found s) _ h in
      add_functions-switches fs next s rest
      ∙ ap (λ x. x ++ switch_names fs) (add_function-switches f found s one)
      ∙ append_assoc found.switches (switch_names (f ∷ [])) (switch_names fs)
      ∙ ap (λ x. found.switches ++ x) (switch_names-cons f fs)

  -- When `discover_fabric` succeeds, the switches that it lists are those that `discover_switches`
  -- picks of the same functions, in the same order, whatever else is on the bus.
  pub discover_fabric-switches :
      (functions : List PciFunction) (s : S) {switches : List Bytes}
      {managers : List ManagementFunction}
      → discover_fabric functions s ≡ ok (switches, managers)
      → switches ≡ switch_names functions
  unfolding discover_fabric
  discover_fabric-switches functions s h =
      let (found, scanned, rest) =
        bind-eq-ok (add_functions functions (record { switches = []; managers = []; slots = [] }) s)
          _ h in
      let (_, _, e) = bind-eq-ok (in_slots found.slots found.managers) _ rest in
      let same = add_functions-switches functions _ s scanned in cc (e, same)
