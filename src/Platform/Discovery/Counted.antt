-- ===== src/Platform/Discovery/Counted.antt =====
-- The platform that is detected is that of the topology.
use pcilibs_rs.Prelude.{
  List, [], ◌∷◌, ◌++◌, length, ◌≡◌, refl, sym, arith, bind-eq-ok, ok, err, map_err,
}
use pcilibs_rs.Text.{Bytes}
use pcilibs_rs.Sysfs.{Sysfs}
use pcilibs_rs.Files.{Files, panicked}
use pcilibs_rs.Catalog.Records.{PciIdentity}
use pcilibs_rs.Catalog.Validate.{Checked, validate}
use pcilibs_rs.Catalog.Extension.{parse-Accepted}
use pcilibs_rs.Catalog.Snapshot.{Catalog, parse}
use pcilibs_rs.Platform.{classify_with_catalog, start}
use pcilibs_rs.Platform.Classify.{classify-Accepted, count_with, seen}
use pcilibs_rs.Platform.Uniform.{gpu_count-count_with}
use pcilibs_rs.Platform.Discovery.{
  GpuFunction, DetectedPlatform, fabric_interface, discover_topology, gpu_identity, gpu_identities,
  discover_with_catalog,
}

map_err-eq-ok : {A : Type 0} (r : Checked A) {a : A} → map_err (λ _. panicked) r ≡ ok a → r ≡ ok a
map_err-eq-ok (ok b) h = cc h
map_err-eq-ok (err e) h = cc h

module _ {S : Type 0} (files : Files S) (sysfs : Sysfs) where
  length-gpu_identities :
      (gpus : List GpuFunction) (s : S) (ids : List PciIdentity)
      → gpu_identities files sysfs gpus s ≡ ok ids
      → length ids ≡ length gpus
  unfolding gpu_identities
  length-gpu_identities [] s ids h = let same : [] ≡ ids = cc h in rw (← same) refl
  length-gpu_identities (gpu ∷ gpus) s ids h =
      let (id, _, rest) = bind-eq-ok (gpu_identity files sysfs gpu s) _ h in
      let (more, q, same) = bind-eq-ok (gpu_identities files sysfs gpus s) _ rest in
      let list : id ∷ more ≡ ids = cc same in
      let counted = length-gpu_identities gpus s more q in rw (← list) (omega (arith, counted))

  -- With an accepted catalog: the platform that is detected counts the GPUs of the topology that
  -- is reported with it, and its fabric interface is the one that this topology shows.
  pub discover_with_catalog-topology :
      (builtin_text text : Bytes) {c : Catalog} (s : S) {d : DetectedPlatform}
      → validate builtin_text ≡ ok tt
      → parse builtin_text text ≡ ok c
      → discover_with_catalog files sysfs builtin_text c s ≡ ok d
      → (d.platform.gpu_count ≡ length d.topology.gpus)
        × (d.platform.fabric ≡ fabric_interface d.topology)
  unfolding discover_with_catalog
  discover_with_catalog-topology builtin_text text {c} s {d} bundled accepted h =
      let (t, _, rest) = bind-eq-ok (discover_topology files sysfs s) _ h in
      let (ids, q, rest') = bind-eq-ok (gpu_identities files sysfs t.gpus s) _ rest in
      let (p, r, same) =
        bind-eq-ok
          (map_err (λ _. panicked) (classify_with_catalog builtin_text ids (fabric_interface t) c))
          _ rest' in
      let a = parse-Accepted builtin_text bundled text accepted in
      let whole = map_err-eq-ok (classify_with_catalog builtin_text ids (fabric_interface t) c) r in
      let named = classify-Accepted builtin_text a ids (fabric_interface t) in
      let counted = gpu_count-count_with (seen (a.own ++ a.known)) ids start in
      let listed = length-gpu_identities t.gpus s ids q in
      let reported : record { topology = t; platform = p } ≡ d = cc same in
      let count : (count_with (seen (a.own ++ a.known)) ids start).gpu_count ≡ p.gpu_count =
        cc (named, whole) in
      let fabric : fabric_interface t ≡ p.fabric = cc (named, whole) in
      rw (← reported) (omega (arith, count, counted, listed), sym fabric)
