-- ===== src/Nvlink/Ports/Eligible.antt =====
-- Where the management ports that are found come from.
use pcilibs_rs.Prelude.{
  ℕ, true, Option, none, some, List, [], ◌∷◌, All, All-append, Result, ok, err, bind-eq-ok, ◌≡◌,
  refl, Bool-cases, inl, inr,
}
use pcilibs_rs.Text.{Bytes, codes}
use pcilibs_rs.Sort.{sort_by}
use pcilibs_rs.Sort.Laws.{sort_by-All}
use pcilibs_rs.Sysfs.{Sysfs, FilePath, join, infiniband}
use pcilibs_rs.Files.{Files, IoError, not_found}
use pcilibs_rs.Platform.Discovery.{Topology, discover_topology}
use pcilibs_rs.Nvlink.Ports.{
  ManagementPort, port_le, port_number, link_address, is_managed, management_guid, device_path,
  port_path, push_port, add_port, read_ports, with_address, with_link, read_devices,
  discover_management_ports,
}

module _ {S : Type 0} (files : Files S) (sysfs : Sysfs) where
  -- The device of the port is that of a management function, by its link, and its directory has
  -- an entry with this number, whose files give the GUID.
  pub record IsEligible (topology : Topology) (s : S) (p : ManagementPort) : Type 0 where
    pub managed : is_managed topology p.pci_bdf ≡ true
    pub linked :
        (target : FilePath) × (files.read_link
            (join (device_path files sysfs p.ib_device) (codes "device"))
            s
          ≡ ok target)
        × (link_address target ≡ some p.pci_bdf)
    pub numbered :
        (name : Bytes) × (port_number name ≡ some p.port)
        × (management_guid files sysfs (port_path files sysfs p.ib_device name) s
            ≡ ok (some p.guid))

  abbrev AllEligible : Topology → S → List ManagementPort → Type 0
  AllEligible topology s ports = All (IsEligible topology s) ports

  module _ (topology : Topology) (s : S) (name bdf : Bytes)
      (managed : is_managed topology bdf ≡ true) {target : FilePath}
      (link : files.read_link (join (device_path files sysfs name) (codes "device")) s ≡ ok target)
      (address : link_address target ≡ some bdf) where
    push_port-AllEligible :
        (port : Bytes) (number : ℕ) (ports : List ManagementPort) (guid : Option ℕ)
        → port_number port ≡ some number
        → management_guid files sysfs (port_path files sysfs name port) s ≡ ok guid
        → AllEligible topology s ports
        → AllEligible topology s (push_port files sysfs name bdf number ports guid)
    push_port-AllEligible port number ports none n g h = h
    push_port-AllEligible port number ports (some guid) n g h =
        All-append (IsEligible topology s) ports _ h (
          record { managed = managed; linked = (target, link, address); numbered = (port, n, g) },
          tt,
        )

    add_port-AllEligible :
        (port : Bytes) (number : Option ℕ) (ports : List ManagementPort)
        {more : List ManagementPort}
        → port_number port ≡ number
        → add_port files sysfs name bdf port number ports s ≡ ok more
        → AllEligible topology s ports
        → AllEligible topology s more
    add_port-AllEligible port none ports {more} n e h =
        let same : ports ≡ more = cc e in rw same at h
    add_port-AllEligible port (some number) ports {more} n e h =
        let (guid, g, e') =
          bind-eq-ok (management_guid files sysfs (port_path files sysfs name port) s) _ e in
        let same : push_port files sysfs name bdf number ports guid ≡ more = cc e' in
        rw same at (push_port-AllEligible port number ports guid n g h)

    read_ports-AllEligible :
        (entries : List (Result IoError Bytes)) (ports : List ManagementPort)
        {more : List ManagementPort}
        → read_ports files sysfs name bdf entries ports s ≡ ok more
        → AllEligible topology s ports
        → AllEligible topology s more
    unfolding read_ports
    read_ports-AllEligible [] ports {more} e h = let same : ports ≡ more = cc e in rw same at h
    read_ports-AllEligible (err x ∷ entries) ports e h = cc e
    read_ports-AllEligible (ok port ∷ entries) ports e h =
        let (next, one, rest) =
          bind-eq-ok (add_port files sysfs name bdf port (port_number port) ports s) _ e in
        read_ports-AllEligible entries next rest
          (add_port-AllEligible port (port_number port) ports refl one h)

  with_address-AllEligible :
      (topology : Topology) (s : S) (name : Bytes) (bdf : Option Bytes)
      (ports : List ManagementPort) {target : FilePath} {more : List ManagementPort}
      → files.read_link (join (device_path files sysfs name) (codes "device")) s ≡ ok target
      → link_address target ≡ bdf
      → with_address files sysfs topology name bdf ports s ≡ ok more
      → AllEligible topology s ports
      → AllEligible topology s more
  with_address-AllEligible topology s name none ports {more = more} link address e h =
      let same : ports ≡ more = cc e in rw same at h
  with_address-AllEligible topology s name (some bdf) ports {more = more} link address e h =
      elim (Bool-cases (is_managed topology bdf)) [
        | inl m ↦
            let (entries, _, rest) =
              bind-eq-ok (files.read_dir (join (device_path files sysfs name) (codes "ports")) s) _
                (rw m at e) in
            read_ports-AllEligible topology s name bdf m link address entries ports rest h
        | inr m ↦ let same : ports ≡ more = cc (rw m at e) in rw same at h
      ]

  with_link-AllEligible :
      (topology : Topology) (s : S) (name : Bytes) (link : Result IoError FilePath)
      (ports : List ManagementPort) {more : List ManagementPort}
      → files.read_link (join (device_path files sysfs name) (codes "device")) s ≡ link
      → with_link files sysfs topology name link ports s ≡ ok more
      → AllEligible topology s ports
      → AllEligible topology s more
  with_link-AllEligible topology s name (ok target) ports link e h =
      with_address-AllEligible topology s name (link_address target) ports link refl e h
  with_link-AllEligible topology s name (err not_found) ports {more} link e h =
      let same : ports ≡ more = cc e in rw same at h
  with_link-AllEligible topology s name (err _) ports link e h = cc e

  read_devices-AllEligible :
      (topology : Topology) (s : S) (entries : List (Result IoError Bytes))
      (ports : List ManagementPort) {more : List ManagementPort}
      → read_devices files sysfs topology entries ports s ≡ ok more
      → AllEligible topology s ports
      → AllEligible topology s more
  unfolding read_devices
  read_devices-AllEligible topology s [] ports {more} e h =
      let same : ports ≡ more = cc e in rw same at h
  read_devices-AllEligible topology s (err x ∷ entries) ports e h = cc e
  read_devices-AllEligible topology s (ok name ∷ entries) ports e h =
      let link = files.read_link (join (device_path files sysfs name) (codes "device")) s in
      let (next, one, rest) = bind-eq-ok (with_link files sysfs topology name link ports s) _ e in
      read_devices-AllEligible topology s entries next rest
        (with_link-AllEligible topology s name link ports refl one h)

  -- Each management port that is found belongs to an InfiniBand device whose link names a
  -- management function of the topology, and has the number of an entry of that device and the
  -- GUID that the files of this entry give.
  pub discover_management_ports-IsEligible :
      (s : S) {topology : Topology} {ports : List ManagementPort}
      → discover_topology files sysfs s ≡ ok topology
      → discover_management_ports files sysfs s ≡ ok ports
      → All (IsEligible topology s) ports
  unfolding discover_management_ports
  discover_management_ports-IsEligible s {topology} {ports} t e =
      let (found, f, e1) = bind-eq-ok (discover_topology files sysfs s) _ e in
      let (entries, _, e2) = bind-eq-ok (files.read_dir (infiniband sysfs) s) _ e1 in
      let (unsorted, collected, e3) =
        bind-eq-ok (read_devices files sysfs found entries [] s) _ e2 in
      let one : found ≡ topology = cc (t, f) in
      let sorted : sort_by port_le unsorted ≡ ports = cc e3 in
      rw (one, sorted) at
        (sort_by-All port_le (IsEligible found s) unsorted
          (read_devices-AllEligible found s entries [] collected tt))
