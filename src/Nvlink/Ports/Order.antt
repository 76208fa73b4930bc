-- ===== src/Nvlink/Ports/Order.antt =====
-- The order in which the management ports are listed.
use pcilibs_rs.Prelude.{◌≡◌, List, [], true, false, arith, ok, bind-eq-ok}
use pcilibs_rs.Text.Equality.{equal_iff}
use pcilibs_rs.Sort.{sort_by}
use pcilibs_rs.Sort.Laws.{IsOrder, Ascending, sort_by-Ascending}
use pcilibs_rs.Sort.Texts.{text_le_total, text_le_trans, text_le_antisymm}
use pcilibs_rs.Sysfs.{Sysfs, infiniband}
use pcilibs_rs.Files.{Files}
use pcilibs_rs.Platform.Discovery.{discover_topology}
use pcilibs_rs.Nvlink.Ports.{ManagementPort, port_le, read_devices, discover_management_ports}

port_le_total : (a b : ManagementPort) → port_le a b ≡ false → port_le b a ≡ true
unfolding port_le
port_le_total a b h = ground (
  arith,
  text_le_antisymm a.pci_bdf b.pci_bdf,
  equal_iff b.pci_bdf a.pci_bdf,
  equal_iff a.pci_bdf b.pci_bdf,
  text_le_total a.ib_device b.ib_device,
)

port_le_trans :
    (a b c : ManagementPort) → port_le a b ≡ true → port_le b c ≡ true → port_le a c ≡ true
unfolding port_le
port_le_trans a b c h k = ground (
  arith,
  text_le_trans c.pci_bdf a.pci_bdf b.pci_bdf,
  text_le_trans b.pci_bdf c.pci_bdf a.pci_bdf,
  text_le_total c.pci_bdf b.pci_bdf,
  text_le_total b.pci_bdf a.pci_bdf,
  equal_iff a.pci_bdf b.pci_bdf,
  equal_iff b.pci_bdf c.pci_bdf,
  equal_iff a.pci_bdf c.pci_bdf,
  text_le_trans a.ib_device b.ib_device c.ib_device,
)

port_le-IsOrder : IsOrder port_le
port_le-IsOrder = record { total = port_le_total; trans = port_le_trans }

-- The management ports are listed by address, those of an address by number, and those of a
-- number by the name of their device.
pub discover_management_ports-Ascending :
    {S : Type 0} (files : Files S) (sysfs : Sysfs) (s : S) {ports : List ManagementPort}
    → discover_management_ports files sysfs s ≡ ok ports
    → Ascending port_le ports
unfolding discover_management_ports
discover_management_ports-Ascending files sysfs s {ports} e =
    let (found, _, e1) = bind-eq-ok (discover_topology files sysfs s) _ e in
    let (entries, _, e2) = bind-eq-ok (files.read_dir (infiniband sysfs) s) _ e1 in
    let (unsorted, _, e3) = bind-eq-ok (read_devices files sysfs found entries [] s) _ e2 in
    let sorted : sort_by port_le unsorted ≡ ports = cc e3 in
    rw sorted at (sort_by-Ascending port_le port_le-IsOrder unsorted)
