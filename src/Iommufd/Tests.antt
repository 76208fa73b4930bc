-- ===== src/Iommufd/Tests.antt =====
-- A device whose entry is spelled with a leading zero, and the theorem at it.
use pcilibs_rs.Prelude.{some, [], ◌∷◌, ◌≡◌, refl, In, here}
use pcilibs_rs.Text.{codes, equal, strip_prefix, trim}
use pcilibs_rs.Text.Hex.{digit, digits, unsigned, from_str_radix}
use pcilibs_rs.Text.Decimal
use pcilibs_rs.Sort.{insert, sort_by}
use pcilibs_rs.Sysfs.{default, needs_separator, join, class_path, vfio_dev}
use pcilibs_rs.Files.{Files}
use pcilibs_rs.Files.Fixed.{fixed, text_at}
use pcilibs_rs.PciDev.Attributes.{parse_attr, without_0x}
use pcilibs_rs.Iommufd.{
  IommufdDev, numbered, vfio_name, identity, lookup_iommufd_dev, found_devices, enumerate_iommufd,
}
use pcilibs_rs.Iommufd.Listing.{enumerate_iommufd-lookup_iommufd_dev}

abbrev one_device : Files (Unit {0})
one_device = fixed (codes "vfio07" ∷ codes "tty" ∷ []) (
    (codes "/sys/class/vfio-dev/vfio7/device/vendor", codes "0x10de\n")
    ∷ (codes "/sys/class/vfio-dev/vfio7/device/device", codes "0x22a3\n")
    ∷ (codes "/sys/class/vfio-dev/vfio7/device/class", codes "0x068000\n")
    ∷ [])

abbrev nv_switch : IommufdDev
nv_switch = record {
  num = 7;
  path = codes "/dev/vfio/devices/vfio7";
  vendor = 0x10de;
  device = 0x22a3;
  class = 0x068000;
}

enumerate_iommufd-one : enumerate_iommufd one_device default (codes "/dev/vfio") tt ≡ nv_switch ∷ []
unfolding enumerate_iommufd found_devices numbered identity strip_prefix text_at equal trim
    parse_attr without_0x from_str_radix unsigned digits digit sort_by insert needs_separator join
    class_path vfio_dev Decimal.parse_unsigned Decimal.magnitude Decimal.digits Decimal.digit
    Decimal.printed
enumerate_iommufd-one = refl

listed : In nv_switch (enumerate_iommufd one_device default (codes "/dev/vfio") tt)
listed = rw enumerate_iommufd-one (here refl)

enumerate_iommufd-lookup_iommufd_dev_example :
    lookup_iommufd_dev one_device default (vfio_name 7) (codes "/dev/vfio") tt ≡ some nv_switch
enumerate_iommufd-lookup_iommufd_dev_example =
    enumerate_iommufd-lookup_iommufd_dev one_device default (codes "/dev/vfio") tt nv_switch listed
      refl
