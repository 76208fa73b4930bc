-- ===== src/PciDev.antt =====
-- src/pci_dev.rs: a device that the process holds open. `Attributes` reads sysfs attributes,
-- `Switches` are power and memory decoding, `Handle` opens and closes, `Bar0` checks accesses.
pub mod Attributes
pub mod Switches
pub mod Handle
pub mod Bar0
pub mod Claims
pub mod Handles
pub mod Locks
pub mod Decoded
pub mod Restore
pub mod Opened
pub mod Tests
