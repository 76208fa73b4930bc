-- ===== src/Nvlink.antt =====
-- src/nvlink.rs: discovery of NVLink switches and of their management functions.
pub mod Vpd
pub mod Fabric
pub mod Ports
mod Tests
