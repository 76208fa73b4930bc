-- ===== src/Fsp.antt =====
-- src/cc/fsp.rs: knobs of the FSP firmware, read and written by messages through one of two
-- mailboxes. The children pass on nothing: `Packet` frames messages, `Emem` and `Mnoc` carry
-- them, `Rpc` makes commands of them, `Knobs` is what a client of the commands sees.
pub mod Packet
pub mod Emem
pub mod Mnoc
pub mod Knobs
pub mod Serving
pub mod Rpc
pub mod Firmware
