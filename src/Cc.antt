-- ===== src/Cc.antt =====
-- src/cc/mod.rs: confidential computing modes, held in the knobs of the FSP. `Modes` has the modes
-- and their text, `Plan` the order of knob writes, `Operations` those of GPUs and switches.
-- `Store` says what is relied on of the knobs, and `Spelling`, `Order`, `Leads` and `Settled` prove
-- the rest; `Equipped`, `Succeeds`, `Again` and `Served` are about firmware that works.
pub mod Modes
pub mod Plan
pub mod Operations
pub mod Opening
pub mod Spelling
pub mod Store
pub mod Order
pub mod Leads
pub mod Settled
pub mod Equipped
pub mod Succeeds
pub mod Again
pub mod Served
mod Tests
