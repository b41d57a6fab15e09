-- ===== src/Risk.antt =====
-- crates/hft-risk/src/lib.rs: pre-trade risk. `Account` has the limits and the exposure of one account,
-- `ProbeIndex` the hash index, `Engine` the engine that reserves, settles and amends, `Registration`
-- how it takes an account in.
pub mod Account
pub mod ProbeIndex
pub mod Engine
pub mod Registration
