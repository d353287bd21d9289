-- ===== src/Store/Methods.antt =====
-- Every method of the store preserves every relation that respects the statements it is made of.
pub mod Runs
pub mod Tools
pub mod Sessions
pub mod Claim
