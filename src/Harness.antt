-- ===== src/Harness.antt =====
-- src/code_forge/harness: the parts that are pure.
pub mod Context
pub mod Tooling
pub mod Commits
