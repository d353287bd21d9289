-- ===== src/Store.antt =====
-- src/code_forge/persistence: the SQLite runtime store and its content files.
pub mod Schema
pub mod Monad
pub mod Content
pub mod Keys
pub mod Events
pub mod Preserves
pub mod Runs
pub mod Transitions
pub mod Responses
pub mod Tools
pub mod Sessions
pub mod Accept
pub mod Claim
pub mod Revisions
pub mod Respects
pub mod Methods
pub mod Traces
pub mod Keyed
pub mod History
pub mod Steps
pub mod Objects
pub mod Growing
pub mod Owned
pub mod Pages
pub mod Answers
pub mod Fencing
pub mod Claiming
pub mod Refusals
pub mod Idempotency
pub mod Memory
pub mod Ran
pub mod Found
pub mod Numbering
pub mod Lifecycle
