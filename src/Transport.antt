-- ===== src/Transport.antt =====
-- src/code_forge/transport/server.py: the HTTP adapter of the runtime.
pub mod Vocabulary
pub mod Parsing
pub mod Views
pub mod Handlers
pub mod Messages
pub mod Routes
pub mod Reads
pub mod Streams
pub mod Bounds
