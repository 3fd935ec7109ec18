-- ===== src/Server.antt =====
-- example/server: the files that make up the example HTTP server.
pub mod Path
pub mod Mime
pub mod Request
pub mod Worker
pub mod Lifecycle
pub mod Array
pub mod Setup
pub mod Main
