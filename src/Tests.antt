-- ===== src/Tests.antt =====
-- Runs of the operations on small inputs, and the theorems at concrete inputs.
pub mod Reading
pub mod Writing
pub mod Serving
pub mod Browsing
pub mod Exchanging
pub mod Asking
pub mod Sharing
pub mod Conversing
pub mod Travelling
pub mod Running
