-- ===== src/Client.antt =====
-- example/client/flex_await/main.cpp: the client that follows redirects and prints a body.
pub mod Libraries
pub mod Stream
pub mod Visit
pub mod State
pub mod Body
pub mod Request
pub mod Main
