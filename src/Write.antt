-- ===== src/Write.antt =====
-- include/boost/http_io/impl/write.hpp: what the event loop does next to a write. The operations and
-- their laws are in the child modules.
pub mod Some
pub mod All
pub mod Relay
use http_io.Common.{ℕ}

-- Run the posted handler, or complete the pending write with a code after the stream has taken a
-- number of bytes.
pub data Event (C : Type 0) : Type 0 where
  run_posted : Event C
  written : C → ℕ → Event C
