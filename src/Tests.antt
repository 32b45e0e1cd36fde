-- ===== src/Tests.antt =====
-- Runs on concrete inputs.
pub mod Bytes
pub mod Runs
mod Witnesses
mod Roundtrip
mod Cursor
