-- ===== src/Samples.antt =====
-- Concrete inputs for the theorems and the tests.
pub mod WireStream
pub mod Library
pub mod Table
mod Decoded
mod Runs
mod Session
mod Examples
mod Scans
mod Visitors
mod Failures
mod Memory
mod Entries
