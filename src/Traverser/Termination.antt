-- ===== src/Traverser/Termination.antt =====
-- The traverser comes to an end on every input.
pub mod Visitors
pub mod Invariant
pub mod Steps
pub mod Scan
pub mod Run
