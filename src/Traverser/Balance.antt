-- ===== src/Traverser/Balance.antt =====
-- What a scan does to the depth and to the stack of visitors.
pub mod Relations
pub mod Steps
pub mod Reads
pub mod Scan
pub mod Messages
