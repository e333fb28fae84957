-- ===== src/Rows/Fields.antt =====
-- One field of a message, from its tag to its end: what it makes of a state of the traverser whose
-- current visitor is a field selector.
pub mod Selector
pub mod Round
pub mod Shown
pub mod Scalars
pub mod Contents
pub mod Treated
pub mod Delimited
pub mod Picked
