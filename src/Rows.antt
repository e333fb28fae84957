-- ===== src/Rows.antt =====
-- What a query of field selectors and map selectors means: the rows that it selects from a decoded message, told
-- without visitors, and the runs of the visitors that give those rows.
pub mod Spec
pub mod Zipper
pub mod Fields
pub mod Submessages
pub mod Messages
pub mod Parts
pub mod Texts
pub mod Queries
pub mod Functions
