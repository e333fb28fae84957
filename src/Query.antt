-- ===== src/Query.antt =====
-- `QueryImpl` of querying.cpp: a query string is compiled to a chain of visitors, and run.
pub mod Keys
pub mod Prefix
pub mod Part
pub mod Compile
pub mod Totality
