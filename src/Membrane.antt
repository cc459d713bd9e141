-- ===== src/Membrane.antt =====
-- crates/hansa/src/membrane/: the federated query path.
pub mod Allocation
pub mod Scoring
pub mod Query
pub mod Async
