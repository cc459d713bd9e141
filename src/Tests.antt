-- ===== src/Tests.antt =====
-- Concrete inputs: the theorems at values that meet their hypotheses.
pub mod Toy
mod ChainTests
mod RegistryTests
mod AllocationTests
mod CacheTests
mod HeadTests
mod QueryTests
mod MigrateTests
mod HybridTests
mod HandleTests
mod ContextTests
mod KeystoreTests
pub mod SagaTests
mod JoinTests
mod OpenTests
