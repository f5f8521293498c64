-- ===== src/Domain.antt =====
-- The domain of trust-registry/src/domain/mod.rs: identifiers, contexts, trust records and their
-- builder.
pub mod Ids
pub mod RecordType
pub mod Context
pub mod TrustRecord
pub mod Builder
