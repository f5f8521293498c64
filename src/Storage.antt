-- ===== src/Storage.antt =====
-- trust-registry/src/storage: the repository traits, what they promise, the adapters, and
-- their choice.
pub mod Factory
pub mod Repository
pub mod Key
pub mod Registry
pub mod Local
pub mod Redis
pub mod File
pub mod DynamoDb
