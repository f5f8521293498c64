-- ===== src/Setup.antt =====
-- trust-registry/bin (from the repository's root): the tools that prepare a service.
pub mod EnvFile
pub mod Acl
pub mod Did
pub mod Arguments
pub mod Document
pub mod Hosted
pub mod Tool
pub mod Secrets
