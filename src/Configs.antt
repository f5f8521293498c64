-- ===== src/Configs.antt =====
-- trust-registry/src/configs: what the environment asks for.
pub mod Environment
pub mod Storage
pub mod Loaders
pub mod Didcomm
pub mod Server
pub mod Registry
