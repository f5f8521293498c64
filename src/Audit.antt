-- ===== src/Audit.antt =====
-- trust-registry/src/audit: the audit entries, their builder, and the logger that writes them.
pub mod Model
pub mod Logger
