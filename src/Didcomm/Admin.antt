-- ===== src/Didcomm/Admin.antt =====
-- trust-registry/src/didcomm/handlers/admin: the requests that administer the records.
pub mod Messages
pub mod Handler
