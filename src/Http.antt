-- ===== src/Http.antt =====
-- trust-registry/src/http: the errors as responses, the query endpoints, the DID document and the routes.
pub mod Error
pub mod Trqp
pub mod WellKnown
pub mod Routes
