-- ===== src/Didcomm.antt =====
-- trust-registry/src/didcomm: messages, the calls of the messaging SDK, the message
-- handlers and the listener.
pub mod Message
pub mod World
pub mod ProblemReport
pub mod Transport
pub mod Admin
pub mod Trqp
pub mod Listener
pub mod Handlers
pub mod Serving
pub mod DidDocument
