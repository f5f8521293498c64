-- ===== src/Tests.antt =====
-- Concrete parameters, and the properties applied at concrete inputs.
pub mod Coding
pub mod Fixtures
pub mod Service
pub mod Values
pub mod Environment
pub mod Identity
pub mod Table
pub mod Records
pub mod Database
pub mod Adapters
pub mod Scanning
pub mod Rows
pub mod Listening
pub mod Guarding
pub mod Setup
pub mod Hosting
pub mod Starting
pub mod Client
