-- ===== src/Tests.antt =====
-- Concrete runs of the model, and the properties applied at concrete inputs.
pub mod Token
pub mod Fixtures
pub mod Instructions
pub mod Sessions
pub mod Streams
pub mod Clients
pub mod Facilitators
pub mod Servers
pub mod Renewals
pub mod Migrations
pub mod Decoding
pub mod Escrows
pub mod Exits
