-- ===== src/Escrow/Steps.antt =====
-- Every instruction keeps the invariant.
pub mod Charging
pub mod Settling
pub mod Cancelling
pub mod Funding
pub mod Starting
pub mod Transfers
pub mod Freezing
pub mod Sessions
pub mod Frame
