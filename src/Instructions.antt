-- ===== src/Instructions.antt =====
-- The eleven instructions of nakama/programs/nakama/src/instructions, one module each: the accounts
-- struct, its declarative constraints (`…_accounts`) and the handler (`…_handler`). A handler takes
-- the loaded accounts and the clock, and returns the accounts as it leaves them with its events.
pub mod CreatePlan
pub mod Subscribe
pub mod Charge
pub mod Cancel
pub mod Cleanup
pub mod TopUp
pub mod Pause
pub mod Resume
pub mod OpenSession
pub mod SettleUsage
pub mod CloseSession
