-- ===== src/Program.antt =====
-- The on-chain program, nakama/programs/nakama/src: its error codes (Errors), account layouts
-- (State), events (Events), and the addresses, accounts and token program it works on (Accounts).
pub mod Errors
pub mod State
pub mod Events
pub mod Accounts
