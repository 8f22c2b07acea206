-- ===== src/Facilitator.antt =====
-- The x402 facilitator of crates/nakama-x402-facilitator/src: its bearer-token check (Auth), its
-- top-up endpoint (TopUp) and its status endpoint (ComputedStatus), its account lists (Metas), its
-- configuration (Config), its router (Server) and its start (Start).
pub mod TopUp
pub mod ComputedStatus
pub mod Auth
pub mod Metas
pub mod Config
pub mod Server
pub mod Start
