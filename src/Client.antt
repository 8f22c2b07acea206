-- ===== src/Client.antt =====
-- The off-chain client library of crates/nakama-client/src: what the keeper, the indexer and the
-- facilitator read off the accounts (Views, Decode), the status that they derive (Status), the
-- addresses (Addresses), the types of the wire (Wire), the pay sessions on the chain (Sessions), and
-- the two composite transactions: to subscribe again (Resubscribe) and to change the rate
-- (ChangeRate, with the satellites of its cancellation in Satellites).
pub mod Views
pub mod Decode
pub mod Addresses
pub mod Wire
pub mod Status
pub mod Satellites
pub mod Sessions
pub mod Resubscribe
pub mod ChangeRate
