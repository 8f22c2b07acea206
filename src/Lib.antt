-- ===== src/Lib.antt =====
-- Nakama: escrowed subscriptions that stream to a merchant, on Solana. A subscriber prefunds a vault,
-- the amount `min(elapsed * price / period, deposited)` unlocks over time, and anyone can have the
-- unlocked part moved to the merchant; either side can cancel, and the rest is refunded.
--
-- The parts, with the files that model them (paths from the root of the repository):
--
-- Program (nakama/programs/nakama/src/state.rs, error.rs, constants.rs): Program/State has the account
-- layouts, Program/Errors the error codes, Program/Events the events. Program/Accounts has what the
-- program calls and does not implement: the addresses derived from seeds (Pda) and the SPL token
-- program (SplToken), whose documented behaviour is the record SplLaws.
-- Stream: the streaming arithmetic that charge, cancel, pause and settle_usage share. Stream/Bounds
-- relates the checked machine arithmetic to the exact amount, Stream/Growth says how that moves.
-- Instructions (nakama/programs/nakama/src/instructions): one file per instruction, named after it.
-- Each has the accounts as a record, `*_accounts` for the constraints of `#[derive(Accounts)]`, and
-- `*_handler` for the handler. A handler takes the time of the `Clock` sysvar as an argument and
-- returns the changed accounts with the events, or the error. The child modules have the theorems:
-- Outcome for what a success does, Progress for when there is one.
-- Escrow (lib.rs): the accounts of one subscription together. Escrow/Process loads the accounts, checks
-- them, runs the handler and writes back, with Anchor's `init` and `close`; a failed transaction
-- changes nothing. Escrow/Invariant has the invariant, Escrow/Steps its preservation by each
-- instruction, Escrow/Runs that by any sequence of them. Escrow/Exact and Escrow/Ledger compare the
-- balance of the vault with the counters, Escrow/Timely the withdrawn amount with the earned one, and
-- Escrow/Exit lets the subscriber out. Escrow/Phases has the state machine of a subscription, with
-- who may move it.
-- Escrow/Wire has the instruction that a request stands for: its accounts in the order that the program
-- declares, and its data. Escrow/Transactions has transactions of several instructions, which take
-- effect only together, and the two that the client composes.
-- Client (crates/nakama-client/src): Client/Views has the decoded accounts of accounts.rs,
-- Client/Decode its decodings (Borsh is a parameter), Client/Addresses the derivations of pda.rs and
-- Client/Status the derived status of computed_status.rs. Client/Wire has the types of the Solana
-- crates that the client fills in, the discriminators of discriminator.rs, and what the client calls:
-- the records Crates and Rpc. Client/Sessions lists the open pay sessions and Client/Resubscribe sends
-- the composite transaction of resubscribe.rs. Client/ChangeRate builds that of change_rate.rs, and
-- Client/Satellites picks the satellites of its cancellation.
-- Facilitator (crates/nakama-x402-facilitator/src): Facilitator/Auth has the bearer-token check of
-- auth.rs, Facilitator/TopUp and Facilitator/ComputedStatus the endpoints of handlers/top_up.rs and
-- handlers/computed_status.rs with what they call as the record Outside, Facilitator/Metas the account
-- lists of the other handlers, Facilitator/Config and Facilitator/Start the start of config.rs, lib.rs
-- and state.rs, with the parsers, the standard input and the socket as the records Parsers and Host,
-- and Facilitator/Server the router of lib.rs with the statuses of error.rs.
-- Tests has concrete inputs, a history of an escrow that goes through every state, and the properties
-- applied at them, with a token program and an address scheme that satisfy the assumptions.
--
-- Numbers: `u64` and `u128` are natural numbers and `i64` is an integer, both without bound; every
-- checked operation, cast and `as` of the source is written out in Prelude/Words with the bound it
-- tests. There is no fuel: nothing in the code loops but over lists.
--
-- Not modelled: rent and lamports, compute units, the layout of accounts in bytes, the freezing of token
-- accounts, reentrancy through the token program, the sockets and logs of the facilitator, and the
-- TypeScript client. Borsh, Base64, SHA-256, the RPC node and the parsers are parameters. An RPC node is
-- a function: what it answers does not change while a client asks. Signatures are the signer's key in
-- the request: the runtime's check that it signed is assumed.
pub mod Prelude
pub mod Program
pub mod Stream
pub mod Instructions
pub mod Escrow
pub mod Client
pub mod Facilitator
pub mod Tests
