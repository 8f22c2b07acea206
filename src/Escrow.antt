-- ===== src/Escrow.antt =====
-- One escrow over time: the accounts at the addresses derived from a subscriber and a plan, and the
-- instructions that transactions run on them. Each instruction loads its accounts, checks their
-- constraints, runs the handler and writes the accounts back; a failed one changes nothing.
-- The dispatch is the `nakama` module of nakama/programs/nakama/src/lib.rs.
pub mod Process
pub mod Invariant
pub mod Steps
pub mod Runs
pub mod Phases
pub mod Exact
pub mod Ledger
pub mod Timely
pub mod Wire
pub mod Transactions
pub mod Exit
use nakama_sol_x.Prelude.{
  ℕ, ℤ, pos, Bool, true, false, Option, none, some, if◌then◌else◌, ◌==◌, Result, ok, err, ok_or,
  ◌>>=◌, ◌>>◌, require, List, [], ◌∷◌, ◌++◌,
}
use nakama_sol_x.Program.Errors.{Error, token_error, anchor, AnchorError, Checked}
use nakama_sol_x.Program.State.{
  Pubkey, Plan, Subscription, GracedSubscription, PausedSubscription, PaySession,
}
use nakama_sol_x.Program.Events.{Event}
use nakama_sol_x.Program.Accounts.{
  Account, Pda, SplToken, Tokens, load, load_token, check_free, sub_seeds, vault_seeds, grace_seeds,
  paused_sub_seeds, pay_session_seeds,
}

-- `none` is an account that does not exist.
pub record Escrow : Type 0 where
  pub subscription : Option Subscription
  pub graced : Option GracedSubscription
  pub paused : Option PausedSubscription
  pub sessions : ℕ → Option PaySession
  pub tokens : Tokens

-- A transaction: who signs it, the token accounts it names, which optional accounts it attaches,
-- and its arguments. `token_transfer` is a transfer that somebody makes with the token program
-- itself.
pub data Request : Type 0 where
  subscribe : Pubkey → Pubkey → Pubkey → Pubkey → ℕ → Request
  charge : Pubkey → Pubkey → Pubkey → Pubkey → Bool → Request
  cancel : Pubkey → Pubkey → Pubkey → Pubkey → Pubkey → Bool → Bool → Request
  cleanup : Pubkey → Request
  top_up : Pubkey → Pubkey → Pubkey → Bool → ℕ → Request
  pause : Pubkey → Request
  resume : Pubkey → Request
  open_session : Pubkey → ℕ → Pubkey → ℕ → Request
  settle_usage : Pubkey → Pubkey → Pubkey → ℕ → ℕ → Request
  close_session : Pubkey → ℕ → Request
  token_transfer : Pubkey → Pubkey → Pubkey → ℕ → Request

abbrev pub signer_of : Request → Pubkey
signer_of (subscribe signer mint vault ata periods) = signer
signer_of (charge signer plan vault ata attach) = signer
signer_of (cancel signer subscriber vault ata sub_ata graced paused) = signer
signer_of (cleanup signer) = signer
signer_of (top_up signer vault ata attach amount) = signer
signer_of (pause signer) = signer
signer_of (resume signer) = signer
signer_of (open_session signer id facilitator limit) = signer
signer_of (settle_usage signer vault ata id amount) = signer
signer_of (close_session signer id) = signer
signer_of (token_transfer signer source target amount) = signer

-- The contents of an account that `init` has just allocated.
abbrev blank_graced : GracedSubscription
blank_graced = record { subscription = 0; entered_grace_at = pos 0; grace_until = pos 0 }

abbrev blank_paused : PausedSubscription
blank_paused = record { subscription = 0; paused_at = pos 0; bump = 0 }

-- `Option<Account>` with `init`: creates the account where the caller attached its address.
abbrev pub init_optional :
    Bool → Option GracedSubscription → Pubkey → Checked (Option (Account GracedSubscription))
init_optional false slot k = ok none
init_optional true slot k = do check_free slot; ok (some (record { key = k; info = blank_graced }))

-- `Option<Account>` on an account that exists.
abbrev pub load_optional : {A : Type 0} → Bool → Option A → Pubkey → Checked (Option (Account A))
load_optional false slot k = ok none
load_optional true slot k = do a ← load slot; ok (some (record { key = k; info = a }))

-- What the slot holds after the instruction: the attached account, or what it held.
abbrev pub stored : {A : Type 0} → Option (Account A) → Option A → Option A
stored none slot = slot
stored (some a) slot = some a.info

-- `close = …` on an optional account.
abbrev pub closed_if : {A : Type 0} → Bool → Option A → Option A
closed_if true slot = none
closed_if false slot = slot

abbrev pub update : (ℕ → Option PaySession) → ℕ → Option PaySession → ℕ → Option PaySession
update f k v j = if j == k then v else f j
