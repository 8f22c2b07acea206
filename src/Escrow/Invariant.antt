-- ===== src/Escrow/Invariant.antt =====
-- What holds of an escrow between transactions.
use mathlib.Core.Path.{subst}
use nakama_sol_x.Prelude.{
  sym, arith, inl, inr, Option-cases, ℕ, ◌≤◌, ◌+◌, ◌≡◌, ◌≢◌, ◌⊎◌, Option, none, some, is_some,
}
use nakama_sol_x.Program.State.{
  Pubkey, Subscription, SubscriptionState, is_grace, is_paused, PaySession, session_state_byte,
  opened,
}
use nakama_sol_x.Program.Accounts.{Pda, balance, authority_of, vault_seeds}
use nakama_sol_x.Stream.Bounds.{IsSound}
use nakama_sol_x.Escrow.{Escrow}

abbrev pub vault_of : Pda → Pubkey → Pubkey
vault_of pda key = pda.address (vault_seeds key) (pda.canonical_bump (vault_seeds key))

-- The escrow of a live subscription account: its numbers are sound, a satellite exists exactly in
-- the state that it belongs to, and until the cancellation the vault is the subscription's own and
-- holds at least what is deposited and not withdrawn.
pub record Live (pda : Pda) (key : Pubkey) (s : Subscription) (e : Escrow) : Type 0 where
  pub sound : IsSound s
  pub graced_iff : is_some e.graced ≡ is_grace s.state
  pub paused_iff : is_some e.paused ≡ is_paused s.state
  pub never_exhausted : s.state ≢ SubscriptionState.exhausted
  pub vault_bump : s.vault_bump ≡ pda.canonical_bump (vault_seeds key)
  pub separate : s.merchant_ata ≢ vault_of pda key
  pub vault_owned :
      s.state ≢ SubscriptionState.cancelled → authority_of (e.tokens (vault_of pda key)) ≡ some key
  pub funded :
      s.state ≢ SubscriptionState.cancelled
      → s.deposited_amount ≤ s.withdrawn_amount + balance e.tokens (vault_of pda key)
  pub vault_gone : s.state ≡ SubscriptionState.cancelled → e.tokens (vault_of pda key) ≡ none

-- With no subscription account there is no satellite either.
abbrev pub IsSlot : Pda → Pubkey → Option Subscription → Escrow → Type 0
IsSlot pda key none e = (e.graced ≡ none) × (e.paused ≡ none)
IsSlot pda key (some s) e = Live pda key s e

abbrev pub IsEscrow : Pda → Pubkey → Escrow → Type 0
IsEscrow pda key e = IsSlot pda key e.subscription e

-- A pay session between transactions: never locked, within its cap, and not paying into the vault.
pub record IsSession (pda : Pda) (key : Pubkey) (x : PaySession) : Type 0 where
  pub parent : x.subscription ≡ key
  pub unlocked : x.state ≡ session_state_byte opened
  pub within_cap : (x.reservation_cap ≡ 0) ⊎ (x.usage_amount ≤ x.reservation_cap)
  pub elsewhere : x.merchant_ata ≢ vault_of pda key

abbrev pub HasSessions : Pda → Pubkey → Escrow → Type 0
HasSessions pda key e = (id : ℕ) (x : PaySession) → e.sessions id ≡ some x → IsSession pda key x

pub IsEscrow-Live :
    (pda : Pda) (key : Pubkey) (e : Escrow) (s : Subscription)
    → IsEscrow pda key e
    → e.subscription ≡ some s
    → Live pda key s e
IsEscrow-Live pda key e s h eq = subst (λ o. IsSlot pda key o e) eq h

-- Changing the pay sessions alone keeps the rest.
pub IsEscrow-sessions :
    (pda : Pda) (key : Pubkey) (e : Escrow) (sessions : ℕ → Option PaySession)
    → IsEscrow pda key e
    → IsEscrow pda key (record e { sessions = sessions })
IsEscrow-sessions pda key e sessions h = elim (Option-cases e.subscription) [
  | inl free ↦ ground arith
  | inr (s, eq) ↦
      let live = IsEscrow-Live pda key e s h eq in
      let kept : Live pda key s (record e { sessions = sessions }) = ground (arith, live) in
      subst (λ o. IsSlot pda key o (record e { sessions = sessions })) (sym eq) kept
]
