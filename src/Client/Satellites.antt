-- ===== src/Client/Satellites.antt =====
-- crates/nakama-client/src/change_rate.rs: which satellites a cancellation attaches, and the
-- account list of its instruction.
use nakama_sol_x.Prelude.{
  ℕ, ℤ, ◌≡◌, inl, inr, true, false, Option, none, some, ◌==◌, if◌then◌else◌, Result, ok, err, List,
  [], ◌∷◌, ◌++◌, arith, min_ℤ, Option-cases,
}
use nakama_sol_x.Program.State.{Pubkey, Subscription}
use nakama_sol_x.Program.Accounts.{Account, Pda, grace_seeds, paused_sub_seeds}
use nakama_sol_x.Escrow.{Escrow}
use nakama_sol_x.Escrow.Invariant.{Live}
use nakama_sol_x.Instructions.Cancel.{effective_now, is_cancellable}
use nakama_sol_x.Client.Addresses.{derive_grace_pda, derive_paused_sub_pda}
use nakama_sol_x.Client.Decode.{AccountDecodeError}
use nakama_sol_x.Client.Wire.{AccountMeta, new, new_readonly}
use nakama_sol_x.Client.Views.{SubscriptionStateByte, unknown, from_byte, state_byte}

-- The messages of the errors are left out, and the two keys of a mismatch are the caller's and the
-- account's.
pub data ChangeRateError : Type 0 where
  cross_mint_migration_unsupported old_subscription_not_found rpc borsh : ChangeRateError
  too_many_alive_sessions : (count : ℕ) → ChangeRateError
  decode : AccountDecodeError → ChangeRateError
  subscriber_mismatch : (opts actual : Pubkey) → ChangeRateError
  unknown_subscription_state : ℕ → ChangeRateError

unfoldable pub select_cancel_satellites :
    SubscriptionStateByte → Pda → Pubkey → Result ChangeRateError (Option Pubkey × Option Pubkey)
select_cancel_satellites SubscriptionStateByte.active pda subscription = ok (none, none)
select_cancel_satellites SubscriptionStateByte.exhausted pda subscription = ok (none, none)
select_cancel_satellites SubscriptionStateByte.cancelled pda subscription = ok (none, none)
select_cancel_satellites SubscriptionStateByte.grace_period pda subscription =
    ok (some (derive_grace_pda pda subscription), none)
select_cancel_satellites SubscriptionStateByte.paused pda subscription =
    ok (none, some (derive_paused_sub_pda pda subscription))
select_cancel_satellites (unknown b) pda subscription = err (unknown_subscription_state b)

-- The optional accounts at the end: an absent graced one before a present paused one is spelled by
-- the program's own address.
unfoldable pub satellite_metas : Pubkey → Option Pubkey → Option Pubkey → List AccountMeta
satellite_metas program_id none none = []
satellite_metas program_id (some g) none = new g false ∷ []
satellite_metas program_id (some g) (some p) = new g false ∷ new p false ∷ []
satellite_metas program_id none (some p) = new_readonly program_id false ∷ new p false ∷ []

-- The accounts of `build_cancel_ix`.
unfoldable pub cancel_metas :
    Pubkey
    → Pubkey
    → Pubkey
    → Pubkey
    → Pubkey
    → Pubkey
    → Pubkey
    → Pubkey
    → Option Pubkey
    → Option Pubkey
    → List AccountMeta
unfolding satellite_metas
cancel_metas token_program program_id signer subscription subscriber vault merchant_ata
      subscriber_ata graced paused =
    (new signer true
      ∷ new subscription false
      ∷ new subscriber false
      ∷ new vault false
      ∷ new merchant_ata false
      ∷ new subscriber_ata false
      ∷ new_readonly token_program false
      ∷ [])
    ++ satellite_metas program_id graced paused

-- The satellite that is loaded for an attached address, where the slot has its own address.
abbrev pub attached : {A : Type 0} → Pubkey → Option Pubkey → Option A → Option (Account A)
attached own none slot = none
attached own (some k) none = none
attached own (some k) (some a) = if k == own then some (record { key = k; info = a }) else none

-- The address of what a slot holds.
abbrev pub address_of : {A : Type 0} → Pubkey → Option A → Option Pubkey
address_of own none = none
address_of own (some a) = some own

-- For an escrow that satisfies the program's invariant and whose state can be cancelled, the client
-- attaches to the cancellation exactly the satellites that exist, each at the address that the
-- program derives from its seeds for this subscription; they load, and with them the program finds
-- the moment up to which it settles.
pub select_cancel_satellites-Live :
    (pda : Pda) (key : Pubkey) (s : Subscription) (e : Escrow) (now : ℤ)
    → Live pda key s e
    → is_cancellable s.state ≡ true
    → (g : Option Pubkey) × (p : Option Pubkey) × (select_cancel_satellites
          (from_byte (state_byte s.state))
          pda
          key
        ≡ ok (g, p))
      × (g
          ≡ address_of
              (pda.address (grace_seeds key) (pda.canonical_bump (grace_seeds key)))
              e.graced)
      × (p
          ≡ address_of
              (pda.address (paused_sub_seeds key) (pda.canonical_bump (paused_sub_seeds key)))
              e.paused)
      × (t : ℤ) × (effective_now s.state
            (attached
              (pda.address (grace_seeds key) (pda.canonical_bump (grace_seeds key)))
              g
              e.graced)
            (attached
              (pda.address (paused_sub_seeds key) (pda.canonical_bump (paused_sub_seeds key)))
              p
              e.paused)
            now
          ≡ ok t)
unfolding select_cancel_satellites effective_now
select_cancel_satellites-Live pda key s e now live cancellable = elim (Option-cases e.graced) [
  | inr (g, graced) ↦ (
    some (derive_grace_pda pda key),
    none,
    ground (arith, live),
    ground (arith, live),
    ground (arith, live),
    min_ℤ now g.grace_until,
    ground (arith, live),
  )
  | inl ungraced ↦ elim (Option-cases e.paused) [
    | inr (p, paused) ↦ (
      none,
      some (derive_paused_sub_pda pda key),
      ground (arith, live),
      ground (arith, live),
      ground (arith, live),
      p.paused_at,
      ground (arith, live),
    )
    | inl running ↦ (
      none,
      none,
      ground (arith, live),
      ground (arith, live),
      ground (arith, live),
      now,
      ground (arith, live),
    )
  ]
]
