-- ===== src/Instructions/Cancel/Outcome.antt =====
-- What a successful cancel does.
use nakama_sol_x.Prelude.{
  ℕ, ℤ, ◌≤ℤ◌, ◌≤◌, ◌-◌, ◌+◌, ◌≡◌, ◌⊎◌, inl, inr, some, ok, arith, List, Result-cases,
}
use nakama_sol_x.Program.Errors.{NakamaError}
use nakama_sol_x.Program.State.{Subscription, SubscriptionState}
use nakama_sol_x.Program.Events.{Event}
use nakama_sol_x.Program.Accounts.{Pda, SplToken, Tokens, vault_seeds, authority_of}
use nakama_sol_x.Stream.{unlocked_at}
use nakama_sol_x.Stream.Bounds.{IsSound, streamed, unlocked_at-eq-streamed}
use nakama_sol_x.Instructions.Cancel.{
  Cancel, cancel_accounts, cancel_handler, settlement, effective_now, transfer_positive,
}

-- The settlement splits what the escrow still owes.
pub settlement-eq :
    (s : Subscription) (now : ℤ) (claim refund : ℕ)
    → IsSound s
    → s.stream_start ≤ℤ now
    → settlement s now ≡ ok (claim, refund)
    → (s.withdrawn_amount + claim ≡ streamed s now) × (streamed s now + refund ≡ s.deposited_amount)
unfolding settlement
settlement-eq s now claim refund sound le h =
    elim (Result-cases (
      unlocked_at NakamaError.math_overflow s.price s.period s.deposited_amount s.stream_start
        now)) [
          | inl (u, e) ↦
              ground (arith, unlocked_at-eq-streamed NakamaError.math_overflow s now u sound)
          | inr (x, e) ↦ ground arith
        ]

-- `t` is the moment that the settlement counts as now; the two token tables are those between the
-- payments.
pub record Cancelled (spl : SplToken) (c c' : Cancel) (now t : ℤ) (settled refunded : Tokens)
    : Type 0 where
  pub authorised :
      (c.signer ≡ c.subscription.info.subscriber) ⊎ (c.signer ≡ c.subscription.info.merchant)
  pub effective :
      effective_now c.subscription.info.state c.graced_subscription c.paused_subscription now ≡ ok t
  pub in_order : c.subscription.info.stream_start ≤ℤ t
  pub not_overdrawn : c.subscription.info.withdrawn_amount ≤ streamed c.subscription.info t
  pub paid :
      transfer_positive spl c.vault c.merchant_ata
        (streamed c.subscription.info t - c.subscription.info.withdrawn_amount)
        c.tokens
      ≡ ok settled
  pub refund :
      transfer_positive spl c.vault c.subscriber_ata
        (c.subscription.info.deposited_amount - streamed c.subscription.info t)
        settled
      ≡ ok refunded
  pub vault_closed : spl.close_account c.vault refunded ≡ some c'.tokens
  pub written : c'.subscription.info ≡ record c.subscription.info {
    state = SubscriptionState.cancelled;
    last_charge_at = now;
    withdrawn_amount = streamed c.subscription.info t;
  }

pub cancel_handler-Cancelled :
    (spl : SplToken) (c c' : Cancel) (now : ℤ) (events : List Event)
    → IsSound c.subscription.info
    → cancel_handler spl c now ≡ ok (c', events)
    → (t : ℤ) × (settled : Tokens) × (refunded : Tokens) × Cancelled spl c c' now t settled refunded
unfolding cancel_handler
cancel_handler-Cancelled spl c c' now events sound h =
    elim (Result-cases (effective_now s.state c.graced_subscription c.paused_subscription now)) [
      | inr (x, e) ↦ absurd (ground arith)
      | inl (t, e) ↦ elim (Result-cases (settlement s t)) [
        | inr (x, e1) ↦ absurd (ground arith)
        | inl ((claim, refund), e1) ↦
            elim (Result-cases (transfer_positive spl c.vault c.merchant_ata claim c.tokens)) [
              | inr (x, e2) ↦ absurd (ground arith)
              | inl (settled, e2) ↦
                  elim (Result-cases
                    (transfer_positive spl c.vault c.subscriber_ata refund settled)) [
                      | inr (x, e3) ↦ absurd (ground arith)
                      | inl (refunded, e3) ↦ (
                        t,
                        settled,
                        refunded,
                        ground (arith, settlement-eq s t claim refund sound),
                      )
                    ]
            ]
      ]
    ]
  where
    open c.subscription use {info as s}

pub cancel_accounts_lem :
    (pda : Pda) (c : Cancel)
    → cancel_accounts pda c ≡ ok tt
    → (c.vault ≡ pda.address (vault_seeds c.subscription.key) c.subscription.info.vault_bump)
      × (c.merchant_ata ≡ c.subscription.info.merchant_ata)
      × (c.subscriber ≡ c.subscription.info.subscriber)
      × (authority_of (c.tokens c.subscriber_ata) ≡ some c.subscription.info.subscriber)
      × (authority_of (c.tokens c.vault) ≡ some c.subscription.key)
unfolding cancel_accounts
cancel_accounts_lem pda c h = ground arith
