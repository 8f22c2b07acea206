-- ===== src/Instructions/TopUp/Outcome.antt =====
-- What a successful top-up does, from each state.
use nakama_sol_x.Prelude.{
  ℕ, ℤ, ◌+ℤ◌, ◌-ℤ◌, ◌≤ℤ◌, ◌<◌, ◌+◌, ◌≡◌, ◌≢◌, inl, inr, Option-cases, some, ok, arith, List,
  u64_bound, InI64,
}
use nakama_sol_x.Program.State.{SubscriptionState, GracedSubscription}
use nakama_sol_x.Program.Events.{Event}
use nakama_sol_x.Program.Accounts.{Account, Pda, SplToken, vault_seeds, authority_of}
use nakama_sol_x.Instructions.TopUp.{TopUp, top_up_accounts, top_up_handler}

-- In every state the deposit and the vault grow by the amount.
pub record ToppedUp (spl : SplToken) (c c' : TopUp) (amount : ℕ) : Type 0 where
  pub positive : 0 < amount
  pub paid : spl.transfer c.subscriber_ata c.vault amount c.tokens ≡ some c'.tokens
  pub in_range : c.subscription.info.deposited_amount + amount < u64_bound

-- Outside the grace period nothing else changes.
pub record Funded (c c' : TopUp) (amount : ℕ) : Type 0 where
  pub funded : c'.subscription.info ≡ record c.subscription.info {
    deposited_amount = c.subscription.info.deposited_amount + amount;
  }

-- Out of the grace period the stream restarts, with its anchor moved on by the time in grace.
pub record Recovered (c c' : TopUp) (amount : ℕ) (now : ℤ) (g : Account GracedSubscription)
    : Type 0 where
  pub attached : c.graced_subscription ≡ some g
  pub in_order : g.info.entered_grace_at ≤ℤ now
  pub start_range : InI64 (c.subscription.info.stream_start +ℤ (now -ℤ g.info.entered_grace_at))
  pub recovered : c'.subscription.info ≡ record c.subscription.info {
    deposited_amount = c.subscription.info.deposited_amount + amount;
    stream_start = c.subscription.info.stream_start +ℤ (now -ℤ g.info.entered_grace_at);
    state = SubscriptionState.active;
  }

module _ (spl : SplToken) (c c' : TopUp) (amount : ℕ) (now : ℤ) (events : List Event) where
  pub top_up_handler-ToppedUp :
      top_up_handler spl c amount now ≡ ok (c', events) → ToppedUp spl c c' amount
  unfolding top_up_handler
  top_up_handler-ToppedUp h = ground arith

  pub top_up_handler-Funded :
      c.subscription.info.state ≢ SubscriptionState.grace_period
      → top_up_handler spl c amount now ≡ ok (c', events)
      → Funded c c' amount
  unfolding top_up_handler
  top_up_handler-Funded ne h = ground arith

  pub top_up_handler-Recovered :
      c.subscription.info.state ≡ SubscriptionState.grace_period
      → top_up_handler spl c amount now ≡ ok (c', events)
      → (g : Account GracedSubscription) × Recovered c c' amount now g
  unfolding top_up_handler
  top_up_handler-Recovered grace h = elim (Option-cases c.graced_subscription) [
    | inl missing ↦ absurd (ground arith)
    | inr (g, attached) ↦ (g, ground arith)
  ]

pub top_up_accounts_lem :
    (pda : Pda) (c : TopUp)
    → top_up_accounts pda c ≡ ok tt
    → (c.vault ≡ pda.address (vault_seeds c.subscription.key) c.subscription.info.vault_bump)
      × (c.subscription.info.subscriber ≡ c.subscriber)
      × (authority_of (c.tokens c.subscriber_ata) ≡ some c.subscriber)
      × (authority_of (c.tokens c.vault) ≡ some c.subscription.key)
unfolding top_up_accounts
top_up_accounts_lem pda c h = ground arith
