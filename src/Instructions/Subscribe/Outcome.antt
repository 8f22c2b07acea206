-- ===== src/Instructions/Subscribe/Outcome.antt =====
-- What a successful subscription sets up.
use nakama_sol_x.Prelude.{
  ℕ, ℤ, ◌<◌, ◌*◌, ◌≡◌, ◌≢◌, ◌/◌, ◌+ℤ◌, pos, pos_part, some, ok, arith, List, u64_bound, InI64,
}
use nakama_sol_x.Program.State.{Subscription, SubscriptionState}
use nakama_sol_x.Program.Events.{Event}
use nakama_sol_x.Program.Accounts.{Account, Pda, SplToken, Tokens, vault_seeds}
use nakama_sol_x.Stream.Bounds.{IsSound}
use nakama_sol_x.Instructions.Subscribe.{Subscribe, subscribe_accounts, subscribe_handler}

pub record Started (spl : SplToken) (c : Subscribe) (periods : ℕ) (now : ℤ) (s : Subscription)
    (tokens : Tokens) : Type 0 where
  pub prefunded : spl.transfer c.subscriber_ata c.vault s.deposited_amount c.tokens ≡ some tokens
  pub deposit : s.deposited_amount ≡ c.plan.info.price * periods
  pub some_periods : 0 < periods
  pub nothing_drawn : s.withdrawn_amount ≡ 0
  pub started_now : s.stream_start ≡ now
  pub active : s.state ≡ SubscriptionState.active
  pub price_snapshot : s.price ≡ c.plan.info.price
  pub period_snapshot : s.period ≡ c.plan.info.period
  pub own_bump : s.bump ≡ c.subscription_bump
  pub owner : s.subscriber ≡ c.subscriber
  pub plan_snapshot : s.plan ≡ c.plan.key
  pub mint_snapshot : s.token_mint ≡ c.plan.info.token_mint
  pub own_vault : s.vault_bump ≡ c.vault_bump
  pub authority_snapshot : s.merchant ≡ c.plan.info.merchant
  pub rate : s.rate_per_second ≡ c.plan.info.price / pos_part c.plan.info.period
  pub some_rate : 0 < s.rate_per_second
  pub created_now : s.created_at ≡ now
  pub not_charged : s.last_charge_at ≡ pos 0
  pub first_due : s.next_charge_at ≡ now +ℤ c.plan.info.period
  pub merchant_snapshot : s.merchant_ata ≡ c.plan.info.merchant_ata
  pub distinct : c.subscriber_ata ≢ c.vault
  pub sound : IsSound s

-- With a plan's price in a `u64` and its period and the clock in an `i64`, a successful
-- subscription moved price times periods, at least one, from the subscriber to the vault. It is
-- active from now on with nothing drawn and no charge yet, due a period from now, with the signer,
-- the plan, the plan's price, period, mint, merchant and merchant account, the rate in whole base
-- units per second, which is positive, and its own bumps, and it is sound.
pub subscribe_handler-Started :
    (spl : SplToken) (c : Subscribe) (periods : ℕ) (now : ℤ) (sub : Account Subscription)
    (tokens : Tokens) (events : List Event)
    → c.plan.info.price < u64_bound
    → InI64 c.plan.info.period
    → InI64 now
    → subscribe_handler spl c periods now ≡ ok (sub, tokens, events)
    → Started spl c periods now sub.info tokens
unfolding subscribe_handler
subscribe_handler-Started spl c periods now sub tokens events price period clock h = ground arith

pub subscribe_accounts_lem :
    (pda : Pda) (spl : SplToken) (c c' : Subscribe)
    → subscribe_accounts pda spl c ≡ ok c'
    → (c' ≡ record c { tokens = c'.tokens })
      × (spl.init_account c.vault c.token_mint c.subscription c.tokens ≡ some c'.tokens)
      × (c.vault ≡ pda.address (vault_seeds c.subscription) c.vault_bump)
unfolding subscribe_accounts
subscribe_accounts_lem pda spl c c' h = ground arith

-- The vault is opened for the mint of the plan.
pub subscribe_accounts-mint :
    (pda : Pda) (spl : SplToken) (c c' : Subscribe)
    → subscribe_accounts pda spl c ≡ ok c'
    → c.token_mint ≡ c.plan.info.token_mint
unfolding subscribe_accounts
subscribe_accounts-mint pda spl c c' h = ground arith
