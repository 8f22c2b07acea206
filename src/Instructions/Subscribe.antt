-- ===== src/Instructions/Subscribe.antt =====
-- subscribe.rs: a subscriber opens the escrow of a plan and prefunds it.
pub mod Outcome
pub mod Progress
use nakama_sol_x.Prelude.{
  ℕ, leb, ltb_ℤ, ℤ, pos, ◌==◌, not, ok, ok_or, ◌>>=◌, ◌>>◌, require, List, [], ◌∷◌, checked_div,
  checked_mul_u64, checked_add_i64, i64_as_u64,
}
use nakama_sol_x.Program.Errors.{NakamaError, custom, token_error, AnchorError, anchor, Checked}
use nakama_sol_x.Program.State.{Pubkey, Plan, Subscription, SubscriptionState}
use nakama_sol_x.Program.Events.{Event, subscription_started}
use nakama_sol_x.Program.Accounts.{
  Account, Pda, check_seeds, plan_seeds, sub_seeds, vault_seeds, Tokens, SplToken, load_token,
  check_mint, check_authority,
}

-- `subscription` and `vault` are the addresses being created, with their canonical bumps.
pub record Subscribe : Type 0 where
  pub subscriber : Pubkey
  pub plan : Account Plan
  pub token_mint : Pubkey
  pub subscription : Pubkey
  pub subscription_bump : ℕ
  pub vault : Pubkey
  pub vault_bump : ℕ
  pub subscriber_ata : Pubkey
  pub tokens : Tokens

-- The constraints, with the `init` of the vault.
unfoldable pub subscribe_accounts : Pda → SplToken → Subscribe → Checked Subscribe
subscribe_accounts pda spl c = do
  let plan = c.plan.info
  check_seeds pda c.plan.key (plan_seeds plan.merchant plan.plan_id) plan.bump
  require (c.token_mint == plan.token_mint) (anchor AnchorError.constraint_address)
  check_seeds pda c.subscription (sub_seeds c.subscriber c.plan.key) c.subscription_bump
  check_seeds pda c.vault (vault_seeds c.subscription) c.vault_bump
  tokens ← ok_or (spl.init_account c.vault c.token_mint c.subscription c.tokens) token_error
  subscriber_ata ← load_token tokens c.subscriber_ata
  check_mint subscriber_ata c.token_mint
  check_authority subscriber_ata c.subscriber
  ok (record c { tokens = tokens })

unfoldable pub subscribe_handler :
    SplToken → Subscribe → ℕ → ℤ → Checked (Account Subscription × Tokens × List Event)
unfolding checked_div checked_mul_u64 checked_add_i64
subscribe_handler spl c periods_to_prefund now = do
  let plan = c.plan.info
  require (not (c.subscriber_ata == c.vault)) (custom NakamaError.duplicate_ata_and_vault)
  require (ltb_ℤ (pos 0) plan.period) (custom NakamaError.zero_period)
  require (leb 1 periods_to_prefund) (custom NakamaError.zero_periods_to_fund)
  rate_per_second ←
      ok_or (checked_div plan.price (i64_as_u64 plan.period)) (custom NakamaError.math_overflow)
  require (leb 1 rate_per_second) (custom NakamaError.zero_rate_per_second)
  deposited_amount ←
      ok_or (checked_mul_u64 plan.price periods_to_prefund) (custom NakamaError.math_overflow)
  tokens ← ok_or (spl.transfer c.subscriber_ata c.vault deposited_amount c.tokens) token_error
  next_charge_at ← ok_or (checked_add_i64 now plan.period) (custom NakamaError.math_overflow)
  ok (
    record {
      key = c.subscription;
      info = record {
        next_charge_at = next_charge_at;
        subscriber = c.subscriber;
        plan = c.plan.key;
        price = plan.price;
        period = plan.period;
        token_mint = plan.token_mint;
        merchant = plan.merchant;
        merchant_ata = plan.merchant_ata;
        state = SubscriptionState.active;
        bump = c.subscription_bump;
        vault_bump = c.vault_bump;
        created_at = now;
        last_charge_at = pos 0;
        deposited_amount = deposited_amount;
        withdrawn_amount = 0;
        rate_per_second = rate_per_second;
        stream_start = now;
      };
    },
    tokens,
    subscription_started (record {
      subscription = c.subscription;
      subscriber = c.subscriber;
      plan = c.plan.key;
      deposited_amount = deposited_amount;
      rate_per_second = rate_per_second;
      stream_start = now;
    })
        ∷ [],
  )
