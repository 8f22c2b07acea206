-- ===== src/Instructions/Subscribe/Progress.antt =====
-- When a subscription goes through.
use nakama_sol_x.Prelude.{
  ℕ, ℤ, pos, ◌+ℤ◌, ◌*◌, ◌/◌, ◌<◌, ◌≤◌, ◌≡◌, ◌≢◌, ltb_ℤ, leb, true, some, ok, arith, List,
  Result-cases, inl, inr, u64_bound, i64_as_u64, is_i64, checked_div, checked_mul_u64,
  checked_add_i64,
}
use nakama_sol_x.Program.State.{Plan, Subscription}
use nakama_sol_x.Program.Events.{Event}
use nakama_sol_x.Program.Accounts.{
  Account, Pda, SplToken, SplLaws, Tokens, TokenAccount, plan_seeds, sub_seeds, vault_seeds,
}
use nakama_sol_x.Instructions.Subscribe.{Subscribe, subscribe_accounts, subscribe_handler}

-- The terms of the plan and the request fit: the numbers that the handler computes are in range.
pub record HasTerms (plan : Plan) (periods : ℕ) (now : ℤ) : Type 0 where
  pub period_pos : ltb_ℤ (pos 0) plan.period ≡ true
  pub some_periods : leb 1 periods ≡ true
  pub some_rate : 1 ≤ plan.price / i64_as_u64 plan.period
  pub deposit_range : plan.price * periods < u64_bound
  pub next_range : is_i64 (now +ℤ plan.period) ≡ true

-- The accounts that the instruction names are what it asks for, before the vault is created.
pub record HasAccounts (pda : Pda) (c : Subscribe) (wallet : TokenAccount) : Type 0 where
  pub plan_address :
      c.plan.key
      ≡ pda.address (plan_seeds c.plan.info.merchant c.plan.info.plan_id) c.plan.info.bump
  pub mint : c.token_mint ≡ c.plan.info.token_mint
  pub address : c.subscription ≡ pda.address (sub_seeds c.subscriber c.plan.key) c.subscription_bump
  pub vault_address : c.vault ≡ pda.address (vault_seeds c.subscription) c.vault_bump
  pub separate : c.subscriber_ata ≢ c.vault
  pub held : c.tokens c.subscriber_ata ≡ some wallet
  pub wallet_mint : wallet.mint ≡ c.token_mint
  pub wallet_owner : wallet.authority ≡ c.subscriber

module _ (pda : Pda) (spl : SplToken) (laws : SplLaws spl) (c : Subscribe) (wallet : TokenAccount)
    (created : Tokens) (accounts : HasAccounts pda c wallet)
    (init : spl.init_account c.vault c.token_mint c.subscription c.tokens ≡ some created) where
  kept : created c.subscriber_ata ≡ some wallet
  kept =
      let same =
        laws.init_frame c.vault c.token_mint c.subscription c.subscriber_ata c.tokens created
          accounts.separate init in
      ground (arith, same, accounts)

  pub subscribe_accounts_succeeds :
      subscribe_accounts pda spl c ≡ ok (record c { tokens = created })
  unfolding subscribe_accounts
  subscribe_accounts_succeeds = ground (arith, accounts, init, kept)

  -- The prefunding, out of the subscriber's wallet into the new vault.
  prefund_succeeds :
      (amount : ℕ)
      → amount ≤ wallet.amount
      → amount < u64_bound
      → (t : Tokens) × (spl.transfer c.subscriber_ata c.vault amount created ≡ some t)
  prefund_succeeds amount enough range =
      let (free, vault) =
        laws.init_empty c.vault c.token_mint c.subscription c.tokens created init in
      laws.transfer_succeeds c.subscriber_ata c.vault amount created (λ e. ground (arith, kept, e))
        (λ e. ground (arith, vault, e)) (ground (arith, kept, vault, accounts))
        (ground (arith, kept, enough)) (ground (arith, vault, range))

  -- With the accounts in place, terms that fit, and the deposit in the wallet.
  pub subscribe_handler_succeeds :
      (periods : ℕ) (now : ℤ)
      → HasTerms c.plan.info periods now
      → c.plan.info.price * periods ≤ wallet.amount
      → (sub : Account Subscription) × (tokens : Tokens) × (events : List Event)
        × (subscribe_handler spl (record c { tokens = created }) periods now
            ≡ ok (sub, tokens, events))
  unfolding subscribe_handler checked_div checked_mul_u64 checked_add_i64
  subscribe_handler_succeeds periods now terms enough =
      let (t, paid) = prefund_succeeds (c.plan.info.price * periods) enough terms.deposit_range in
      elim (Result-cases (subscribe_handler spl (record c { tokens = created }) periods now)) [
        | inl ((sub, tokens, events), h) ↦ (sub, tokens, events, h)
        | inr (fault, h) ↦ absurd (ground (arith, paid, terms, accounts, h))
      ]
