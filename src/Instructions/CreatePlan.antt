-- ===== src/Instructions/CreatePlan.antt =====
-- create_plan.rs: the merchant registers a plan.
use nakama_sol_x.Prelude.{ℕ, ltb, ltb_ℤ, ℤ, pos, ◌==◌, ok, ◌>>=◌, ◌>>◌, require, List, [], ◌∷◌}
use nakama_sol_x.Program.Errors.{NakamaError, custom, AnchorError, anchor, Checked}
use nakama_sol_x.Program.State.{Pubkey, Plan}
use nakama_sol_x.Program.Events.{Event, plan_created}
use nakama_sol_x.Program.Accounts.{
  Account, Pda, check_seeds, plan_seeds, Tokens, load_token, check_mint, check_authority,
}

-- `plan` is the address being created; `plan_bump` is `ctx.bumps.plan`.
pub record CreatePlan : Type 0 where
  pub merchant : Pubkey
  pub plan : Pubkey
  pub plan_bump : ℕ
  pub token_mint : Pubkey
  pub merchant_ata : Pubkey
  pub tokens : Tokens

-- `usdc_mint` is the cluster's `USDC_MINT`.
unfoldable pub create_plan_accounts : Pda → Pubkey → CreatePlan → ℕ → Checked (Unit {0})
create_plan_accounts pda usdc_mint c plan_id = do
  check_seeds pda c.plan (plan_seeds c.merchant plan_id) c.plan_bump
  require (c.token_mint == usdc_mint) (anchor AnchorError.constraint_address)
  merchant_ata ← load_token c.tokens c.merchant_ata
  check_mint merchant_ata c.token_mint
  check_authority merchant_ata c.merchant

unfoldable pub create_plan_handler :
    CreatePlan → ℕ → ℕ → ℤ → ℤ → Checked (Account Plan × List Event)
create_plan_handler c plan_id price period now = do
  require (ltb_ℤ (pos 0) period) (custom NakamaError.zero_period)
  require (ltb 0 price) (custom NakamaError.zero_price)
  ok (
    record {
      key = c.plan;
      info = record {
        merchant = c.merchant;
        plan_id = plan_id;
        price = price;
        period = period;
        token_mint = c.token_mint;
        merchant_ata = c.merchant_ata;
        bump = c.plan_bump;
      };
    },
    plan_created (record {
      plan = c.plan;
      merchant = c.merchant;
      plan_id = plan_id;
      price = price;
      period = period;
      timestamp = now;
    })
        ∷ [],
  )
