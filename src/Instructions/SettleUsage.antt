-- ===== src/Instructions/SettleUsage.antt =====
-- settle_usage.rs: the facilitator of a session draws an amount from the vault for the merchant.
pub mod Outcome
pub mod Progress
pub mod Compose
use nakama_sol_x.Prelude.{
  ℕ, ltb, leb, leb_ℤ, ltb_ℤ, ◌==◌, ℤ, pos, if◌then◌else◌, ok, ok_or, ◌>>=◌, ◌>>◌, require, List, [],
  ◌∷◌, checked_sub, checked_add_u64,
}
use nakama_sol_x.Program.Errors.{NakamaError, custom, token_error, Checked}
use nakama_sol_x.Program.State.{
  Pubkey, Subscription, PaySession, opened, settling, session_state_byte, is_active,
}
use nakama_sol_x.Program.Events.{Event, usage_settled}
use nakama_sol_x.Program.Accounts.{
  Account, Pda, check_seeds, sub_seeds, vault_seeds, pay_session_seeds, Tokens, SplToken,
  load_token, check_mint, check_authority,
}
use nakama_sol_x.Stream.{unlocked_at}

pub record SettleUsage : Type 0 where
  pub parent : Account Subscription
  pub pay_session : Account PaySession
  pub vault : Pubkey
  pub merchant_ata : Pubkey
  pub facilitator : Pubkey
  pub tokens : Tokens

unfoldable pub settle_usage_accounts : Pda → SettleUsage → Checked (Unit {0})
settle_usage_accounts pda c = do
  let parent = c.parent.info
  let session = c.pay_session.info
  check_seeds pda c.parent.key (sub_seeds parent.subscriber parent.plan) parent.bump
  check_seeds pda c.pay_session.key (pay_session_seeds c.parent.key session.session_id) session.bump
  require (session.subscription == c.parent.key) (custom NakamaError.pay_session_parent_mismatch)
  require (session.facilitator == c.facilitator) (custom NakamaError.unauthorized_facilitator)
  vault ← load_token c.tokens c.vault
  check_seeds pda c.vault (vault_seeds c.parent.key) parent.vault_bump
  check_mint vault parent.token_mint
  check_authority vault c.parent.key
  merchant_ata ← load_token c.tokens c.merchant_ata
  require (c.merchant_ata == session.merchant_ata)
      (custom NakamaError.pay_session_merchant_ata_mismatch)
  check_mint merchant_ata parent.token_mint

-- The cap on the session's total usage, where one is set.
unfoldable pub check_cap : PaySession → ℕ → Checked (Unit {0})
unfolding checked_add_u64
check_cap s amount =
    if ltb 0 s.reservation_cap
    then (do
      new_total ←
          ok_or (checked_add_u64 s.usage_amount amount) (custom NakamaError.arithmetic_overflow)
      require (leb new_total s.reservation_cap) (custom NakamaError.reservation_cap_exceeded))
    else ok tt

-- What the stream has unlocked for the parent and nobody has drawn.
unfoldable pub parent_remaining : Subscription → ℤ → Checked ℕ
unfolding checked_sub
parent_remaining parent now = do
  require (leb_ℤ parent.stream_start now) (custom NakamaError.clock_backwards)
  require (ltb_ℤ (pos 0) parent.period) (custom NakamaError.invalid_period)
  unlocked ←
      unlocked_at NakamaError.arithmetic_overflow parent.price parent.period parent.deposited_amount
        parent.stream_start now
  ok_or (checked_sub unlocked parent.withdrawn_amount) (custom NakamaError.arithmetic_overflow)

-- The bookkeeping after the transfer; the session was locked as `Settling` and is unlocked here.
unfoldable pub record_usage :
    SettleUsage → PaySession → ℕ → ℤ → Tokens → Checked (SettleUsage × List Event)
unfolding checked_add_u64
record_usage c locked amount now tokens = do
  let parent = c.parent.info
  withdrawn ←
      ok_or (checked_add_u64 parent.withdrawn_amount amount)
        (custom NakamaError.arithmetic_overflow)
  cumulative_usage ←
      ok_or (checked_add_u64 locked.usage_amount amount) (custom NakamaError.arithmetic_overflow)
  ok (
    record c {
      parent = record { key = c.parent.key; info = record parent { withdrawn_amount = withdrawn } };
      pay_session = record {
        key = c.pay_session.key;
        info = record locked {
          usage_amount = cumulative_usage;
          last_settle_at = now;
          state = session_state_byte opened;
        };
      };
      tokens = tokens;
    },
    usage_settled (record {
      pay_session = c.pay_session.key;
      subscription = c.parent.key;
      amount = amount;
      cumulative_usage = cumulative_usage;
      timestamp = now;
    })
        ∷ [],
  )

unfoldable pub settle_usage_handler :
    SplToken → SettleUsage → ℕ → ℤ → Checked (SettleUsage × List Event)
settle_usage_handler spl c amount now = do
  let parent = c.parent.info
  let session = c.pay_session.info
  require (ltb 0 amount) (custom NakamaError.illegal_amount_for_settle)
  require (is_active parent.state) (custom NakamaError.parent_not_active)
  require (session.state == session_state_byte opened) (custom NakamaError.illegal_state_for_settle)
  check_cap session amount
  remaining ← parent_remaining parent now
  require (leb amount remaining) (custom NakamaError.insufficient_unlocked_funds)
  let locked = record session { state = session_state_byte settling }
  tokens ← ok_or (spl.transfer c.vault c.merchant_ata amount c.tokens) token_error
  record_usage c locked amount now tokens
