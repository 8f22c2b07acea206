-- ===== src/Instructions/TopUp.antt =====
-- top_up.rs: the subscriber adds funds, and out of the grace period restarts the stream.
pub mod Outcome
pub mod Restart
use nakama_sol_x.Prelude.{
  ℕ, ltb, leb_ℤ, ℤ, ◌==◌, Bool, true, false, Option, none, some, is_some, if◌then◌else◌, ok, ok_or,
  ◌>>=◌, ◌>>◌, require, List, [], ◌∷◌, checked_add_u64, checked_sub_i64, checked_add_i64,
}
use nakama_sol_x.Program.Errors.{NakamaError, custom, token_error, AnchorError, anchor, Checked}
use nakama_sol_x.Program.State.{
  Pubkey, Subscription, SubscriptionState, GracedSubscription, is_grace,
}
use nakama_sol_x.Program.Events.{Event, grace_recovered}
use nakama_sol_x.Program.Accounts.{
  Account, Pda, check_seeds, check_graced, sub_seeds, vault_seeds, grace_seeds, Tokens, SplToken,
  load_token, check_mint, check_authority,
}

pub record TopUp : Type 0 where
  pub subscriber : Pubkey
  pub subscription : Account Subscription
  pub graced_subscription : Option (Account GracedSubscription)
  pub vault : Pubkey
  pub subscriber_ata : Pubkey
  pub tokens : Tokens

unfoldable pub top_up_accounts : Pda → TopUp → Checked (Unit {0})
top_up_accounts pda c = do
  let sub = c.subscription.info
  check_seeds pda c.subscription.key (sub_seeds sub.subscriber sub.plan) sub.bump
  require (sub.subscriber == c.subscriber) (anchor AnchorError.constraint_has_one)
  check_graced pda c.subscription.key c.graced_subscription
  vault ← load_token c.tokens c.vault
  check_seeds pda c.vault (vault_seeds c.subscription.key) sub.vault_bump
  check_mint vault sub.token_mint
  check_authority vault c.subscription.key
  subscriber_ata ← load_token c.tokens c.subscriber_ata
  check_mint subscriber_ata sub.token_mint
  check_authority subscriber_ata c.subscriber

abbrev pub is_toppable : SubscriptionState → Bool
is_toppable SubscriptionState.active = true
is_toppable SubscriptionState.paused = true
is_toppable SubscriptionState.grace_period = true
is_toppable _ = false

-- `if matches!(state, GracePeriod) { require!(satellite.is_some(), …) }`
abbrev require_satellite :
    SubscriptionState → Option (Account GracedSubscription) → Checked (Unit {0})
require_satellite SubscriptionState.grace_period graced =
    require (is_some graced) (custom NakamaError.missing_grace_satellite)
require_satellite _ graced = ok tt

-- The stream's anchor moves on by the time spent in grace, and the state returns to active.
unfoldable pub recover : TopUp → Subscription → ℕ → ℤ → Checked (Subscription × List Event)
unfolding checked_sub_i64 checked_add_i64
recover c sub amount now = do
  graced ← ok_or c.graced_subscription (custom NakamaError.missing_grace_satellite)
  let entered_grace_at = graced.info.entered_grace_at
  require (leb_ℤ entered_grace_at now) (custom NakamaError.clock_backwards)
  grace_time ← ok_or (checked_sub_i64 now entered_grace_at) (custom NakamaError.math_overflow)
  stream_start ←
      ok_or (checked_add_i64 sub.stream_start grace_time) (custom NakamaError.math_overflow)
  ok (
    record sub { stream_start = stream_start; state = SubscriptionState.active },
    grace_recovered (record {
      subscription = c.subscription.key;
      top_up_amount = amount;
      new_deposited = sub.deposited_amount;
    })
        ∷ [],
  )

unfoldable pub top_up_handler : SplToken → TopUp → ℕ → ℤ → Checked (TopUp × List Event)
unfolding checked_add_u64 recover
top_up_handler spl c amount now = do
  let sub = c.subscription.info
  require (ltb 0 amount) (custom NakamaError.illegal_amount_for_top_up)
  require (is_toppable sub.state) (custom NakamaError.illegal_state_for_top_up)
  require_satellite sub.state c.graced_subscription
  tokens ← ok_or (spl.transfer c.subscriber_ata c.vault amount c.tokens) token_error
  deposited ← ok_or (checked_add_u64 sub.deposited_amount amount) (custom NakamaError.math_overflow)
  let funded = record sub { deposited_amount = deposited }
  (sub', events) ← if is_grace sub.state then recover c funded amount now else ok (funded, [])
  ok (
    record c { subscription = record { key = c.subscription.key; info = sub' }; tokens = tokens },
    events,
  )
