-- ===== src/Instructions/Pause.antt =====
-- pause.rs: the merchant freezes the stream.
pub mod Freeze
use nakama_sol_x.Prelude.{ℕ, leb_ℤ, ltb_ℤ, ℤ, pos, ◌==◌, ok, ◌>>=◌, ◌>>◌, require, List, [], ◌∷◌}
use nakama_sol_x.Program.Errors.{NakamaError, custom, Checked}
use nakama_sol_x.Program.State.{
  Pubkey, Subscription, SubscriptionState, PausedSubscription, is_active,
}
use nakama_sol_x.Program.Events.{Event, subscription_paused}
use nakama_sol_x.Program.Accounts.{Account, Pda, check_seeds, sub_seeds, paused_sub_seeds}
use nakama_sol_x.Stream.{unlocked_at}

-- `paused_satellite` is the account that `init` has created; `paused_bump` is its canonical bump.
pub record Pause : Type 0 where
  pub subscription : Account Subscription
  pub paused_satellite : Account PausedSubscription
  pub paused_bump : ℕ
  pub merchant : Pubkey

unfoldable pub pause_accounts : Pda → Pause → Checked (Unit {0})
pause_accounts pda c = do
  let sub = c.subscription.info
  check_seeds pda c.subscription.key (sub_seeds sub.subscriber sub.plan) sub.bump
  require (sub.merchant == c.merchant) (custom NakamaError.unauthorized_pause)
  check_seeds pda c.paused_satellite.key (paused_sub_seeds c.subscription.key) c.paused_bump

unfoldable pub pause_handler : Pause → ℤ → Checked (Pause × List Event)
pause_handler c now = do
  let sub = c.subscription.info
  require (is_active sub.state) (custom NakamaError.illegal_state_for_pause)
  require (leb_ℤ sub.stream_start now) (custom NakamaError.clock_backwards)
  require (ltb_ℤ (pos 0) sub.period) (custom NakamaError.invalid_period)
  unlocked ←
      unlocked_at NakamaError.math_overflow sub.price sub.period sub.deposited_amount
        sub.stream_start now
  ok (
    record c {
      subscription = record {
        key = c.subscription.key;
        info = record sub { state = SubscriptionState.paused };
      };
      paused_satellite = record {
        key = c.paused_satellite.key;
        info = record { subscription = c.subscription.key; paused_at = now; bump = c.paused_bump };
      };
    },
    subscription_paused (record {
      subscription = c.subscription.key;
      paused_at = now;
      unlocked_at_pause = unlocked;
    })
        ∷ [],
  )
