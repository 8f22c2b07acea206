-- ===== src/Instructions/Resume.antt =====
-- resume.rs: the merchant restarts a frozen stream, with its anchor moved on by the pause.
use nakama_sol_x.Prelude.{
  leb_ℤ, ℤ, ◌==◌, ok, ok_or, ◌>>=◌, ◌>>◌, require, List, [], ◌∷◌, checked_sub_i64, checked_add_i64,
}
use nakama_sol_x.Program.Errors.{NakamaError, custom, Checked}
use nakama_sol_x.Program.State.{
  Pubkey, Subscription, SubscriptionState, PausedSubscription, is_paused,
}
use nakama_sol_x.Program.Events.{Event, subscription_resumed}
use nakama_sol_x.Program.Accounts.{Account, Pda, check_seeds, sub_seeds, paused_sub_seeds}

pub record Resume : Type 0 where
  pub subscription : Account Subscription
  pub paused_satellite : Account PausedSubscription
  pub merchant : Pubkey

unfoldable pub resume_accounts : Pda → Resume → Checked (Unit {0})
resume_accounts pda c = do
  let sub = c.subscription.info
  let satellite = c.paused_satellite.info
  check_seeds pda c.subscription.key (sub_seeds sub.subscriber sub.plan) sub.bump
  require (sub.merchant == c.merchant) (custom NakamaError.unauthorized_resume)
  check_seeds pda c.paused_satellite.key (paused_sub_seeds c.subscription.key) satellite.bump
  require (satellite.subscription == c.subscription.key)
      (custom NakamaError.illegal_state_for_resume)

unfoldable pub resume_handler : Resume → ℤ → Checked (Resume × List Event)
unfolding checked_sub_i64 checked_add_i64
resume_handler c now = do
  let sub = c.subscription.info
  let paused_at = c.paused_satellite.info.paused_at
  require (is_paused sub.state) (custom NakamaError.illegal_state_for_resume)
  require (leb_ℤ paused_at now) (custom NakamaError.clock_backwards)
  pause_duration ← ok_or (checked_sub_i64 now paused_at) (custom NakamaError.math_overflow)
  stream_start ←
      ok_or (checked_add_i64 sub.stream_start pause_duration) (custom NakamaError.math_overflow)
  ok (
    record c {
      subscription = record {
        key = c.subscription.key;
        info = record sub { stream_start = stream_start; state = SubscriptionState.active };
      };
    },
    subscription_resumed (record {
      subscription = c.subscription.key;
      resumed_at = now;
      pause_duration = pause_duration;
      new_stream_start = stream_start;
    })
        ∷ [],
  )
