-- ===== src/Program/Events.antt =====
-- The events of nakama/programs/nakama/src/state.rs. A handler returns the events it emits.
use nakama_sol_x.Prelude.{ℕ, Bool, ℤ}
use nakama_sol_x.Program.State.{Pubkey}

pub record PlanCreated : Type 0 where
  pub plan : Pubkey
  pub merchant : Pubkey
  pub plan_id : ℕ
  pub price : ℕ
  pub period : ℤ
  pub timestamp : ℤ

pub record SubscriptionStarted : Type 0 where
  pub subscription : Pubkey
  pub subscriber : Pubkey
  pub plan : Pubkey
  pub deposited_amount : ℕ
  pub rate_per_second : ℕ
  pub stream_start : ℤ

pub record SubscriptionCancelled : Type 0 where
  pub subscription : Pubkey
  pub subscriber : Pubkey
  pub plan : Pubkey
  pub merchant : Pubkey
  pub cancelled_by : Pubkey
  pub final_settled : ℕ
  pub refunded : ℕ
  pub had_paused_satellite : Bool
  pub had_graced_satellite : Bool
  pub timestamp : ℤ

pub record SubscriptionCharged : Type 0 where
  pub subscription : Pubkey
  pub amount : ℕ
  pub withdrawn_total : ℕ
  pub timestamp : ℤ

pub record SubscriptionCleaned : Type 0 where
  pub subscription : Pubkey
  pub rent_returned_to : Pubkey
  pub timestamp : ℤ

pub record GraceEntered : Type 0 where
  pub subscription : Pubkey
  pub entered_grace_at : ℤ
  pub grace_until : ℤ

pub record GraceRecovered : Type 0 where
  pub subscription : Pubkey
  pub top_up_amount : ℕ
  pub new_deposited : ℕ

pub record PaySessionOpened : Type 0 where
  pub pay_session : Pubkey
  pub subscription : Pubkey
  pub facilitator : Pubkey
  pub reservation_cap : ℕ
  pub timestamp : ℤ

pub record UsageSettled : Type 0 where
  pub pay_session : Pubkey
  pub subscription : Pubkey
  pub amount : ℕ
  pub cumulative_usage : ℕ
  pub timestamp : ℤ

pub record PaySessionClosed : Type 0 where
  pub pay_session : Pubkey
  pub subscription : Pubkey
  pub final_usage : ℕ
  pub rent_returned_to : Pubkey
  pub timestamp : ℤ

pub record SubscriptionPaused : Type 0 where
  pub subscription : Pubkey
  pub paused_at : ℤ
  pub unlocked_at_pause : ℕ

pub record SubscriptionResumed : Type 0 where
  pub subscription : Pubkey
  pub resumed_at : ℤ
  pub pause_duration : ℤ
  pub new_stream_start : ℤ

pub data Event : Type 0 where
  plan_created : PlanCreated → Event
  subscription_started : SubscriptionStarted → Event
  subscription_cancelled : SubscriptionCancelled → Event
  subscription_charged : SubscriptionCharged → Event
  subscription_cleaned : SubscriptionCleaned → Event
  grace_entered : GraceEntered → Event
  grace_recovered : GraceRecovered → Event
  pay_session_opened : PaySessionOpened → Event
  usage_settled : UsageSettled → Event
  pay_session_closed : PaySessionClosed → Event
  subscription_paused : SubscriptionPaused → Event
  subscription_resumed : SubscriptionResumed → Event
