-- ===== src/Program/State.antt =====
-- The account layouts of nakama/programs/nakama/src/state.rs and the durations of constants.rs.
-- A public key is the number that its 32 bytes spell; `u64`, `u8` are numbers, `i64` is ℤ. The
-- `reserved` bytes are always zero and are left out.
use nakama_sol_x.Prelude.{ℕ, Bool, true, false, ℤ, pos, ◌*◌}

abbrev pub Pubkey : Type 0
Pubkey = ℕ

-- 7 days in seconds.
abbrev pub grace_duration : ℤ
grace_duration = pos (7 * 24 * 60 * 60)

pub data SubscriptionState : Type 0 where
  active paused grace_period exhausted cancelled : SubscriptionState

abbrev pub is_active : SubscriptionState → Bool
is_active SubscriptionState.active = true
is_active _ = false

abbrev pub is_paused : SubscriptionState → Bool
is_paused SubscriptionState.paused = true
is_paused _ = false

abbrev pub is_grace : SubscriptionState → Bool
is_grace SubscriptionState.grace_period = true
is_grace _ = false

pub record Plan : Type 0 where
  pub merchant : Pubkey
  pub plan_id : ℕ
  pub price : ℕ
  pub period : ℤ
  pub token_mint : Pubkey
  pub merchant_ata : Pubkey
  pub bump : ℕ

pub record Subscription : Type 0 where
  pub next_charge_at : ℤ
  pub subscriber : Pubkey
  pub plan : Pubkey
  pub price : ℕ
  pub period : ℤ
  pub token_mint : Pubkey
  pub merchant : Pubkey
  pub merchant_ata : Pubkey
  pub state : SubscriptionState
  pub bump : ℕ
  pub vault_bump : ℕ
  pub created_at : ℤ
  pub last_charge_at : ℤ
  pub deposited_amount : ℕ
  pub withdrawn_amount : ℕ
  pub rate_per_second : ℕ
  pub stream_start : ℤ

pub record GracedSubscription : Type 0 where
  pub subscription : Pubkey
  pub entered_grace_at : ℤ
  pub grace_until : ℤ

pub record PausedSubscription : Type 0 where
  pub subscription : Pubkey
  pub paused_at : ℤ
  pub bump : ℕ

-- `Open` is spelled `opened`, since `open` is a keyword here.
pub data PaySessionState : Type 0 where
  opened settling closed : PaySessionState

-- `PaySessionState::… as u8`.
abbrev pub session_state_byte : PaySessionState → ℕ
session_state_byte opened = 0
session_state_byte settling = 1
session_state_byte closed = 2

pub record PaySession : Type 0 where
  pub subscription : Pubkey
  pub merchant : Pubkey
  pub merchant_ata : Pubkey
  pub facilitator : Pubkey
  pub session_id : ℕ
  pub opened_at : ℤ
  pub last_settle_at : ℤ
  pub usage_amount : ℕ
  pub reservation_cap : ℕ
  pub state : ℕ
  pub bump : ℕ
