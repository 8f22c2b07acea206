-- ===== src/Client/Views.antt =====
-- The decoded accounts of crates/nakama-client/src/accounts.rs. A view keeps the state as the raw
-- byte, so that one from a later program version still decodes.
use nakama_sol_x.Prelude.{ℕ, ℤ, ◌==◌, if◌then◌else◌, Option, none, some}
use nakama_sol_x.Program.State.{
  Pubkey, Subscription, SubscriptionState, GracedSubscription, PausedSubscription,
}

pub record SubscriptionView : Type 0 where
  pub next_charge_at : ℤ
  pub subscriber : Pubkey
  pub plan : Pubkey
  pub price : ℕ
  pub period : ℤ
  pub token_mint : Pubkey
  pub merchant : Pubkey
  pub merchant_ata : Pubkey
  pub state : ℕ
  pub bump : ℕ
  pub vault_bump : ℕ
  pub created_at : ℤ
  pub last_charge_at : ℤ
  pub deposited_amount : ℕ
  pub withdrawn_amount : ℕ
  pub rate_per_second : ℕ
  pub stream_start : ℤ

pub record GracedSubscriptionView : Type 0 where
  pub subscription : Pubkey
  pub entered_grace_at : ℤ
  pub grace_until : ℤ

pub record PausedSubscriptionView : Type 0 where
  pub subscription : Pubkey
  pub paused_at : ℤ
  pub bump : ℕ

pub record PlanView : Type 0 where
  pub merchant : Pubkey
  pub plan_id : ℕ
  pub price : ℕ
  pub period : ℤ
  pub token_mint : Pubkey
  pub merchant_ata : Pubkey
  pub bump : ℕ

pub record PaySessionView : Type 0 where
  pub subscription : Pubkey
  pub merchant : Pubkey
  pub merchant_ata : Pubkey
  pub facilitator : Pubkey
  pub session_id : ℕ
  pub opened_at : ℤ
  pub last_settle_at : ℤ
  pub usage_amount : ℕ
  pub reservation_cap : ℕ
  pub state : ℕ
  pub bump : ℕ

pub data SubscriptionStateByte : Type 0 where
  active paused grace_period exhausted cancelled : SubscriptionStateByte
  unknown : ℕ → SubscriptionStateByte

-- `From<u8>`.
abbrev pub from_byte : ℕ → SubscriptionStateByte
from_byte b =
    if b == 0
    then SubscriptionStateByte.active
    else if b == 1
    then SubscriptionStateByte.paused
    else if b == 2
    then SubscriptionStateByte.grace_period
    else if b == 3
    then SubscriptionStateByte.exhausted
    else if b == 4
    then SubscriptionStateByte.cancelled
    else unknown b

-- Borsh writes an enum as the index of its variant.
abbrev pub state_byte : SubscriptionState → ℕ
state_byte SubscriptionState.active = 0
state_byte SubscriptionState.paused = 1
state_byte SubscriptionState.grace_period = 2
state_byte SubscriptionState.exhausted = 3
state_byte SubscriptionState.cancelled = 4

-- The view of an account that the program has written: Borsh keeps the fields and their order.
abbrev pub view_of : Subscription → SubscriptionView
view_of s = record {
  next_charge_at = s.next_charge_at;
  subscriber = s.subscriber;
  plan = s.plan;
  price = s.price;
  period = s.period;
  token_mint = s.token_mint;
  merchant = s.merchant;
  merchant_ata = s.merchant_ata;
  state = state_byte s.state;
  bump = s.bump;
  vault_bump = s.vault_bump;
  created_at = s.created_at;
  last_charge_at = s.last_charge_at;
  deposited_amount = s.deposited_amount;
  withdrawn_amount = s.withdrawn_amount;
  rate_per_second = s.rate_per_second;
  stream_start = s.stream_start;
}

abbrev pub graced_view : Option GracedSubscription → Option GracedSubscriptionView
graced_view none = none
graced_view (some g) = some (record {
  subscription = g.subscription;
  entered_grace_at = g.entered_grace_at;
  grace_until = g.grace_until;
})

abbrev pub paused_view : Option PausedSubscription → Option PausedSubscriptionView
paused_view none = none
paused_view (some p) =
    some (record { subscription = p.subscription; paused_at = p.paused_at; bump = p.bump })
