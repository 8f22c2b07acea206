-- ===== src/Client/Status.antt =====
-- crates/nakama-client/src/computed_status.rs: the status that is derived off the chain.
pub mod Agreement
pub mod Dispatch
pub mod Amounts
use nakama_sol_x.Prelude.{
  ℕ, ℤ, pos, negsuc, ◌-ℤ◌, leb_ℤ, pos_part, neg_part, ◌*◌, ◌-◌, ◌==◌, ltb, leb, min, ◌&&◌, ◌||◌,
  if◌then◌else◌, Bool, Option, none, some, String, checked_div, i64_as_u128, i64_bound, u64_bound,
  u128_bound,
}
use nakama_sol_x.Client.Views.{
  SubscriptionView, GracedSubscriptionView, PausedSubscriptionView, SubscriptionStateByte,
  from_byte, unknown,
}

pub data ComputedStatus : Type 0 where
  active : (unlocked_pct claimable : ℕ) → ComputedStatus
  active_low_funds : (unlocked_pct claimable days_remaining : ℕ) → ComputedStatus
  paused : (resume_after : Option ℤ) → ComputedStatus
  in_grace : (grace_until seconds_remaining : ℤ) → ComputedStatus
  grace_expired : (grace_until : ℤ) → ComputedStatus
  cancelled exhausted : ComputedStatus
  corrupt : (state_byte : ℕ) (reason : String) → ComputedStatus

abbrev active_low_funds_days : ℕ
active_low_funds_days = 7

abbrev seconds_per_day : ℕ
seconds_per_day = 86400

-- `u32::MAX`, also the sentinel for a price of zero.
abbrev pub u32_max : ℕ
u32_max = 4294967295

-- `u128::saturating_mul`.
unfoldable pub saturating_mul : ℕ → ℕ → ℕ
saturating_mul a b = min (a * b) (u128_bound - 1)

-- `i64::saturating_sub`.
unfoldable pub saturating_sub_i64 : ℤ → ℤ → ℤ
saturating_sub_i64 a b =
    if leb i64_bound (pos_part (a -ℤ b))
    then pos (i64_bound - 1)
    else if ltb i64_bound (neg_part (a -ℤ b))
    then negsuc (i64_bound - 1)
    else a -ℤ b

-- `Option::unwrap_or`.
abbrev unwrap_or : ℕ → Option ℕ → ℕ
unwrap_or d none = d
unwrap_or d (some n) = n

-- `now.saturating_sub(sub.stream_start).max(0) as u128`: `pos_part` is the larger of it and zero.
unfoldable pub elapsed_of : SubscriptionView → ℤ → ℕ
unfolding saturating_sub_i64
elapsed_of sub now = pos_part (saturating_sub_i64 now sub.stream_start)

-- What the stream has unlocked, and of that what is not withdrawn, as a `u64`.
unfoldable pub claimable_of : SubscriptionView → ℤ → ℕ
unfolding saturating_mul checked_div elapsed_of
claimable_of sub now =
    let accrued =
      unwrap_or 0
        (checked_div (saturating_mul (elapsed_of sub now) sub.price) (i64_as_u128 sub.period)) in
    min (min accrued sub.deposited_amount - sub.withdrawn_amount) (u64_bound - 1)

unfoldable pub unlocked_pct_of : SubscriptionView → ℕ
unfolding saturating_mul checked_div
unlocked_pct_of sub =
    min (unwrap_or 0 (checked_div (saturating_mul sub.withdrawn_amount 100) sub.deposited_amount))
      100

-- The days that the funds not yet withdrawn last at the plan's rate.
unfoldable pub days_remaining_of : SubscriptionView → ℕ
unfolding saturating_mul checked_div
days_remaining_of sub =
    if sub.price == 0
    then u32_max
    else min
        (unwrap_or u32_max (
          checked_div
            (saturating_mul (sub.deposited_amount - sub.withdrawn_amount) (i64_as_u128 sub.period))
            (saturating_mul sub.price seconds_per_day)))
        u32_max

-- More than 80 % is withdrawn, or less than a week's funds are left.
unfoldable pub is_low : SubscriptionView → Bool
unfolding saturating_mul days_remaining_of
is_low sub =
    (ltb 0 sub.deposited_amount
      && ltb (saturating_mul sub.deposited_amount 80) (saturating_mul sub.withdrawn_amount 100))
    || ltb (days_remaining_of sub) active_low_funds_days

unfoldable pub active_or_low_funds : SubscriptionView → ℤ → ComputedStatus
active_or_low_funds sub now =
    if is_low sub
    then active_low_funds (unlocked_pct_of sub) (claimable_of sub now) (days_remaining_of sub)
    else ComputedStatus.active (unlocked_pct_of sub) (claimable_of sub now)

-- The `GracePeriod` arm.
unfoldable pub grace_status : ℕ → Option GracedSubscriptionView → ℤ → ComputedStatus
unfolding saturating_sub_i64
grace_status byte none now = corrupt byte "state==GracePeriod but no GracedSubscription satellite"
grace_status byte (some g) now =
    if leb_ℤ now g.grace_until
    then in_grace g.grace_until (saturating_sub_i64 g.grace_until now)
    else grace_expired g.grace_until

unfoldable pub status_of :
    SubscriptionStateByte → SubscriptionView → Option GracedSubscriptionView → ℤ → ComputedStatus
unfolding active_or_low_funds grace_status
status_of SubscriptionStateByte.active sub graced now = active_or_low_funds sub now
status_of SubscriptionStateByte.paused sub graced now = ComputedStatus.paused none
status_of SubscriptionStateByte.grace_period sub graced now = grace_status sub.state graced now
status_of SubscriptionStateByte.cancelled sub graced now = ComputedStatus.cancelled
status_of SubscriptionStateByte.exhausted sub graced now = ComputedStatus.exhausted
status_of (unknown b) sub graced now =
    corrupt b "unknown state discriminant — likely a forward-compat redeploy"

unfoldable pub derive_status :
    SubscriptionView
    → Option GracedSubscriptionView
    → Option PausedSubscriptionView
    → ℤ
    → ComputedStatus
unfolding status_of
derive_status sub graced paused_satellite now = status_of (from_byte sub.state) sub graced now
