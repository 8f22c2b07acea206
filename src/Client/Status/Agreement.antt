-- ===== src/Client/Status/Agreement.antt =====
-- The derived status against the program: what it calls claimable is what a charge pays, and its
-- grace arms split where a cancellation does.
use nakama_sol_x.Prelude.{
  ℕ, ℤ, pos, negsuc, ◌-ℤ◌, ◌≤ℤ◌, leb_ℤ, pos_part, ◌<◌, ◌≤◌, ◌-◌, ◌≡◌, ◌⊎◌, inl, inr, Option, none,
  some, ok, err, arith, List, Result-cases, Bool-cases, refl, i64_bound, i64_as_u128,
}
use nakama_sol_x.Program.Errors.{NakamaError, custom}
use nakama_sol_x.Program.State.{Subscription, SubscriptionState, GracedSubscription}
use nakama_sol_x.Program.Events.{Event}
use nakama_sol_x.Program.Accounts.{Account, SplToken}
use nakama_sol_x.Stream.{unlocked_at}
use nakama_sol_x.Stream.Bounds.{
  IsSound, gap, streamed, mul-lt-u128, unlocked_at_total, unlocked_at-near,
}
use nakama_sol_x.Instructions.Charge.{Charge, charge_handler}
use nakama_sol_x.Instructions.Charge.Outcome.{charge_handler-Charged}
use nakama_sol_x.Instructions.Cancel.{effective_now}
use nakama_sol_x.Client.Views.{GracedSubscriptionView, PausedSubscriptionView, view_of, graced_view}
use nakama_sol_x.Client.Status.{
  ComputedStatus, active_low_funds, in_grace, grace_expired, derive_status, claimable_of,
  elapsed_of, saturating_sub_i64,
}

-- The amount that a status offers to the merchant.
abbrev pub status_claimable : ComputedStatus → Option ℕ
status_claimable (ComputedStatus.active pct claimable) = some claimable
status_claimable (active_low_funds pct claimable days) = some claimable
status_claimable _ = none

elapsed_of-eq :
    (s : Subscription) (now : ℤ)
    → s.stream_start ≤ℤ now
    → gap now s.stream_start < i64_bound
    → elapsed_of (view_of s) now ≡ gap now s.stream_start
unfolding elapsed_of ◌-ℤ◌
elapsed_of-eq s now le near = ground arith

pub i64_as_u128-eq : (z : ℤ) → 0 < pos_part z → i64_as_u128 z ≡ pos_part z
i64_as_u128-eq (pos n) h = refl
i64_as_u128-eq (negsuc n) h = absurd (omega arith)

pub claimable_of-eq :
    (s : Subscription) (now : ℤ)
    → IsSound s
    → s.stream_start ≤ℤ now
    → gap now s.stream_start < i64_bound
    → claimable_of (view_of s) now ≡ streamed s now - s.withdrawn_amount
unfolding claimable_of
claimable_of-eq s now sound le near = ground (
  arith,
  elapsed_of-eq s now le near,
  i64_as_u128-eq s.period sound.period_pos,
  mul-lt-u128 (gap now s.stream_start) s.price (omega arith) sound.price_range,
  sound,
)

derive_status-claimable :
    (s : Subscription) (g : Option GracedSubscriptionView) (p : Option PausedSubscriptionView)
    (now : ℤ)
    → s.state ≡ SubscriptionState.active
    → status_claimable (derive_status (view_of s) g p now) ≡ some (claimable_of (view_of s) now)
unfolding derive_status
derive_status-claimable s g p now active = ground arith

-- When a charge of a sound subscription goes through, it pays exactly what the derived status
-- called claimable at that time.
pub charge-claimable :
    (spl : SplToken) (c c' : Charge) (now : ℤ) (events : List Event)
    (g : Option GracedSubscriptionView) (p : Option PausedSubscriptionView)
    → IsSound c.subscription.info
    → charge_handler spl c now ≡ ok (c', events)
    → (n : ℕ) × (status_claimable (derive_status (view_of c.subscription.info) g p now) ≡ some n)
      × (0 < n)
      × (spl.transfer c.vault c.merchant_ata n c.tokens ≡ some c'.tokens)
unfolding charge_handler
charge-claimable spl c c' now events g p sound h =
    let s = c.subscription.info in
    let done = charge_handler-Charged spl c c' now events sound h in
    let shown = derive_status-claimable s g p now done.was_active in
    elim (Result-cases (
      unlocked_at NakamaError.math_overflow s.price s.period s.deposited_amount s.stream_start
        now)) [
          | inr (x, e) ↦ absurd (ground arith)
          | inl (u, e) ↦
              let near = unlocked_at-near NakamaError.math_overflow s now u done.in_order e in
              let value = claimable_of-eq s now sound done.in_order near in
              (
                streamed s now - s.withdrawn_amount,
                rw (← value) shown,
                omega (arith, done.something),
                done.paid,
              )
        ]

-- When the derived status of a sound active subscription, not before its anchor and not overdrawn,
-- shows nothing claimable, a charge is refused for
-- want of unlocked funds.
pub charge-unclaimable :
    (spl : SplToken) (c : Charge) (now : ℤ) (g : Option GracedSubscriptionView)
    (p : Option PausedSubscriptionView)
    → IsSound c.subscription.info
    → c.subscription.info.state ≡ SubscriptionState.active
    → c.subscription.info.stream_start ≤ℤ now
    → gap now c.subscription.info.stream_start < i64_bound
    → c.subscription.info.withdrawn_amount ≤ streamed c.subscription.info now
    → status_claimable (derive_status (view_of c.subscription.info) g p now) ≡ some 0
    → charge_handler spl c now ≡ err (custom NakamaError.insufficient_unlocked_funds)
unfolding charge_handler
charge-unclaimable spl c now g p sound active le near drawn h =
    let s = c.subscription.info in
    let shown = derive_status-claimable s g p now active in
    let value = claimable_of-eq s now sound le near in
    let nothing : claimable_of (view_of s) now ≡ 0 = ground (arith, shown) in
    let unlocked = unlocked_at_total NakamaError.math_overflow s now sound le near in
    ground (arith, unlocked, nothing, value)

-- In the grace period the two arms split where a cancellation does: up to the end of the window that
-- the satellite holds, that moment included, the status is `InGrace` and a cancellation pays the
-- merchant up to now; from the second after it the status is `GraceExpired` and a cancellation pays
-- up to the end of the window, which the status shows.
pub derive_status-grace :
    (s : Subscription) (g : Account GracedSubscription) (p : Option PausedSubscriptionView)
    (now : ℤ)
    → s.state ≡ SubscriptionState.grace_period
    → (now ≤ℤ g.info.grace_until)
        × (effective_now s.state (some g) none now ≡ ok now)
        × (derive_status (view_of s) (graced_view (some g.info)) p now
            ≡ in_grace g.info.grace_until (saturating_sub_i64 g.info.grace_until now))
      ⊎ (¬ (now ≤ℤ g.info.grace_until))
        × (effective_now s.state (some g) none now ≡ ok g.info.grace_until)
        × (derive_status (view_of s) (graced_view (some g.info)) p now
            ≡ grace_expired g.info.grace_until)
unfolding derive_status effective_now
derive_status-grace s g p now grace = elim (Bool-cases (leb_ℤ now g.info.grace_until)) [
  | inl within ↦ inl (ground arith, ground arith, ground arith)
  | inr past ↦ inr (ground arith, ground arith, ground arith)
]
