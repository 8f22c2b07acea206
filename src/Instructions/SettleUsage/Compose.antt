-- ===== src/Instructions/SettleUsage/Compose.antt =====
-- Settling usage and charging draw on the same counter.
use nakama_sol_x.Prelude.{
  ℕ, ℤ, pos_part, ◌≤ℤ◌, ◌<◌, ◌≤◌, ◌-◌, ◌+◌, ◌*◌, ◌≡◌, some, ok, err, arith, List, i64_bound,
}
use native.Mathlib.Nat.{le-div_iff_mul-le}
use nakama_sol_x.Program.Errors.{NakamaError, custom}
use nakama_sol_x.Program.State.{SubscriptionState}
use nakama_sol_x.Program.Events.{Event}
use nakama_sol_x.Program.Accounts.{SplToken}
use nakama_sol_x.Stream.Bounds.{IsSound, gap, streamed, unlocked_at_total}
use nakama_sol_x.Stream.Growth.{streamed_mono}
use nakama_sol_x.Instructions.Charge.{Charge, charge_handler}
use nakama_sol_x.Instructions.Charge.Outcome.{charge_handler-Charged}
use nakama_sol_x.Instructions.TopUp.{TopUp, top_up_handler}
use nakama_sol_x.Instructions.TopUp.Outcome.{top_up_handler-Funded}
use nakama_sol_x.Instructions.SettleUsage.{SettleUsage, settle_usage_handler}
use nakama_sol_x.Instructions.SettleUsage.Outcome.{settle_usage_handler-Settled}

module _ (spl : SplToken) (c c' : SettleUsage) (amount : ℕ) (now : ℤ) (events : List Event) where
  -- On a sound subscription a charge at the moment of a settlement pays the merchant what the
  -- settlement left of the earned amount, and the two together draw exactly what was earned.
  pub settle_then_charge :
      (d d' : Charge) (events' : List Event)
      → IsSound c.parent.info
      → settle_usage_handler spl c amount now ≡ ok (c', events)
      → d.subscription ≡ c'.parent
      → charge_handler spl d now ≡ ok (d', events')
      → (spl.transfer d.vault d.merchant_ata
            (streamed c.parent.info now - (c.parent.info.withdrawn_amount + amount))
            d.tokens
          ≡ some d'.tokens)
        × (d'.subscription.info.withdrawn_amount ≡ streamed c.parent.info now)
  settle_then_charge d d' events' sound h same h' =
      let done = settle_usage_handler-Settled spl c c' amount now events sound h in
      let sound' : IsSound d.subscription.info =
        ground (arith, same, done.drawn, done.within_stream, sound) in
      let charged = charge_handler-Charged spl d d' now events' sound' h' in
      (
        ground (arith, charged.paid, same, done.drawn),
        ground (arith, charged.written, same, done.drawn),
      )

  -- On a sound subscription a settlement that uses up the deposit leaves the subscription active. A
  -- charge of the account as the settlement left it, at any time from then on whose distance from
  -- the anchor fits an `i64`, is refused for want of unlocked funds, so it does not open the grace
  -- period. Nothing is said of the account after another instruction, such as a top-up, has changed
  -- it.
  pub settle_drains :
      (d : Charge) (later : ℤ)
      → IsSound c.parent.info
      → settle_usage_handler spl c amount now ≡ ok (c', events)
      → c.parent.info.withdrawn_amount + amount ≡ c.parent.info.deposited_amount
      → now ≤ℤ later
      → gap later c.parent.info.stream_start < i64_bound
      → d.subscription ≡ c'.parent
      → (d.subscription.info.state ≡ SubscriptionState.active)
        × (charge_handler spl d later ≡ err (custom NakamaError.insufficient_unlocked_funds))
  unfolding charge_handler
  settle_drains d later sound h all after near same =
      let done = settle_usage_handler-Settled spl c c' amount now events sound h in
      let sound' : IsSound d.subscription.info =
        ground (arith, same, done.drawn, done.within_stream, sound) in
      let active : d.subscription.info.state ≡ SubscriptionState.active =
        ground (arith, same, done.drawn, done.parent_active) in
      let grown = streamed_mono c.parent.info now later sound.period_pos done.in_order after in
      let earned : streamed d.subscription.info later ≡ d.subscription.info.withdrawn_amount =
        ground (arith, same, done.drawn, done.within_stream, grown) in
      let unlocked =
        unlocked_at_total NakamaError.math_overflow d.subscription.info later sound'
          (ground (arith, same, done.drawn, done.in_order)) (ground (arith, same, done.drawn)) in
      (active, ground (arith, unlocked, earned, active))

  -- After a settlement that uses up the deposit of a sound subscription the stream's clock runs on:
  -- a top-up at a time by which the rate covers the old and the new deposit together is earned by
  -- the merchant at that very moment.
  pub settle_drained_top_up :
      (u u' : TopUp) (added : ℕ) (later : ℤ) (events' : List Event)
      → IsSound c.parent.info
      → settle_usage_handler spl c amount now ≡ ok (c', events)
      → c.parent.info.withdrawn_amount + amount ≡ c.parent.info.deposited_amount
      → u.subscription ≡ c'.parent
      → (c.parent.info.deposited_amount + added) * pos_part c.parent.info.period
        ≤ gap later c.parent.info.stream_start * c.parent.info.price
      → top_up_handler spl u added later ≡ ok (u', events')
      → streamed u'.subscription.info later ≡ u'.subscription.info.withdrawn_amount + added
  settle_drained_top_up u u' added later events' sound h all same long h' =
      let done = settle_usage_handler-Settled spl c c' amount now events sound h in
      let funded =
        top_up_handler-Funded spl u u' added later events'
          (ground (arith, same, done.drawn, done.parent_active)) h' in
      let covered = (le-div_iff_mul-le sound.period_pos).1 long in
      ground (arith, funded.funded, same, done.drawn, covered)
