-- ===== src/Instructions/TopUp/Restart.antt =====
-- A top-up out of the grace period: what the merchant can claim afterwards.
use nakama_sol_x.Prelude.{ℕ, ℤ, ◌+ℤ◌, ◌-ℤ◌, ◌+◌, ◌≡◌, ok, some, arith, List}
use nakama_sol_x.Program.State.{SubscriptionState, GracedSubscription}
use nakama_sol_x.Program.Events.{Event}
use nakama_sol_x.Program.Accounts.{Account, SplToken}
use nakama_sol_x.Stream.Bounds.{streamed}
use nakama_sol_x.Stream.Growth.{streamed_resume}
use nakama_sol_x.Instructions.TopUp.{TopUp, top_up_handler}
use nakama_sol_x.Instructions.TopUp.Outcome.{top_up_handler-Recovered}

-- After a top-up at `now` of a subscription that entered its grace period at `g`, the subscription
-- is active, and the stream has earned at a time `d` after `now` what a stream with the larger
-- deposit would have earned `d` after `g`: the time in grace is not billed.
pub top_up_skips_grace :
    (spl : SplToken) (c c' : TopUp) (amount : ℕ) (now d : ℤ) (events : List Event)
    (g : Account GracedSubscription)
    → c.subscription.info.state ≡ SubscriptionState.grace_period
    → c.graced_subscription ≡ some g
    → top_up_handler spl c amount now ≡ ok (c', events)
    → (c'.subscription.info.state ≡ SubscriptionState.active)
      × (streamed c'.subscription.info (now +ℤ d)
          ≡ streamed
              (record c.subscription.info {
                deposited_amount = c.subscription.info.deposited_amount + amount;
              })
              (g.info.entered_grace_at +ℤ d))
top_up_skips_grace spl c c' amount now d events g grace attached h =
    let (g', done) = top_up_handler-Recovered spl c c' amount now events grace h in
    let same : g' ≡ g = ground (arith, done.attached) in
    let back : c'.subscription.info ≡ record c.subscription.info {
      deposited_amount = c.subscription.info.deposited_amount + amount;
      stream_start = c.subscription.info.stream_start +ℤ (now -ℤ g.info.entered_grace_at);
      state = SubscriptionState.active;
    } =
      rw (← same) done.recovered in
    (
      ground (arith, back),
      rw back (
          streamed_resume
            (record c.subscription.info {
              deposited_amount = c.subscription.info.deposited_amount + amount;
              state = SubscriptionState.active;
            })
            g.info.entered_grace_at now d),
    )
