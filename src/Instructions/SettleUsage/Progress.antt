-- ===== src/Instructions/SettleUsage/Progress.antt =====
-- When a settlement of usage goes through.
use nakama_sol_x.Prelude.{
  ℕ, ℤ, ◌≤ℤ◌, ◌<◌, ◌≤◌, ◌-◌, ◌+◌, ◌≡◌, ◌≢◌, ◌⊎◌, none, ok, arith, List, [], ◌∷◌, u64_bound,
  i64_bound,
}
use nakama_sol_x.Program.Errors.{NakamaError}
use nakama_sol_x.Program.State.{Subscription, SubscriptionState, session_state_byte, opened}
use nakama_sol_x.Program.Events.{Event, usage_settled}
use nakama_sol_x.Program.Accounts.{SplToken, SplLaws, balance, mint_of}
use nakama_sol_x.Stream.Bounds.{IsSound, gap, streamed, unlocked_at_total}
use nakama_sol_x.Instructions.SettleUsage.{
  SettleUsage, settle_usage_handler, parent_remaining, check_cap, record_usage,
}

parent_remaining_total :
    (s : Subscription) (now : ℤ)
    → IsSound s
    → s.stream_start ≤ℤ now
    → gap now s.stream_start < i64_bound
    → s.withdrawn_amount ≤ streamed s now
    → parent_remaining s now ≡ ok (streamed s now - s.withdrawn_amount)
unfolding parent_remaining
parent_remaining_total s now sound le near drawn =
    ground (arith, unlocked_at_total NakamaError.arithmetic_overflow s now sound le near)

-- A settlement of a positive amount goes through when the parent is sound and active, the session
-- is open, the amount is within the stream and the cap, the vault covers it, and the merchant's
-- account is open, of the same mint, and has room.
pub settle_usage_handler_succeeds :
    (spl : SplToken) (c : SettleUsage) (amount : ℕ) (now : ℤ)
    → SplLaws spl
    → IsSound c.parent.info
    → 0 < amount
    → c.parent.info.state ≡ SubscriptionState.active
    → c.pay_session.info.state ≡ session_state_byte opened
    → c.parent.info.stream_start ≤ℤ now
    → gap now c.parent.info.stream_start < i64_bound
    → c.parent.info.withdrawn_amount + amount ≤ streamed c.parent.info now
    → (c.pay_session.info.reservation_cap ≡ 0)
      ⊎ (c.pay_session.info.usage_amount + amount ≤ c.pay_session.info.reservation_cap)
    → c.pay_session.info.usage_amount + amount < u64_bound
    → c.tokens c.vault ≢ none
    → c.tokens c.merchant_ata ≢ none
    → mint_of (c.tokens c.vault) ≡ mint_of (c.tokens c.merchant_ata)
    → amount ≤ balance c.tokens c.vault
    → balance c.tokens c.merchant_ata + amount < u64_bound
    → (c' : SettleUsage) × (events : List Event) × (settle_usage_handler spl c amount now
        ≡ ok (c', events))
unfolding settle_usage_handler check_cap record_usage
settle_usage_handler_succeeds spl c amount now laws sound positive active free le near within limit
      counter vo mo mint covered room =
    let s = c.parent.info in
    let x = c.pay_session.info in
    let remaining = parent_remaining_total s now sound le near (omega arith) in
    let (tokens, paid) =
      laws.transfer_succeeds c.vault c.merchant_ata amount c.tokens vo mo mint covered room in
    (
      record c {
        parent = record {
          key = c.parent.key;
          info = record s { withdrawn_amount = s.withdrawn_amount + amount };
        };
        pay_session = record {
          key = c.pay_session.key;
          info = record x {
            usage_amount = x.usage_amount + amount;
            last_settle_at = now;
            state = session_state_byte opened;
          };
        };
        tokens = tokens;
      },
      usage_settled (record {
        pay_session = c.pay_session.key;
        subscription = c.parent.key;
        amount = amount;
        cumulative_usage = x.usage_amount + amount;
        timestamp = now;
      })
          ∷ [],
      ground (arith, remaining, paid, sound),
    )
