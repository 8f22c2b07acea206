-- ===== src/Instructions/Charge/Progress.antt =====
-- When a charge goes through: nothing in its arithmetic can fail on a sound subscription.
use nakama_sol_x.Prelude.{
  if◌then◌else◌, ℕ, ℤ, pos, ◌+ℤ◌, ◌≤ℤ◌, ◌<◌, ◌≤◌, ◌-◌, ◌+◌, ◌*◌, ◌/◌, ◌≡◌, ◌≢◌, inl, inr, none,
  some, is_some, ok, err, arith, List, [], ◌∷◌, ◌++◌, ◌==◌, Option-cases, u64_bound, i64_bound,
  InI64, pos_part,
}
use nakama_sol_x.Program.Errors.{NakamaError, Error, custom}
use nakama_sol_x.Program.State.{Subscription, SubscriptionState, grace_duration}
use nakama_sol_x.Program.Events.{Event, grace_entered, subscription_charged}
use nakama_sol_x.Program.Accounts.{SplToken, SplLaws, Tokens, balance, mint_of}
use nakama_sol_x.Stream.Bounds.{IsSound, gap, streamed, unlocked_at_total}
use nakama_sol_x.Stream.{unlocked_at}
use nakama_sol_x.Instructions.Charge.{Charge, charge_handler, charge_tail, next_charge_after}
use nakama_sol_x.Instructions.Charge.Hint.{
  next_in_range, checked_add_i64_total, next_charge_after_total,
}

-- The tail goes through when a satellite is attached exactly if the deposit is used up.
charge_tail_total :
    (c : Charge) (s : Subscription) (now : ℤ)
    → InI64 now
    → pos_part now + pos_part grace_duration < i64_bound
    → is_some c.graced_subscription ≡ (s.withdrawn_amount == s.deposited_amount)
    → (c' : Charge) × (events : List Event) × (charge_tail c s now ≡ ok (c', events))
unfolding charge_tail
charge_tail_total c s now clock fits match = elim (Option-cases c.graced_subscription) [
  | inl absent ↦
      (record c { subscription = record { key = c.subscription.key; info = s } }, [], ground arith)
  | inr (g, attached) ↦
      let until = next_in_range now now grace_duration clock (omega arith) (omega arith) fits in
      (
        record c {
          subscription = record {
            key = c.subscription.key;
            info = record s { state = SubscriptionState.grace_period };
          };
          graced_subscription = some (record {
            key = g.key;
            info = record {
              subscription = c.subscription.key;
              entered_grace_at = now;
              grace_until = now +ℤ grace_duration;
            };
          });
        },
        grace_entered (record {
          subscription = c.subscription.key;
          entered_grace_at = now;
          grace_until = now +ℤ grace_duration;
        })
            ∷ [],
        ground (arith, checked_add_i64_total now grace_duration until),
      )
]

-- A charge of a sound active subscription goes through when something is due, the vault covers it,
-- the merchant's account is open, of the same mint, and has room, and a satellite is attached
-- exactly if the deposit is used up; the clock is within an `i64` of the anchor, of one period and
-- of the grace window.
pub charge_handler_succeeds :
    (spl : SplToken) (c : Charge) (now : ℤ)
    → SplLaws spl
    → IsSound c.subscription.info
    → c.subscription.info.state ≡ SubscriptionState.active
    → InI64 now
    → c.subscription.info.stream_start ≤ℤ now
    → gap now c.subscription.info.stream_start < i64_bound
    → pos_part now + pos_part c.subscription.info.period < i64_bound
    → pos_part now + pos_part grace_duration < i64_bound
    → c.subscription.info.withdrawn_amount < streamed c.subscription.info now
    → c.tokens c.vault ≢ none
    → c.tokens c.merchant_ata ≢ none
    → mint_of (c.tokens c.vault) ≡ mint_of (c.tokens c.merchant_ata)
    → streamed c.subscription.info now
      ≤ c.subscription.info.withdrawn_amount + balance c.tokens c.vault
    → balance c.tokens c.merchant_ata + streamed c.subscription.info now < u64_bound
    → is_some c.graced_subscription
      ≡ (streamed c.subscription.info now == c.subscription.info.deposited_amount)
    → (c' : Charge) × (events : List Event) × (charge_handler spl c now ≡ ok (c', events))
unfolding charge_handler
charge_handler_succeeds spl c now laws sound active clock le near fits window due vault_open
      ata_open mint funded room attached =
    let s = c.subscription.info in
    let unlocked = unlocked_at_total NakamaError.math_overflow s now sound le near in
    let (tokens, paid) =
      laws.transfer_succeeds c.vault c.merchant_ata (streamed s now - s.withdrawn_amount) c.tokens
        vault_open ata_open mint (omega arith) (omega arith) in
    let hint =
      next_charge_after_total s now (streamed s now) sound clock le near (omega arith) (omega arith)
        fits in
    let next = s.stream_start +ℤ pos (streamed s now * pos_part s.period / s.price) +ℤ s.period in
    let (c', events, tail) =
      charge_tail_total (record c { tokens = tokens })
        (record s {
          withdrawn_amount = streamed s now;
          last_charge_at = now;
          next_charge_at = next;
        })
        now clock window attached in
    (
      c',
      events
          ++ (subscription_charged (record {
            subscription = c.subscription.key;
            amount = streamed s now - s.withdrawn_amount;
            withdrawn_total = streamed s now;
            timestamp = now;
          })
              ∷ []),
      ground (arith, unlocked, paid, hint, tail),
    )

-- The tail refuses a satellite that is predicted wrongly.
charge_tail_mispredicted :
    (c : Charge) (s : Subscription) (now : ℤ)
    → InI64 now
    → pos_part now + pos_part grace_duration < i64_bound
    → is_some c.graced_subscription ≢ (s.withdrawn_amount == s.deposited_amount)
    → charge_tail c s now
      ≡ err (
          custom (
            if is_some c.graced_subscription
            then NakamaError.unexpected_grace_satellite
            else NakamaError.missing_grace_satellite))
unfolding charge_tail
charge_tail_mispredicted c s now clock window wrong =
    let until =
      checked_add_i64_total now grace_duration
        (next_in_range now now grace_duration clock (omega arith) (omega arith) window) in
    elim (Option-cases c.graced_subscription) [
      | inl absent ↦ ground (arith, until)
      | inr (g, attached) ↦ ground arith
    ]

-- A charge fails as its tail does.
charge_handler_tail-err :
    (spl : SplToken) (c : Charge) (now next : ℤ) (u : ℕ) (tokens : Tokens) (x : Error)
    → c.subscription.info.state ≡ SubscriptionState.active
    → c.subscription.info.stream_start ≤ℤ now
    → 0 < pos_part c.subscription.info.period
    → c.subscription.info.withdrawn_amount < u
    → u < u64_bound
    → unlocked_at NakamaError.math_overflow c.subscription.info.price c.subscription.info.period
        c.subscription.info.deposited_amount c.subscription.info.stream_start now
      ≡ ok u
    → spl.transfer c.vault c.merchant_ata (u - c.subscription.info.withdrawn_amount) c.tokens
      ≡ some tokens
    → next_charge_after c.subscription.info u ≡ ok next
    → charge_tail
        (record c { tokens = tokens })
        (record c.subscription.info {
          withdrawn_amount = u;
          last_charge_at = now;
          next_charge_at = next;
        })
        now
      ≡ err x
    → charge_handler spl c now ≡ err x
unfolding charge_handler
charge_handler_tail-err spl c now next u tokens x active le period due fits unlocked paid hint
      tail =
    ground arith

-- The same charge with the satellite predicted wrongly is refused: as unexpected where one is
-- attached and the deposit is not used up, as missing where none is and it is.
pub charge_handler_mispredicted :
    (spl : SplToken) (c : Charge) (now : ℤ)
    → SplLaws spl
    → IsSound c.subscription.info
    → c.subscription.info.state ≡ SubscriptionState.active
    → InI64 now
    → c.subscription.info.stream_start ≤ℤ now
    → gap now c.subscription.info.stream_start < i64_bound
    → pos_part now + pos_part c.subscription.info.period < i64_bound
    → pos_part now + pos_part grace_duration < i64_bound
    → c.subscription.info.withdrawn_amount < streamed c.subscription.info now
    → c.tokens c.vault ≢ none
    → c.tokens c.merchant_ata ≢ none
    → mint_of (c.tokens c.vault) ≡ mint_of (c.tokens c.merchant_ata)
    → streamed c.subscription.info now
      ≤ c.subscription.info.withdrawn_amount + balance c.tokens c.vault
    → balance c.tokens c.merchant_ata + streamed c.subscription.info now < u64_bound
    → is_some c.graced_subscription
      ≢ (streamed c.subscription.info now == c.subscription.info.deposited_amount)
    → charge_handler spl c now
      ≡ err (
          custom (
            if is_some c.graced_subscription
            then NakamaError.unexpected_grace_satellite
            else NakamaError.missing_grace_satellite))
charge_handler_mispredicted spl c now laws sound active clock le near fits window due vault_open
      ata_open mint funded room wrong =
    let s = c.subscription.info in
    let unlocked = unlocked_at_total NakamaError.math_overflow s now sound le near in
    let (tokens, paid) =
      laws.transfer_succeeds c.vault c.merchant_ata (streamed s now - s.withdrawn_amount) c.tokens
        vault_open ata_open mint (omega arith) (omega arith) in
    let hint =
      next_charge_after_total s now (streamed s now) sound clock le near (omega arith) (omega arith)
        fits in
    let next = s.stream_start +ℤ pos (streamed s now * pos_part s.period / s.price) +ℤ s.period in
    charge_handler_tail-err spl c now next (streamed s now) tokens
      (custom (
        if is_some c.graced_subscription
        then NakamaError.unexpected_grace_satellite
        else NakamaError.missing_grace_satellite))
      active le sound.period_pos due (omega (arith, sound.deposited_range)) unlocked paid hint
      (charge_tail_mispredicted (record c { tokens = tokens })
        (record s {
          withdrawn_amount = streamed s now;
          last_charge_at = now;
          next_charge_at = next;
        })
        now clock window wrong)
