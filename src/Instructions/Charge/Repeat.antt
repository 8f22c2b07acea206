-- ===== src/Instructions/Charge/Repeat.antt =====
-- A charge leaves nothing to charge at the same moment.
use nakama_sol_x.Prelude.{ℤ, ◌≡◌, ◌⊎◌, inl, inr, ok, err, arith, List, Result-cases}
use nakama_sol_x.Program.Errors.{NakamaError, custom}
use nakama_sol_x.Program.Events.{Event}
use nakama_sol_x.Program.Accounts.{SplToken}
use nakama_sol_x.Stream.{unlocked_at}
use nakama_sol_x.Stream.Bounds.{IsSound, unlocked_at-eq-streamed}
use nakama_sol_x.Instructions.Charge.{Charge, charge_handler}
use nakama_sol_x.Instructions.Charge.Outcome.{charge_handler-Charged}

-- After a successful charge of a sound subscription a second charge of it at the same time,
-- whatever accounts it names, is refused: nothing is unlocked, or the subscription is no longer
-- active.
pub charge_handler_again :
    (spl : SplToken) (c c' d : Charge) (now : ℤ) (events : List Event)
    → IsSound c.subscription.info
    → charge_handler spl c now ≡ ok (c', events)
    → d.subscription ≡ c'.subscription
    → (charge_handler spl d now ≡ err (custom NakamaError.insufficient_unlocked_funds))
      ⊎ (charge_handler spl d now ≡ err (custom NakamaError.illegal_state_for_charge))
unfolding charge_handler
charge_handler_again spl c c' d now events sound h same =
    let s = c.subscription.info in
    let done = charge_handler-Charged spl c c' now events sound h in
    elim (Result-cases (
      unlocked_at NakamaError.math_overflow s.price s.period s.deposited_amount s.stream_start
        now)) [
          | inl (u, e) ↦
              let value =
                unlocked_at-eq-streamed NakamaError.math_overflow s now u sound done.in_order e in
              ground (arith, done.written, done.was_active, done.in_order, value, same)
          | inr (x, e) ↦ ground arith
        ]
