-- ===== src/Tests/Instructions.antt =====
-- Charging and cancelling at concrete inputs.
use nakama_sol_x.Prelude.{
  ℤ, pos, ◌-ℤ◌, ◌+ℤ◌, ◌≡◌, ◌≢◌, refl, none, some, ok, err, List, [], arith, inl,
}
use nakama_sol_x.Program.Errors.{NakamaError, custom}
use nakama_sol_x.Program.State.{SubscriptionState}
use nakama_sol_x.Program.Events.{Event}
use nakama_sol_x.Stream.{unlocked_at}
use nakama_sol_x.Stream.Bounds.{streamed, unlocked_at-eq-streamed}
use nakama_sol_x.Instructions.Charge.{Charge, charge_handler, charge_tail, next_charge_after}
use nakama_sol_x.Instructions.Charge.Outcome.{Charged, charge_handler-Charged}
use nakama_sol_x.Instructions.Charge.Progress.{charge_handler_succeeds, charge_handler_mispredicted}
use nakama_sol_x.Instructions.Cancel.{
  Cancel, cancel_handler, effective_now, settlement, transfer_positive,
}
use nakama_sol_x.Instructions.Cancel.Payout.{
  Distributed, cancel_handler-Distributed, cancel_handler_blocked,
}
use nakama_sol_x.Instructions.Cancel.Progress.{cancel_handler_succeeds}
use nakama_sol_x.Tests.Token.{token_program, token_program-SplLaws, transfer, close_account}
use nakama_sol_x.Tests.Fixtures.{
  running, running-IsSound, drawn-IsSound, funded, sub_key, plan_key, vault_key, merchant_ata,
  subscriber_ata, subscriber, keeper, result, grace_account,
}

abbrev pub charge_half : Charge
charge_half = record {
  subscription = record { key = sub_key; info = running 0 };
  plan = plan_key;
  vault = vault_key;
  merchant_ata = merchant_ata;
  payer = keeper;
  graced_subscription = none;
  tokens = funded 6000000;
}

abbrev pub charged_half : Charge × List Event
charged_half = result (charge_half, []) (charge_handler token_program charge_half (pos 1060))

pub charged_half_ok : charge_handler token_program charge_half (pos 1060) ≡ ok charged_half
unfolding charge_handler unlocked_at ◌-ℤ◌ transfer next_charge_after ◌+ℤ◌ charge_tail
charged_half_ok = refl

half_paid : charged_half.0.subscription.info.withdrawn_amount ≡ 3000000
unfolding charge_handler unlocked_at ◌-ℤ◌ transfer next_charge_after ◌+ℤ◌ charge_tail
half_paid = refl

unlocked_half :
    unlocked_at NakamaError.math_overflow 3000000 (pos 60) 6000000 (pos 1000) (pos 1060)
    ≡ ok 3000000
unfolding unlocked_at ◌-ℤ◌
unlocked_half = refl

unlocked_at-eq-streamed_example : 3000000 ≡ streamed (running 0) (pos 1060)
unlocked_at-eq-streamed_example =
    unlocked_at-eq-streamed NakamaError.math_overflow (running 0) (pos 1060) 3000000 running-IsSound
      (omega arith) unlocked_half

charge_handler-Charged_example : Charged token_program charge_half charged_half.0 (pos 1060)
charge_handler-Charged_example =
    charge_handler-Charged token_program charge_half charged_half.0 (pos 1060) charged_half.1
      running-IsSound charged_half_ok

charge_handler_succeeds_example :
    (c' : Charge) × (events : List Event) × (charge_handler token_program charge_half (pos 1060)
      ≡ ok (c', events))
charge_handler_succeeds_example =
    charge_handler_succeeds token_program charge_half (pos 1060) token_program-SplLaws
      running-IsSound refl (ground arith) (omega arith) (omega arith) (omega arith) (omega arith)
      (omega arith) (ground arith) (ground arith) (ground arith) (ground arith) (ground arith) refl

abbrev charge_guessing : Charge
charge_guessing = record charge_half { graced_subscription = some grace_account }

charge_handler_mispredicted_example :
    charge_handler token_program charge_guessing (pos 1060)
    ≡ err (custom NakamaError.unexpected_grace_satellite)
charge_handler_mispredicted_example =
    charge_handler_mispredicted token_program charge_guessing (pos 1060) token_program-SplLaws
      running-IsSound refl (ground arith) (omega arith) (omega arith) (omega arith) (omega arith)
      (omega arith) (ground arith) (ground arith) (ground arith) (ground arith) (ground arith)
      (ground arith)

abbrev cancel_early : Cancel
cancel_early = record {
  signer = subscriber;
  subscription = record { key = sub_key; info = running 1000000 };
  subscriber = subscriber;
  vault = vault_key;
  merchant_ata = merchant_ata;
  subscriber_ata = subscriber_ata;
  graced_subscription = none;
  paused_subscription = none;
  tokens = funded 5000000;
}

abbrev cancelled_early : Cancel × List Event
cancelled_early = result (cancel_early, []) (cancel_handler token_program cancel_early (pos 1030))

cancelled_early_ok : cancel_handler token_program cancel_early (pos 1030) ≡ ok cancelled_early
unfolding cancel_handler effective_now settlement unlocked_at ◌-ℤ◌ transfer_positive transfer
    close_account
cancelled_early_ok = refl

cancel_handler-Distributed_example :
    (t : ℤ) × (effective_now SubscriptionState.active none none (pos 1030) ≡ ok t)
    × Distributed cancel_early cancelled_early.0 t
cancel_handler-Distributed_example =
    cancel_handler-Distributed token_program cancel_early cancelled_early.0 (pos 1030)
      cancelled_early.1 token_program-SplLaws drawn-IsSound (ground arith) (ground arith)
      (ground arith) cancelled_early_ok

early_moment : effective_now SubscriptionState.active none none (pos 1030) ≡ ok (pos 1030)
unfolding effective_now
early_moment = refl

cancel_handler_succeeds_example :
    (c' : Cancel) × (events : List Event) × (cancel_handler token_program cancel_early (pos 1030)
      ≡ ok (c', events))
cancel_handler_succeeds_example =
    cancel_handler_succeeds token_program cancel_early (pos 1030) (pos 1030) token_program-SplLaws
      drawn-IsSound (inl refl) refl early_moment (omega arith) (omega arith) (omega arith)
      (omega arith) (ground arith) (ground arith) (ground arith) (ground arith) (ground arith)
      (ground arith) refl refl (ground arith) (ground arith) (ground arith)

-- Somebody has sent the vault one base unit.
abbrev cancel_dusted : Cancel
cancel_dusted = record cancel_early { tokens = funded 5000001 }

cancel_handler_blocked_example :
    cancel_handler token_program cancel_dusted (pos 1030) ≢ ok cancelled_early
cancel_handler_blocked_example =
    cancel_handler_blocked token_program cancel_dusted (pos 1030) token_program-SplLaws
      drawn-IsSound (ground arith) (ground arith) (ground arith) (ground arith) cancelled_early.0
      cancelled_early.1
