-- ===== src/Tests/Sessions.antt =====
-- Pay sessions at concrete inputs.
use nakama_sol_x.Prelude.{
  pos, ◌+◌, ◌-◌, ◌-ℤ◌, ◌+ℤ◌, ◌≡◌, refl, none, some, ok, err, List, [], arith, inl,
}
use nakama_sol_x.Program.Errors.{NakamaError, custom}
use nakama_sol_x.Program.State.{SubscriptionState, PaySession}
use nakama_sol_x.Program.Events.{Event}
use nakama_sol_x.Program.Accounts.{Account}
use nakama_sol_x.Stream.{unlocked_at}
use nakama_sol_x.Stream.Bounds.{streamed}
use nakama_sol_x.Instructions.Charge.{Charge, charge_handler, charge_tail, next_charge_after}
use nakama_sol_x.Instructions.TopUp.{TopUp, top_up_handler}
use nakama_sol_x.Instructions.SettleUsage.{
  SettleUsage, settle_usage_handler, parent_remaining, check_cap, record_usage,
}
use nakama_sol_x.Instructions.SettleUsage.Outcome.{Settled, settle_usage_handler-Settled}
use nakama_sol_x.Instructions.SettleUsage.Progress.{settle_usage_handler_succeeds}
use nakama_sol_x.Instructions.SettleUsage.Compose.{
  settle_then_charge, settle_drains, settle_drained_top_up,
}
use nakama_sol_x.Instructions.OpenSession.{OpenSession, open_session_handler}
use nakama_sol_x.Instructions.OpenSession.Outcome.{Opened, open_session_handler-Opened}
use nakama_sol_x.Tests.Token.{token_program, token_program-SplLaws, transfer}
use nakama_sol_x.Tests.Fixtures.{
  running, running-IsSound, funded, sub_key, plan_key, vault_key, merchant_ata, subscriber_ata,
  subscriber, facilitator, keeper, result, session,
}

abbrev settle : SettleUsage
settle = record {
  parent = record { key = sub_key; info = running 0 };
  pay_session = record { key = 60000; info = session };
  vault = vault_key;
  merchant_ata = merchant_ata;
  facilitator = facilitator;
  tokens = funded 6000000;
}

abbrev settled : SettleUsage × List Event
settled = result (settle, []) (settle_usage_handler token_program settle 500000 (pos 1060))

settled_ok : settle_usage_handler token_program settle 500000 (pos 1060) ≡ ok settled
unfolding settle_usage_handler check_cap parent_remaining unlocked_at ◌-ℤ◌ transfer record_usage
settled_ok = refl

settle_usage_handler-Settled_example : Settled token_program settle settled.0 500000 (pos 1060)
settle_usage_handler-Settled_example =
    settle_usage_handler-Settled token_program settle settled.0 500000 (pos 1060) settled.1
      running-IsSound settled_ok

settle_usage_handler_succeeds_example :
    (c' : SettleUsage) × (events : List Event) × (settle_usage_handler token_program settle 500000
        (pos 1060)
      ≡ ok (c', events))
settle_usage_handler_succeeds_example =
    settle_usage_handler_succeeds token_program settle 500000 (pos 1060) token_program-SplLaws
      running-IsSound (omega arith) refl refl (omega arith) (omega arith) (ground arith) (inl refl)
      (omega arith) (ground arith) (ground arith) (ground arith) (ground arith) (ground arith)

-- The subscription of a settlement, charged.
abbrev charge_of : SettleUsage → Charge
charge_of s = record {
  subscription = s.parent;
  plan = plan_key;
  vault = vault_key;
  merchant_ata = merchant_ata;
  payer = keeper;
  graced_subscription = none;
  tokens = s.tokens;
}

abbrev charged : Charge × List Event
charged =
    result (charge_of settled.0, []) (charge_handler token_program (charge_of settled.0) (pos 1060))

charged_ok : charge_handler token_program (charge_of settled.0) (pos 1060) ≡ ok charged
unfolding charge_handler unlocked_at ◌-ℤ◌ transfer next_charge_after ◌+ℤ◌ charge_tail
    settle_usage_handler check_cap parent_remaining record_usage
charged_ok = refl

settle_then_charge_example :
    (token_program.transfer vault_key merchant_ata
        (streamed (running 0) (pos 1060) - (0 + 500000))
        settled.0.tokens
      ≡ some charged.0.tokens)
    × (charged.0.subscription.info.withdrawn_amount ≡ streamed (running 0) (pos 1060))
settle_then_charge_example =
    settle_then_charge token_program settle settled.0 500000 (pos 1060) settled.1
      (charge_of settled.0) charged.0 charged.1 running-IsSound settled_ok refl charged_ok

abbrev drained : SettleUsage × List Event
drained = result (settle, []) (settle_usage_handler token_program settle 6000000 (pos 1200))

drained_ok : settle_usage_handler token_program settle 6000000 (pos 1200) ≡ ok drained
unfolding settle_usage_handler check_cap parent_remaining unlocked_at ◌-ℤ◌ transfer record_usage
drained_ok = refl

settle_drains_example :
    (drained.0.parent.info.state ≡ SubscriptionState.active)
    × (charge_handler token_program (charge_of drained.0) (pos 1300)
        ≡ err (custom NakamaError.insufficient_unlocked_funds))
settle_drains_example =
    settle_drains token_program settle drained.0 6000000 (pos 1200) drained.1 (charge_of drained.0)
      (pos 1300) running-IsSound drained_ok refl (omega arith) (omega arith) refl

abbrev refill : TopUp
refill = record {
  subscriber = subscriber;
  subscription = drained.0.parent;
  graced_subscription = none;
  vault = vault_key;
  subscriber_ata = subscriber_ata;
  tokens = drained.0.tokens;
}

abbrev refilled : TopUp × List Event
refilled = result (refill, []) (top_up_handler token_program refill 1000000 (pos 2000))

refilled_ok : top_up_handler token_program refill 1000000 (pos 2000) ≡ ok refilled
unfolding top_up_handler settle_usage_handler check_cap parent_remaining unlocked_at ◌-ℤ◌ transfer
    record_usage
refilled_ok = refl

settle_drained_top_up_example :
    streamed refilled.0.subscription.info (pos 2000)
    ≡ refilled.0.subscription.info.withdrawn_amount + 1000000
settle_drained_top_up_example =
    settle_drained_top_up token_program settle drained.0 6000000 (pos 1200) drained.1 refill
      refilled.0 1000000 (pos 2000) refilled.1 running-IsSound drained_ok refl refl (omega arith)
      refilled_ok

abbrev opening : OpenSession
opening = record {
  parent = record { key = sub_key; info = running 0 };
  pay_session = 60000;
  pay_session_bump = 255;
  subscriber = subscriber;
}

abbrev opened_result : Account PaySession × List Event
opened_result =
    result (record { key = 0; info = session }, [])
      (open_session_handler opening 9 facilitator 400000 (pos 1010))

opened_ok : open_session_handler opening 9 facilitator 400000 (pos 1010) ≡ ok opened_result
unfolding open_session_handler
opened_ok = refl

open_session_handler-Opened_example : Opened opening 9 facilitator 400000 (pos 1010) opened_result.0
open_session_handler-Opened_example =
    open_session_handler-Opened opening 9 facilitator 400000 (pos 1010) opened_result.0
      opened_result.1 opened_ok
