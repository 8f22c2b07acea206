-- ===== src/Tests/Streams.antt =====
-- Subscribing, pausing and topping up at concrete inputs.
use nakama_sol_x.Prelude.{pos, ◌+◌, ◌-ℤ◌, ◌+ℤ◌, ◌≡◌, refl, some, ok, List, [], arith}
use nakama_sol_x.Program.State.{Subscription, SubscriptionState}
use nakama_sol_x.Program.Events.{Event}
use nakama_sol_x.Program.Accounts.{Account, Tokens}
use nakama_sol_x.Stream.{unlocked_at}
use nakama_sol_x.Stream.Bounds.{streamed}
use nakama_sol_x.Instructions.Subscribe.{Subscribe, subscribe_handler}
use nakama_sol_x.Instructions.Subscribe.Outcome.{Started, subscribe_handler-Started}
use nakama_sol_x.Instructions.Pause.{Pause, pause_handler}
use nakama_sol_x.Instructions.Pause.Freeze.{pause_resume}
use nakama_sol_x.Instructions.Resume.{Resume, resume_handler}
use nakama_sol_x.Instructions.TopUp.{TopUp, top_up_handler, recover}
use nakama_sol_x.Instructions.TopUp.Restart.{top_up_skips_grace}
use nakama_sol_x.Tests.Token.{token_program, transfer}
use nakama_sol_x.Tests.Fixtures.{
  running, running-IsSound, funded, plan, mint, merchant, sub_key, vault_key, paused_key,
  subscriber_ata, subscriber, result, grace_account,
}

abbrev subscribing : Subscribe
subscribing = record {
  subscriber = subscriber;
  plan = plan;
  token_mint = mint;
  subscription = sub_key;
  subscription_bump = 255;
  vault = vault_key;
  vault_bump = 255;
  subscriber_ata = subscriber_ata;
  tokens = funded 0;
}

abbrev subscribed : Account Subscription × Tokens × List Event
subscribed =
    result (record { key = 0; info = running 0 }, funded 0, [])
      (subscribe_handler token_program subscribing 2 (pos 1000))

subscribed_ok : subscribe_handler token_program subscribing 2 (pos 1000) ≡ ok subscribed
unfolding subscribe_handler ◌+ℤ◌ transfer
subscribed_ok = refl

subscribed_running : subscribed.0.info ≡ running 0
unfolding subscribe_handler ◌+ℤ◌ transfer
subscribed_running = refl

subscribe_handler-Started_example :
    Started token_program subscribing 2 (pos 1000) subscribed.0.info subscribed.1
subscribe_handler-Started_example =
    subscribe_handler-Started token_program subscribing 2 (pos 1000) subscribed.0 subscribed.1
      subscribed.2 (omega arith) (ground arith) (ground arith) subscribed_ok

abbrev pausing : Pause
pausing = record {
  subscription = record { key = sub_key; info = running 0 };
  paused_satellite = record {
    key = paused_key;
    info = record { subscription = 0; paused_at = pos 0; bump = 0 };
  };
  paused_bump = 255;
  merchant = merchant;
}

abbrev paused : Pause × List Event
paused = result (pausing, []) (pause_handler pausing (pos 1010))

paused_ok : pause_handler pausing (pos 1010) ≡ ok paused
unfolding pause_handler unlocked_at ◌-ℤ◌
paused_ok = refl

abbrev resuming : Resume
resuming = record {
  subscription = paused.0.subscription;
  paused_satellite = paused.0.paused_satellite;
  merchant = merchant;
}

abbrev resumed : Resume × List Event
resumed = result (resuming, []) (resume_handler resuming (pos 1040))

resumed_ok : resume_handler resuming (pos 1040) ≡ ok resumed
unfolding resume_handler pause_handler unlocked_at ◌-ℤ◌ ◌+ℤ◌
resumed_ok = refl

pause_resume_example :
    (resumed.0.subscription.info
      ≡ record (running 0) { stream_start = pos 1000 +ℤ (pos 1040 -ℤ pos 1010) })
    × (streamed resumed.0.subscription.info (pos 1040 +ℤ pos 20)
        ≡ streamed (running 0) (pos 1010 +ℤ pos 20))
pause_resume_example =
    pause_resume pausing paused.0 resuming resumed.0 (pos 1010) (pos 1040) (pos 20) paused.1
      resumed.1 running-IsSound paused_ok refl refl resumed_ok

abbrev in_grace : Subscription
in_grace = record (running 6000000) { state = SubscriptionState.grace_period }

abbrev refill : TopUp
refill = record {
  subscriber = subscriber;
  subscription = record { key = sub_key; info = in_grace };
  graced_subscription = some grace_account;
  vault = vault_key;
  subscriber_ata = subscriber_ata;
  tokens = funded 0;
}

abbrev refilled : TopUp × List Event
refilled = result (refill, []) (top_up_handler token_program refill 3000000 (pos 5000))

refilled_ok : top_up_handler token_program refill 3000000 (pos 5000) ≡ ok refilled
unfolding top_up_handler recover transfer ◌-ℤ◌ ◌+ℤ◌
refilled_ok = refl

top_up_skips_grace_example :
    (refilled.0.subscription.info.state ≡ SubscriptionState.active)
    × (streamed refilled.0.subscription.info (pos 5000 +ℤ pos 30)
        ≡ streamed (record in_grace { deposited_amount = 6000000 + 3000000 }) (pos 1120 +ℤ pos 30))
top_up_skips_grace_example =
    top_up_skips_grace token_program refill refilled.0 3000000 (pos 5000) (pos 30) refilled.1
      grace_account refl refl refilled_ok
