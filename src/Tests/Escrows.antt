-- ===== src/Tests/Escrows.antt =====
-- A history of one escrow.
use nakama_sol_x.Prelude.{
  ℤ, pos, ◌-ℤ◌, ◌+ℤ◌, ◌≡◌, refl, Option, none, some, true, false, List, [], ◌∷◌, arith,
}
use nakama_sol_x.Program.State.{Subscription, SubscriptionState}
use nakama_sol_x.Escrow.{
  Escrow, Request, subscribe, charge, cancel, top_up, pause, resume, open_session, settle_usage,
}
use nakama_sol_x.Stream.{unlocked_at}
use nakama_sol_x.Instructions.Subscribe.{subscribe_accounts, subscribe_handler}
use nakama_sol_x.Instructions.Charge.{
  charge_accounts, charge_handler, charge_tail, next_charge_after,
}
use nakama_sol_x.Instructions.OpenSession.{open_session_accounts, open_session_handler}
use nakama_sol_x.Instructions.SettleUsage.{
  settle_usage_accounts, settle_usage_handler, check_cap, parent_remaining, record_usage,
}
use nakama_sol_x.Instructions.Pause.{pause_accounts, pause_handler}
use nakama_sol_x.Instructions.Resume.{resume_accounts, resume_handler}
use nakama_sol_x.Instructions.TopUp.{top_up_accounts, top_up_handler, recover}
use nakama_sol_x.Instructions.Cancel.{
  cancel_accounts, cancel_handler, effective_now, settlement, transfer_positive,
}
use nakama_sol_x.Escrow.Process.{
  process, run_subscribe, run_charge, run_open_session, run_settle_usage, run_pause, run_resume,
  run_top_up, run_cancel, session_key,
}
use nakama_sol_x.Program.Events.{Event}
use nakama_sol_x.Escrow.Runs.{IsSetting, Inv, AreSteps, run, run-Inv}
use nakama_sol_x.Escrow.Exact.{IsExact}
use nakama_sol_x.Escrow.Ledger.{NoGifts, run-IsExact}
use nakama_sol_x.Tests.Token.{
  token_program, token_program-SplLaws, addresses, put, transfer, close_account, init_account,
}
use nakama_sol_x.Tests.Fixtures.{
  plan, plan_key, mint, merchant, subscriber, facilitator, keeper, sub_key, vault_key, merchant_ata,
  subscriber_ata, nothing, account, running, funded, result,
}

-- Before the subscription.
abbrev pub fresh : Escrow
fresh = record {
  subscription = none;
  graced = none;
  paused = none;
  sessions = λ id. none;
  tokens =
      put (put nothing merchant_ata (account merchant 10)) subscriber_ata
        (account subscriber 9000000);
}

-- A subscription that is started, charged, metered, paused, resumed, in grace and funded again.
abbrev lifetime : List (ℤ × Request)
lifetime =
    (pos 1000, subscribe subscriber mint vault_key subscriber_ata 2)
    ∷ (pos 1060, charge keeper plan_key vault_key merchant_ata false)
    ∷ (pos 1070, open_session subscriber 9 facilitator 200000)
    ∷ (pos 1080, settle_usage facilitator vault_key merchant_ata 9 150000)
    ∷ (pos 1090, pause merchant)
    ∷ (pos 1190, resume merchant)
    ∷ (pos 1300, charge keeper plan_key vault_key merchant_ata true)
    ∷ (pos 2000, top_up subscriber vault_key subscriber_ata true 3000000)
    ∷ []

abbrev history : List (ℤ × Request)
history =
    (pos 1000, subscribe subscriber mint vault_key subscriber_ata 2)
    ∷ (pos 1060, charge keeper plan_key vault_key merchant_ata false)
    ∷ (pos 1070, open_session subscriber 9 facilitator 200000)
    ∷ (pos 1080, settle_usage facilitator vault_key merchant_ata 9 150000)
    ∷ (pos 1090, pause merchant)
    ∷ (pos 1190, resume merchant)
    ∷ (pos 1300, charge keeper plan_key vault_key merchant_ata true)
    ∷ (pos 2000, top_up subscriber vault_key subscriber_ata true 3000000)
    ∷ (pos 2010, cancel subscriber subscriber vault_key merchant_ata subscriber_ata false false)
    ∷ []

pub setting : IsSetting addresses plan sub_key
setting = ground arith

pub fresh-Inv : Inv addresses sub_key fresh
fresh-Inv = ((refl, refl), λ id x h. ground arith)

allowed : AreSteps addresses token_program plan sub_key history
allowed = ground arith

run-Inv_example : Inv addresses sub_key (run addresses token_program plan sub_key fresh history)
run-Inv_example =
    run-Inv addresses token_program plan sub_key fresh history token_program-SplLaws setting allowed
      fresh-Inv

lifetime_allowed : AreSteps addresses token_program plan sub_key lifetime
lifetime_allowed = ground arith

no_gifts : NoGifts addresses sub_key lifetime
no_gifts = ground arith

run-IsExact_example :
    IsExact addresses sub_key (run addresses token_program plan sub_key fresh lifetime)
run-IsExact_example =
    run-IsExact addresses token_program plan sub_key fresh lifetime token_program-SplLaws setting
      lifetime_allowed no_gifts fresh-Inv tt

abbrev end_state : Option Subscription → Option SubscriptionState
end_state none = none
end_state (some s) = some s.state

all_succeed :
    end_state (run addresses token_program plan sub_key fresh history).subscription
    ≡ some SubscriptionState.cancelled
unfolding run process run_subscribe subscribe_accounts subscribe_handler run_charge charge_accounts
    charge_handler charge_tail next_charge_after run_open_session open_session_accounts
    open_session_handler run_settle_usage settle_usage_accounts settle_usage_handler check_cap
    parent_remaining record_usage run_pause pause_accounts pause_handler run_resume resume_accounts
    resume_handler run_top_up top_up_accounts top_up_handler recover run_cancel cancel_accounts
    cancel_handler effective_now settlement transfer_positive session_key unlocked_at ◌-ℤ◌ ◌+ℤ◌
    transfer close_account init_account
all_succeed = refl

abbrev started : Escrow
started = record fresh { subscription = some (running 0); tokens = funded 6000000 }

abbrev stopped : Escrow × List Event
stopped =
    result (started, [])
      (process addresses token_program plan sub_key started (pos 1010) (pause merchant))
