-- ===== src/Tests/Exits.antt =====
-- A history of an escrow with a way out.
use nakama_sol_x.Prelude.{
  ok, ℤ, pos, ◌-ℤ◌, ◌+ℤ◌, ◌≤ℤ◌, ◌≡◌, refl, none, some, is_some, List, [], ◌∷◌, arith, false,
}
use nakama_sol_x.Program.State.{Subscription, PaySession}
use nakama_sol_x.Instructions.Cancel.{Cancel}
use nakama_sol_x.Instructions.Cancel.Payout.{Distributed}
use nakama_sol_x.Stream.{unlocked_at}
use nakama_sol_x.Instructions.Subscribe.{subscribe_accounts, subscribe_handler}
use nakama_sol_x.Instructions.Charge.{
  charge_accounts, charge_handler, charge_tail, next_charge_after,
}
use nakama_sol_x.Instructions.OpenSession.{open_session_accounts, open_session_handler}
use nakama_sol_x.Escrow.{Escrow, Request, subscribe, charge, open_session}
use nakama_sol_x.Escrow.Process.{process, run_subscribe, run_charge, run_open_session, session_key}
use nakama_sol_x.Escrow.Runs.{AreSteps, run}
use nakama_sol_x.Escrow.Ledger.{NoGifts}
use nakama_sol_x.Escrow.Timely.{IsTimelyEscrow}
use nakama_sol_x.Escrow.Timely.Runs.{AreOrdered, run-IsTimely}
use nakama_sol_x.Escrow.Exit.{AreHeld, run-leaving}
use nakama_sol_x.Escrow.Transactions.{commit, leaving}
use nakama_sol_x.Escrow.Transactions.Closing.{IsOwn, AreClosable, cleared}
use nakama_sol_x.Escrow.Transactions.Cancelling.{own_vault, cancellation}
use nakama_sol_x.Tests.Token.{
  token_program, token_program-SplLaws, addresses, transfer, init_account,
}
use nakama_sol_x.Tests.Fixtures.{
  plan, plan_key, mint, merchant, subscriber, facilitator, keeper, sub_key, vault_key, merchant_ata,
  subscriber_ata, running, session,
}
use nakama_sol_x.Tests.Escrows.{fresh, setting, fresh-Inv}

abbrev started_history : List (ℤ × Request)
started_history =
    (pos 1000, subscribe subscriber mint vault_key subscriber_ata 2)
    ∷ (pos 1020, charge keeper plan_key vault_key merchant_ata false)
    ∷ (pos 1030, open_session subscriber 9 facilitator 200000)
    ∷ []

allowed : AreSteps addresses token_program plan sub_key started_history
allowed = ground arith

ordered : AreOrdered (pos 1000) started_history
ordered = ground arith

no_gifts : NoGifts addresses sub_key started_history
no_gifts = ground arith

run-IsTimely_example :
    IsTimelyEscrow sub_key
      (run addresses token_program plan sub_key fresh started_history)
      (pos 1030)
run-IsTimely_example =
    run-IsTimely addresses token_program plan sub_key fresh (pos 1000) started_history
      token_program-SplLaws setting allowed ordered fresh-Inv tt

abbrev charged_once : Subscription
charged_once = record (running 1000000) { last_charge_at = pos 1020; next_charge_at = pos 1080 }

abbrev metered : PaySession
metered = record session {
  opened_at = pos 1030;
  last_settle_at = pos 0;
  usage_amount = 0;
  reservation_cap = 200000;
}

abbrev reached : Escrow
unfolding run process run_subscribe subscribe_accounts subscribe_handler run_charge charge_accounts
    charge_handler charge_tail next_charge_after run_open_session open_session_accounts
    open_session_handler session_key unlocked_at ◌-ℤ◌ ◌+ℤ◌ transfer init_account
reached = run addresses token_program plan sub_key fresh started_history

found : reached.subscription ≡ some charged_once
unfolding run process run_subscribe subscribe_accounts subscribe_handler run_charge charge_accounts
    charge_handler charge_tail next_charge_after run_open_session open_session_accounts
    open_session_handler session_key unlocked_at ◌-ℤ◌ ◌+ℤ◌ transfer init_account
found = refl

same : run addresses token_program plan sub_key fresh started_history ≡ reached
unfolding run process run_subscribe subscribe_accounts subscribe_handler run_charge charge_accounts
    charge_handler charge_tail next_charge_after run_open_session open_session_accounts
    open_session_handler session_key unlocked_at ◌-ℤ◌ ◌+ℤ◌ transfer init_account
same = refl

own : IsOwn addresses sub_key subscriber charged_once
own = ground arith

closable : AreClosable addresses sub_key reached.sessions (9 ∷ [])
unfolding run process run_subscribe subscribe_accounts subscribe_handler run_charge charge_accounts
    charge_handler charge_tail next_charge_after run_open_session open_session_accounts
    open_session_handler session_key unlocked_at ◌-ℤ◌ ◌+ℤ◌ transfer init_account
closable = ((metered, refl, ground arith), tt, tt)

held : AreHeld addresses sub_key charged_once subscriber_ata reached.tokens
unfolding run process run_subscribe subscribe_accounts subscribe_handler run_charge charge_accounts
    charge_handler charge_tail next_charge_after run_open_session open_session_accounts
    open_session_handler session_key unlocked_at ◌-ℤ◌ ◌+ℤ◌ transfer init_account
held = record {
  at_merchant = record { mint = mint; authority = merchant; amount = 1000010 };
  at_subscriber = record { mint = mint; authority = subscriber; amount = 3000000 };
  merchant_held = refl;
  subscriber_held = refl;
  merchant_mint = refl;
  subscriber_mint = refl;
  subscriber_owner = refl;
  vault_not_subscriber = ground arith;
  merchant_not_subscriber = ground arith;
  merchant_room = omega arith;
  subscriber_room = omega arith;
}

run-leaving_example :
    (t : ℤ) × (e' : Escrow) × (done : Cancel) × (t ≤ℤ pos 1060)
    × (commit addresses token_program plan sub_key
          (pos 1060)
          (leaving subscriber
            (own_vault addresses token_program plan sub_key
              (pos 1060)
              charged_once
              subscriber
              subscriber_ata
              reached)
            merchant_ata
            subscriber_ata
            (is_some reached.graced)
            (is_some reached.paused)
            (9 ∷ []))
          reached
        ≡ ok e')
    × (e'.subscription ≡ none)
    × (e'.graced ≡ none)
    × (e'.paused ≡ none)
    × (e'.sessions ≡ cleared reached.sessions (9 ∷ []))
    × (e'.tokens ≡ done.tokens)
    × Distributed
        (cancellation addresses token_program plan sub_key
          (pos 1060)
          charged_once
          subscriber
          subscriber_ata
          reached)
        done
        t
run-leaving_example =
    run-leaving addresses token_program plan sub_key fresh (pos 1000) started_history reached
      (pos 1060) charged_once subscriber subscriber_ata (9 ∷ []) token_program-SplLaws setting
      allowed ordered no_gifts fresh-Inv tt tt (omega arith) (omega arith) (λ gone. ground arith)
      same found own closable held
