-- ===== src/Tests/Migrations.antt =====
-- The composite transactions run on an escrow: a tombstone is renewed, an active subscription is
-- left, and a session that a renewal leaves open draws again.
use nakama_sol_x.Prelude.{
  ℕ, pos, ◌+ℤ◌, ◌≡◌, ◌==◌, if◌then◌else◌, refl, Option, some, none, ok, List, [], ◌∷◌, arith,
}
use nakama_sol_x.Program.State.{PaySession}
use nakama_sol_x.Program.Accounts.{TokenAccount, Tokens}
use nakama_sol_x.Program.Events.{Event}
use nakama_sol_x.Escrow.{Escrow, settle_usage}
use nakama_sol_x.Escrow.Runs.{IsSetting}
use nakama_sol_x.Escrow.Process.{process, subscribe_context}
use nakama_sol_x.Escrow.Transactions.{commit, renewal}
use nakama_sol_x.Escrow.Transactions.Closing.{IsOwn, AreClosable, cleared}
use nakama_sol_x.Escrow.Transactions.Renewal.{IsFresh, renewal_commits}
use nakama_sol_x.Escrow.Transactions.Survivors.{MayDraw, renewal_keeps_session}
use nakama_sol_x.Instructions.Subscribe.Progress.{HasTerms, HasAccounts}
use nakama_sol_x.Tests.Token.{token_program, token_program-SplLaws, addresses, put, init_account}
use nakama_sol_x.Tests.Fixtures.{
  plan, mint, merchant, subscriber, facilitator, sub_key, vault_key, merchant_ata, subscriber_ata,
  running, running-IsSound, funded, account, nothing, session,
}
use nakama_sol_x.Tests.Renewals.{tombstone}

abbrev sessions : ℕ → Option PaySession
sessions id = if id == 9 then some session else none

abbrev tokens : Tokens
tokens =
    put (put nothing merchant_ata (account merchant 10)) subscriber_ata (account subscriber 9000000)

abbrev cancelled : Escrow
cancelled = record {
  subscription = some tombstone;
  graced = none;
  paused = none;
  sessions = sessions;
  tokens = tokens;
}

abbrev created : Tokens
created = put tokens vault_key (account sub_key 0)

abbrev wallet : TokenAccount
wallet = record { mint = mint; authority = subscriber; amount = 9000000 }

setting : IsSetting addresses plan sub_key
setting = ground arith

closable : AreClosable addresses sub_key sessions (9 ∷ [])
closable = ((session, refl, ground arith), tt, tt)

own : IsOwn addresses sub_key subscriber tombstone
own = ground arith

accounts :
    HasAccounts addresses
      (subscribe_context addresses token_program plan sub_key cancelled
        (pos 2000)
        subscriber
        mint
        vault_key
        subscriber_ata)
      wallet
accounts = ground arith

terms : HasTerms plan.info 2 (pos 2000)
unfolding ◌+ℤ◌
terms = ground arith

init : token_program.init_account vault_key mint sub_key tokens ≡ some created
unfolding init_account
init = refl

renewal_commits_example :
    (e' : Escrow) × (commit addresses token_program plan sub_key
        (pos 2000)
        (renewal subscriber mint vault_key subscriber_ata 2 (9 ∷ []))
        cancelled
      ≡ ok e')
    × IsFresh addresses token_program plan sub_key (pos 2000) subscriber vault_key 2 e'
    × (e'.sessions ≡ cleared sessions (9 ∷ []))
renewal_commits_example =
    renewal_commits addresses token_program plan sub_key (pos 2000) subscriber cancelled tombstone
      mint vault_key subscriber_ata wallet created 2 (9 ∷ []) token_program-SplLaws setting
      (ground arith) refl refl own closable accounts init terms (omega arith)

-- The escrow of a fresh subscription, with the old session still there.
abbrev renewed : Escrow
renewed = record {
  subscription = some (running 0);
  graced = none;
  paused = none;
  sessions = sessions;
  tokens = funded 6000000;
}

fresh : IsFresh addresses token_program plan sub_key (pos 1000) subscriber vault_key 2 renewed
fresh = record {
  sub = running 0;
  stored = refl;
  active = refl;
  deposit = refl;
  nothing_drawn = refl;
  started_now = refl;
  sound = running-IsSound;
  own = ground arith;
  merchant_snapshot = refl;
  price_snapshot = refl;
  period_snapshot = refl;
  mint_snapshot = refl;
  vault_address = refl;
  vault_account = record { mint = mint; authority = sub_key; amount = 6000000 };
  vault_held = refl;
  vault_mint = refl;
  vault_owner = refl;
  funded = refl;
}

may_draw : MayDraw plan.info (pos 1000) (pos 1060) 6000000 400000 session (funded 6000000)
may_draw = record {
  receiver = record { mint = mint; authority = merchant; amount = 10 };
  some_amount = omega arith;
  in_order = omega arith;
  near = omega arith;
  unlocked = omega arith;
  within = ground arith;
  counter = omega arith;
  received = refl;
  receiver_mint = refl;
  room = omega arith;
}

renewal_keeps_session_example :
    (e'' : Escrow) × (events : List Event) × (process addresses token_program plan sub_key renewed
        (pos 1060)
        (settle_usage facilitator vault_key merchant_ata 9 400000)
      ≡ ok (e'', events))
renewal_keeps_session_example =
    renewal_keeps_session addresses token_program plan sub_key (pos 1000) subscriber cancelled
      renewed vault_key 2 [] 9 session (pos 1060) 400000 token_program-SplLaws fresh refl refl
      (ground arith) tt may_draw
