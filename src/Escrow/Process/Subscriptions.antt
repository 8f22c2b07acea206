-- ===== src/Escrow/Process/Subscriptions.antt =====
-- The instructions on the subscription itself, each with the accounts that it loads and writes
-- back.
use nakama_sol_x.Prelude.{
  ℕ, ℤ, Bool, Option, none, some, ◌==◌, ok, ok_or, ◌>>=◌, ◌>>◌, require, List, [],
}
use nakama_sol_x.Program.Errors.{token_error, Checked}
use nakama_sol_x.Program.State.{Pubkey, Plan, Subscription, GracedSubscription, PausedSubscription}
use nakama_sol_x.Program.Events.{Event}
use nakama_sol_x.Program.Accounts.{
  Account, Pda, SplToken, load, load_token, check_free, sub_seeds, vault_seeds, grace_seeds,
  paused_sub_seeds,
}
use nakama_sol_x.Instructions.Subscribe.{Subscribe, subscribe_accounts, subscribe_handler}
use nakama_sol_x.Instructions.Charge.{Charge, charge_accounts, charge_handler}
use nakama_sol_x.Instructions.Cancel.{Cancel, cancel_accounts, cancel_handler}
use nakama_sol_x.Instructions.Cleanup.{Cleanup, cleanup_accounts, cleanup_handler}
use nakama_sol_x.Instructions.TopUp.{TopUp, top_up_accounts, top_up_handler}
use nakama_sol_x.Instructions.Pause.{Pause, pause_accounts, pause_handler}
use nakama_sol_x.Instructions.Resume.{Resume, resume_accounts, resume_handler}
use nakama_sol_x.Escrow.{Escrow, blank_paused, init_optional, load_optional, stored, closed_if}

abbrev pub Outcome : Type 0
Outcome = Checked (Escrow × List Event)

-- `key` is the address of the subscription; the other addresses derive from it.
module _ (pda : Pda) (spl : SplToken) (plan : Account Plan) (key : Pubkey) (e : Escrow)
    (now : ℤ) where
  abbrev pub subscribe_context : Pubkey → Pubkey → Pubkey → Pubkey → Subscribe
  subscribe_context signer mint vault ata = record {
    subscriber = signer;
    plan = plan;
    token_mint = mint;
    subscription = key;
    subscription_bump = pda.canonical_bump (sub_seeds signer plan.key);
    vault = vault;
    vault_bump = pda.canonical_bump (vault_seeds key);
    subscriber_ata = ata;
    tokens = e.tokens;
  }

  unfoldable pub run_subscribe : Pubkey → Pubkey → Pubkey → Pubkey → ℕ → Outcome
  run_subscribe signer mint vault ata periods = do
    check_free e.subscription
    c ← subscribe_accounts pda spl (subscribe_context signer mint vault ata)
    (sub, tokens, events) ← subscribe_handler spl c periods now
    ok (record e { subscription = some sub.info; tokens = tokens }, events)

  -- The accounts that the instruction names, as the handler gets them.
  abbrev pub charge_context :
      Pubkey
      → Pubkey
      → Pubkey
      → Pubkey
      → Subscription
      → Option (Account GracedSubscription)
      → Charge
  charge_context signer plan_key vault ata sub graced = record {
    subscription = record { key = key; info = sub };
    plan = plan_key;
    vault = vault;
    merchant_ata = ata;
    payer = signer;
    graced_subscription = graced;
    tokens = e.tokens;
  }

  unfoldable pub run_charge : Pubkey → Pubkey → Pubkey → Pubkey → Bool → Outcome
  run_charge signer plan_key vault ata attach = do
    sub ← load e.subscription
    graced ←
        init_optional attach e.graced
          (pda.address (grace_seeds key) (pda.canonical_bump (grace_seeds key)))
    let c = charge_context signer plan_key vault ata sub graced
    charge_accounts pda c
    (c', events) ← charge_handler spl c now
    ok (
      record e {
        subscription = some c'.subscription.info;
        graced = stored c'.graced_subscription e.graced;
        tokens = c'.tokens;
      },
      events,
    )

  abbrev pub cancel_context :
      Pubkey
      → Pubkey
      → Pubkey
      → Pubkey
      → Pubkey
      → Subscription
      → Option (Account GracedSubscription)
      → Option (Account PausedSubscription)
      → Cancel
  cancel_context signer subscriber vault ata subscriber_ata sub g p = record {
    signer = signer;
    subscription = record { key = key; info = sub };
    subscriber = subscriber;
    vault = vault;
    merchant_ata = ata;
    subscriber_ata = subscriber_ata;
    graced_subscription = g;
    paused_subscription = p;
    tokens = e.tokens;
  }

  unfoldable pub run_cancel : Pubkey → Pubkey → Pubkey → Pubkey → Pubkey → Bool → Bool → Outcome
  run_cancel signer subscriber vault ata subscriber_ata graced paused = do
    sub ← load e.subscription
    g ←
        load_optional graced e.graced
          (pda.address (grace_seeds key) (pda.canonical_bump (grace_seeds key)))
    p ←
        load_optional paused e.paused
          (pda.address (paused_sub_seeds key) (pda.canonical_bump (paused_sub_seeds key)))
    let c = cancel_context signer subscriber vault ata subscriber_ata sub g p
    cancel_accounts pda c
    (c', events) ← cancel_handler spl c now
    ok (
      record e {
        subscription = some c'.subscription.info;
        graced = closed_if graced e.graced;
        paused = closed_if paused e.paused;
        tokens = c'.tokens;
      },
      events,
    )

  unfoldable pub run_cleanup : Pubkey → Outcome
  run_cleanup signer = do
    sub ← load e.subscription
    let c : Cleanup = record {
      subscription = record { key = key; info = sub };
      subscriber = signer;
    }
    cleanup_accounts pda c
    events ← cleanup_handler c now
    ok (record e { subscription = none }, events)

  abbrev pub top_up_context :
      Pubkey → Pubkey → Pubkey → Subscription → Option (Account GracedSubscription) → TopUp
  top_up_context signer vault ata sub g = record {
    subscriber = signer;
    subscription = record { key = key; info = sub };
    graced_subscription = g;
    vault = vault;
    subscriber_ata = ata;
    tokens = e.tokens;
  }

  unfoldable pub run_top_up : Pubkey → Pubkey → Pubkey → Bool → ℕ → Outcome
  run_top_up signer vault ata attach amount = do
    sub ← load e.subscription
    g ←
        load_optional attach e.graced
          (pda.address (grace_seeds key) (pda.canonical_bump (grace_seeds key)))
    let c = top_up_context signer vault ata sub g
    top_up_accounts pda c
    (c', events) ← top_up_handler spl c amount now
    ok (
      record e {
        subscription = some c'.subscription.info;
        graced = closed_if attach e.graced;
        tokens = c'.tokens;
      },
      events,
    )

  unfoldable pub run_pause : Pubkey → Outcome
  run_pause signer = do
    sub ← load e.subscription
    check_free e.paused
    let bump = pda.canonical_bump (paused_sub_seeds key)
    let c : Pause = record {
      subscription = record { key = key; info = sub };
      paused_satellite = record {
        key = pda.address (paused_sub_seeds key) bump;
        info = blank_paused;
      };
      paused_bump = bump;
      merchant = signer;
    }
    pause_accounts pda c
    (c', events) ← pause_handler c now
    ok (
      record e { subscription = some c'.subscription.info; paused = some c'.paused_satellite.info },
      events,
    )

  unfoldable pub run_resume : Pubkey → Outcome
  run_resume signer = do
    sub ← load e.subscription
    satellite ← load e.paused
    let c : Resume = record {
      subscription = record { key = key; info = sub };
      paused_satellite = record {
        key = pda.address (paused_sub_seeds key) (pda.canonical_bump (paused_sub_seeds key));
        info = satellite;
      };
      merchant = signer;
    }
    resume_accounts pda c
    (c', events) ← resume_handler c now
    ok (record e { subscription = some c'.subscription.info; paused = none }, events)

  -- The token program moves funds only for the authority of their account.
  unfoldable pub run_token_transfer : Pubkey → Pubkey → Pubkey → ℕ → Outcome
  run_token_transfer signer source target amount = do
    account ← load_token e.tokens source
    require (account.authority == signer) token_error
    tokens ← ok_or (spl.transfer source target amount e.tokens) token_error
    ok (record e { tokens = tokens }, [])
