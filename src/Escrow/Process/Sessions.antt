-- ===== src/Escrow/Process/Sessions.antt =====
-- The instructions on the pay sessions of a subscription.
use nakama_sol_x.Prelude.{ℕ, ℤ, none, some, ok, ◌>>=◌, ◌>>◌}
use nakama_sol_x.Program.State.{Pubkey, Plan, PaySession, Subscription}
use nakama_sol_x.Program.Accounts.{Account, Pda, SplToken, load, check_free, pay_session_seeds}
use nakama_sol_x.Instructions.OpenSession.{OpenSession, open_session_accounts, open_session_handler}
use nakama_sol_x.Instructions.SettleUsage.{SettleUsage, settle_usage_accounts, settle_usage_handler}
use nakama_sol_x.Instructions.CloseSession.{
  CloseSession, close_session_accounts, close_session_handler,
}
use nakama_sol_x.Escrow.{Escrow, update}
use nakama_sol_x.Escrow.Process.Subscriptions.{Outcome}

-- `key` is the address of the subscription; the other addresses derive from it.
module _ (pda : Pda) (spl : SplToken) (plan : Account Plan) (key : Pubkey) (e : Escrow)
    (now : ℤ) where
  unfoldable pub session_key : ℕ → Pubkey
  session_key id =
      pda.address (pay_session_seeds key id) (pda.canonical_bump (pay_session_seeds key id))

  abbrev pub open_session_context : Pubkey → ℕ → Subscription → OpenSession
  open_session_context signer id parent = record {
    parent = record { key = key; info = parent };
    pay_session = session_key id;
    pay_session_bump = pda.canonical_bump (pay_session_seeds key id);
    subscriber = signer;
  }

  unfoldable pub run_open_session : Pubkey → ℕ → Pubkey → ℕ → Outcome
  unfolding session_key
  run_open_session signer id facilitator limit = do
    parent ← load e.subscription
    check_free (e.sessions id)
    let c = open_session_context signer id parent
    open_session_accounts pda c id
    (s, events) ← open_session_handler c id facilitator limit now
    ok (record e { sessions = update e.sessions id (some s.info) }, events)

  abbrev pub settle_usage_context :
      Pubkey → Pubkey → Pubkey → ℕ → Subscription → PaySession → SettleUsage
  settle_usage_context signer vault ata id parent session = record {
    parent = record { key = key; info = parent };
    pay_session = record { key = session_key id; info = session };
    vault = vault;
    merchant_ata = ata;
    facilitator = signer;
    tokens = e.tokens;
  }

  unfoldable pub run_settle_usage : Pubkey → Pubkey → Pubkey → ℕ → ℕ → Outcome
  unfolding session_key
  run_settle_usage signer vault ata id amount = do
    parent ← load e.subscription
    session ← load (e.sessions id)
    let c = settle_usage_context signer vault ata id parent session
    settle_usage_accounts pda c
    (c', events) ← settle_usage_handler spl c amount now
    ok (
      record e {
        subscription = some c'.parent.info;
        sessions = update e.sessions id (some c'.pay_session.info);
        tokens = c'.tokens;
      },
      events,
    )

  unfoldable pub run_close_session : Pubkey → ℕ → Outcome
  unfolding session_key
  run_close_session signer id = do
    parent ← load e.subscription
    session ← load (e.sessions id)
    let c : CloseSession = record {
      parent = record { key = key; info = parent };
      pay_session = record { key = session_key id; info = session };
      subscriber = signer;
    }
    close_session_accounts pda c
    events ← close_session_handler c now
    ok (record e { sessions = update e.sessions id none }, events)
