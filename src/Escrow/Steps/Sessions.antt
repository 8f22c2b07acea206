-- ===== src/Escrow/Steps/Sessions.antt =====
-- Opening, settling and closing keep what holds of every pay session; nothing else touches one.
use nakama_sol_x.Prelude.{
  ℕ, ℤ, ◌≡◌, ◌==◌, none, some, Option, ok, inl, inr, arith, List, Result-cases, Option-cases,
  Bool-cases,
}
use nakama_sol_x.Program.State.{Pubkey, Plan, Subscription, PaySession}
use nakama_sol_x.Program.Events.{Event}
use nakama_sol_x.Program.Accounts.{Account, Pda, SplToken}
use nakama_sol_x.Stream.Bounds.{IsSound}
use nakama_sol_x.Instructions.OpenSession.{open_session_accounts, open_session_handler}
use nakama_sol_x.Instructions.OpenSession.Outcome.{open_session_handler-Opened}
use nakama_sol_x.Instructions.SettleUsage.{settle_usage_accounts, settle_usage_handler}
use nakama_sol_x.Instructions.SettleUsage.Outcome.{settle_usage_handler-Settled}
use nakama_sol_x.Instructions.CloseSession.{close_session_accounts, close_session_handler}
use nakama_sol_x.Escrow.{Escrow, update}
use nakama_sol_x.Escrow.Process.{
  run_open_session, run_settle_usage, run_close_session, settle_usage_context, open_session_context,
}
use nakama_sol_x.Escrow.Invariant.{Live, IsSession, HasSessions}

-- A session table stays good when one entry is set to a good session, or cleared.
HasSessions-update :
    (pda : Pda) (key : Pubkey) (f : ℕ → Option PaySession) (id : ℕ) (y : Option PaySession)
    → ((j : ℕ) (x : PaySession) → f j ≡ some x → IsSession pda key x)
    → ((x : PaySession) → y ≡ some x → IsSession pda key x)
    → (j : ℕ) (x : PaySession) → update f id y j ≡ some x
    → IsSession pda key x
HasSessions-update pda key f id y old new j x h = elim (Bool-cases (j == id)) [
  | inl here ↦ new x (ground arith)
  | inr other ↦ old j x (ground arith)
]

module _ (pda : Pda) (spl : SplToken) (plan : Account Plan) (key : Pubkey) (e : Escrow)
    (now : ℤ) where
  pub run_open_session-HasSessions :
      (signer : Pubkey) (id : ℕ) (facilitator : Pubkey) (limit : ℕ) (s : Subscription) (e' : Escrow)
      (events : List Event)
      → e.subscription ≡ some s
      → Live pda key s e
      → HasSessions pda key e
      → run_open_session pda spl plan key e now signer id facilitator limit ≡ ok (e', events)
      → HasSessions pda key e'
  unfolding run_open_session
  run_open_session-HasSessions signer id facilitator limit s e' events eq live old h =
      elim (Option-cases (e.sessions id)) [
        | inr (x, taken) ↦ absurd (ground arith)
        | inl free ↦
            let c = open_session_context pda spl plan key e now signer id s in
            elim (Result-cases (open_session_accounts pda c id)) [
              | inr (y, j) ↦ absurd (ground arith)
              | inl (_, j) ↦ elim (Result-cases (open_session_handler c id facilitator limit now)) [
                | inr (y, k) ↦ absurd (ground arith)
                | inl ((a, ev), k) ↦
                    let stored_back : e'.sessions ≡ update e.sessions id (some a.info) =
                      ground arith in
                    let done = open_session_handler-Opened c id facilitator limit now a ev k in
                    rw stored_back (
                      HasSessions-update pda key e.sessions id (some a.info) old
                        (λ y m. ground (arith, done, live)))
              ]
            ]
      ]

  pub run_settle_usage-HasSessions :
      (signer vault ata : Pubkey) (id amount : ℕ) (s : Subscription) (e' : Escrow)
      (events : List Event)
      → e.subscription ≡ some s
      → IsSound s
      → HasSessions pda key e
      → run_settle_usage pda spl plan key e now signer vault ata id amount ≡ ok (e', events)
      → HasSessions pda key e'
  unfolding run_settle_usage
  run_settle_usage-HasSessions signer vault ata id amount s e' events eq sound old h =
      elim (Option-cases (e.sessions id)) [
        | inl missing ↦ absurd (ground arith)
        | inr (x, i) ↦
            let c = settle_usage_context pda spl plan key e now signer vault ata id s x in
            elim (Result-cases (settle_usage_accounts pda c)) [
              | inr (y, j) ↦ absurd (ground arith)
              | inl (_, j) ↦ elim (Result-cases (settle_usage_handler spl c amount now)) [
                | inr (y, k) ↦ absurd (ground arith)
                | inl ((c', ev), k) ↦
                    let stored_back : e'.sessions
                        ≡ update e.sessions id (some c'.pay_session.info) =
                      ground arith in
                    let done = settle_usage_handler-Settled spl c c' amount now ev sound k in
                    let good = old id x i in
                    rw stored_back (
                      HasSessions-update pda key e.sessions id (some c'.pay_session.info) old
                        (λ y m. ground (arith, done, good)))
              ]
            ]
      ]

  pub run_close_session-HasSessions :
      (signer : Pubkey) (id : ℕ) (s : Subscription) (e' : Escrow) (events : List Event)
      → e.subscription ≡ some s
      → HasSessions pda key e
      → run_close_session pda spl plan key e now signer id ≡ ok (e', events)
      → HasSessions pda key e'
  unfolding run_close_session close_session_accounts close_session_handler
  run_close_session-HasSessions signer id s e' events eq old h =
      elim (Option-cases (e.sessions id)) [
        | inl missing ↦ absurd (ground arith)
        | inr (x, i) ↦
            let stored_back : e'.sessions ≡ update e.sessions id none = ground arith in
            rw stored_back (HasSessions-update pda key e.sessions id none old (λ y m. cc))
      ]
