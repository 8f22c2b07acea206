-- ===== src/Escrow/Steps/Settling.antt =====
-- Settling usage keeps the invariant of the subscription.
use nakama_sol_x.Prelude.{ℕ, ℤ, ◌≡◌, some, Option-cases, ok, inl, inr, arith, List, Result-cases}
use nakama_sol_x.Program.State.{Pubkey, Plan, Subscription, PaySession}
use nakama_sol_x.Program.Events.{Event}
use nakama_sol_x.Program.Accounts.{Account, Pda, SplToken, SplLaws}
use nakama_sol_x.Stream.Bounds.{IsSound}
use nakama_sol_x.Instructions.SettleUsage.{SettleUsage, settle_usage_accounts, settle_usage_handler}
use nakama_sol_x.Instructions.SettleUsage.Outcome.{
  settle_usage_accounts_lem, settle_usage_handler-Settled, Settled,
}
use nakama_sol_x.Escrow.{Escrow, update}
use nakama_sol_x.Escrow.Process.{run_settle_usage, settle_usage_context}
use nakama_sol_x.Escrow.Invariant.{Live, IsEscrow, IsSession, HasSessions}

module _ (pda : Pda) (spl : SplToken) (plan : Account Plan) (key : Pubkey) (e : Escrow)
    (now : ℤ) where
  Settled-Live :
      (signer vault ata : Pubkey) (id amount : ℕ) (s : Subscription) (x : PaySession)
      (c' : SettleUsage)
      → SplLaws spl
      → Live pda key s e
      → IsSession pda key x
      → let c = settle_usage_context pda spl plan key e now signer vault ata id s x in
        settle_usage_accounts pda c ≡ ok tt
        → Settled spl c c' amount now
        → Live pda key c'.parent.info (record e {
          subscription = some c'.parent.info;
          sessions = update e.sessions id (some c'.pay_session.info);
          tokens = c'.tokens;
        })
  Settled-Live signer vault ata id amount s x c' laws live session checked done =
      let (v, a, f, o) =
        settle_usage_accounts_lem pda
          (settle_usage_context pda spl plan key e now signer vault ata id s x) checked in
      let left =
        laws.transfer_debits vault ata amount e.tokens c'.tokens (ground (arith, v, a)) done.paid in
      let kept = laws.transfer_authority vault ata vault amount e.tokens c'.tokens done.paid in
      ground (arith, v, a, left, kept)

  -- What a successful settlement went through.
  pub run_settle_usage_lem :
      (signer vault ata : Pubkey) (id amount : ℕ) (s : Subscription) (e' : Escrow)
      (events : List Event)
      → e.subscription ≡ some s
      → IsSound s
      → run_settle_usage pda spl plan key e now signer vault ata id amount ≡ ok (e', events)
      → (x : PaySession) × (c' : SettleUsage) × (e.sessions id ≡ some x)
        × (settle_usage_accounts pda
              (settle_usage_context pda spl plan key e now signer vault ata id s x)
            ≡ ok tt)
        × Settled spl
            (settle_usage_context pda spl plan key e now signer vault ata id s x)
            c'
            amount
            now
        × (e' ≡ record e {
          subscription = some c'.parent.info;
          sessions = update e.sessions id (some c'.pay_session.info);
          tokens = c'.tokens;
        })
  unfolding run_settle_usage
  run_settle_usage_lem signer vault ata id amount s e' events eq sound h =
      elim (Option-cases (e.sessions id)) [
        | inl missing ↦ absurd (ground arith)
        | inr (x, i) ↦
            let c = settle_usage_context pda spl plan key e now signer vault ata id s x in
            elim (Result-cases (settle_usage_accounts pda c)) [
              | inr (y, j) ↦ absurd (ground arith)
              | inl (_, j) ↦ elim (Result-cases (settle_usage_handler spl c amount now)) [
                | inr (y, k) ↦ absurd (ground arith)
                | inl ((c', ev), k) ↦ (
                  x,
                  c',
                  i,
                  j,
                  settle_usage_handler-Settled spl c c' amount now ev sound k,
                  ground arith,
                )
              ]
            ]
      ]

  pub run_settle_usage-IsEscrow :
      (signer vault ata : Pubkey) (id amount : ℕ) (s : Subscription) (e' : Escrow)
      (events : List Event)
      → SplLaws spl
      → e.subscription ≡ some s
      → Live pda key s e
      → HasSessions pda key e
      → run_settle_usage pda spl plan key e now signer vault ata id amount ≡ ok (e', events)
      → IsEscrow pda key e'
  run_settle_usage-IsEscrow signer vault ata id amount s e' events laws eq live sessions h =
      let (x, c', held, checked, done, stored_back) =
        run_settle_usage_lem signer vault ata id amount s e' events eq live.sound h in
      rw stored_back
        (Settled-Live signer vault ata id amount s x c' laws live (sessions id x held) checked done)
