-- ===== src/Escrow/Runs.antt =====
-- Any transactions, in any order, on one escrow: the invariant holds throughout.
use nakama_sol_x.Prelude.{
  ℤ, ◌≡◌, ◌≢◌, ◌<◌, some, ok, err, inl, inr, List, [], ◌∷◌, Result, Result-cases, Option-cases,
  u64_bound, InI64,
}
use nakama_sol_x.Program.Errors.{Error}
use nakama_sol_x.Program.State.{Pubkey, Plan, Subscription}
use nakama_sol_x.Program.Events.{Event}
use nakama_sol_x.Program.Accounts.{Account, Pda, SplToken, SplLaws}
use nakama_sol_x.Escrow.{
  Escrow, Request, subscribe, charge, cancel, cleanup, top_up, pause, resume, open_session,
  settle_usage, close_session, token_transfer, signer_of,
}
use nakama_sol_x.Escrow.Process.{process}
use nakama_sol_x.Escrow.Steps.Frame.{
  NeedsNone, TouchesSessions, process-sessions, process-loads, run_open_session-frame,
  run_close_session-frame,
}
use nakama_sol_x.Escrow.Invariant.{
  Live, IsEscrow-Live, IsEscrow-sessions, vault_of, IsEscrow, HasSessions,
}
use nakama_sol_x.Escrow.Steps.Charging.{run_charge-IsEscrow}
use nakama_sol_x.Escrow.Steps.Settling.{run_settle_usage-IsEscrow}
use nakama_sol_x.Escrow.Steps.Cancelling.{run_cancel-IsEscrow}
use nakama_sol_x.Escrow.Steps.Funding.{run_top_up-IsEscrow}
use nakama_sol_x.Escrow.Steps.Starting.{run_subscribe-IsEscrow}
use nakama_sol_x.Escrow.Steps.Transfers.{run_token_transfer-IsEscrow}
use nakama_sol_x.Escrow.Steps.Freezing.{
  run_pause-IsEscrow, run_resume-IsEscrow, run_cleanup-IsEscrow,
}
use nakama_sol_x.Escrow.Steps.Sessions.{
  run_open_session-HasSessions, run_settle_usage-HasSessions, run_close_session-HasSessions,
}

-- What is assumed of the surroundings: a plan as `create_plan` leaves it, a merchant account other
-- than the vault.
pub record IsSetting (pda : Pda) (plan : Account Plan) (key : Pubkey) : Type 0 where
  pub price_range : plan.info.price < u64_bound
  pub period_range : InI64 plan.info.period
  pub elsewhere : plan.info.merchant_ata ≢ vault_of pda key

abbrev pub Inv : Pda → Pubkey → Escrow → Type 0
Inv pda key e = IsEscrow pda key e × HasSessions pda key e

-- A failed transaction changes nothing.
abbrev pub after : Escrow → Result Error (Escrow × List Event) → Escrow
after e (ok (e', events)) = e'
after e (err x) = e

module _ (pda : Pda) (spl : SplToken) (plan : Account Plan) (key : Pubkey) where
  unfoldable pub run : Escrow → List (ℤ × Request) → Escrow
  run e [] = e
  run e ((now, r) ∷ steps) = run (after e (process pda spl plan key e now r)) steps

  -- Who signs is not the subscription address, and the clock is an `i64`.
  abbrev pub AreSteps : List (ℤ × Request) → Type 0
  AreSteps [] = Unit
  AreSteps ((now, r) ∷ steps) = InI64 now × (signer_of r ≢ key) × AreSteps steps

  -- The account that a transaction other than `subscribe` or a plain transfer has loaded is live.
  pub process-Live :
      (e e' : Escrow) (now : ℤ) (events : List Event) (r : Request)
      → ¬ NeedsNone r
      → IsEscrow pda key e
      → process pda spl plan key e now r ≡ ok (e', events)
      → (s : Subscription) × (e.subscription ≡ some s) × Live pda key s e
  process-Live e e' now events r other inv h = elim (Option-cases e.subscription) [
    | inl free ↦ absurd (process-loads pda spl plan key e now e' events r other h free)
    | inr (s, eq) ↦ (s, eq, IsEscrow-Live pda key e s inv eq)
  ]

  module _ (laws : SplLaws spl) (setting : IsSetting pda plan key) (e e' : Escrow) (now : ℤ)
      (events : List Event) (inv : Inv pda key e) where
    untouched :
        (r : Request)
        → ¬ TouchesSessions r
        → process pda spl plan key e now r ≡ ok (e', events)
        → HasSessions pda key e'
    untouched r other h = rw (process-sessions pda spl plan key e now e' events r other h) inv.1

    process-IsEscrow :
        (r : Request)
        → InI64 now
        → signer_of r ≢ key
        → process pda spl plan key e now r ≡ ok (e', events)
        → IsEscrow pda key e'
    unfolding process
    process-IsEscrow (subscribe signer mint vault ata periods) clock stranger h =
        run_subscribe-IsEscrow pda spl plan key e now signer mint vault ata periods e' events laws
          setting.elsewhere setting.price_range setting.period_range clock inv.0 h
    process-IsEscrow (charge signer plan_key vault ata attach) clock stranger h =
        let (s, eq, live) =
          process-Live e e' now events (charge signer plan_key vault ata attach) (λ x. x) inv.0 h in
        run_charge-IsEscrow pda spl plan key e now signer plan_key vault ata attach s e' events laws
          eq live h
    process-IsEscrow (cancel signer subscriber vault ata sub_ata graced paused) clock stranger h =
        let (s, eq, live) =
          process-Live e e' now events (cancel signer subscriber vault ata sub_ata graced paused)
            (λ x. x) inv.0 h in
        run_cancel-IsEscrow pda spl plan key e now signer subscriber vault ata sub_ata graced paused
          s e' events laws eq live h
    process-IsEscrow (cleanup signer) clock stranger h =
        let (s, eq, live) = process-Live e e' now events (cleanup signer) (λ x. x) inv.0 h in
        run_cleanup-IsEscrow pda spl plan key e now signer s e' events eq live h
    process-IsEscrow (top_up signer vault ata attach amount) clock stranger h =
        let (s, eq, live) =
          process-Live e e' now events (top_up signer vault ata attach amount) (λ x. x) inv.0 h in
        run_top_up-IsEscrow pda spl plan key e now signer vault ata attach amount s e' events laws
          stranger eq live h
    process-IsEscrow (pause signer) clock stranger h =
        let (s, eq, live) = process-Live e e' now events (pause signer) (λ x. x) inv.0 h in
        run_pause-IsEscrow pda spl plan key e now signer s e' events eq live h
    process-IsEscrow (resume signer) clock stranger h =
        let (s, eq, live) = process-Live e e' now events (resume signer) (λ x. x) inv.0 h in
        run_resume-IsEscrow pda spl plan key e now signer s e' events eq live h
    process-IsEscrow (open_session signer id facilitator limit) clock stranger h =
        rw (run_open_session-frame pda spl plan key e now e' events signer id facilitator limit h)
          (IsEscrow-sessions pda key e e'.sessions inv.0)
    process-IsEscrow (settle_usage signer vault ata id amount) clock stranger h =
        let (s, eq, live) =
          process-Live e e' now events (settle_usage signer vault ata id amount) (λ x. x) inv.0 h in
        run_settle_usage-IsEscrow pda spl plan key e now signer vault ata id amount s e' events laws
          eq live inv.1 h
    process-IsEscrow (close_session signer id) clock stranger h =
        rw (run_close_session-frame pda spl plan key e now e' events signer id h)
          (IsEscrow-sessions pda key e e'.sessions inv.0)
    process-IsEscrow (token_transfer signer source target amount) clock stranger h =
        run_token_transfer-IsEscrow pda spl plan key e now signer source target amount e' events
          laws stranger inv.0 h

    process-HasSessions :
        (r : Request) → process pda spl plan key e now r ≡ ok (e', events) → HasSessions pda key e'
    unfolding process
    process-HasSessions (open_session signer id facilitator limit) h =
        let (s, eq, live) =
          process-Live e e' now events (open_session signer id facilitator limit) (λ x. x) inv.0
            h in
        run_open_session-HasSessions pda spl plan key e now signer id facilitator limit s e' events
          eq live inv.1 h
    process-HasSessions (settle_usage signer vault ata id amount) h =
        let (s, eq, live) =
          process-Live e e' now events (settle_usage signer vault ata id amount) (λ x. x) inv.0 h in
        run_settle_usage-HasSessions pda spl plan key e now signer vault ata id amount s e' events
          eq live.sound inv.1 h
    process-HasSessions (close_session signer id) h =
        let (s, eq, live) =
          process-Live e e' now events (close_session signer id) (λ x. x) inv.0 h in
        run_close_session-HasSessions pda spl plan key e now signer id s e' events eq inv.1 h
    process-HasSessions (subscribe signer mint vault ata periods) h =
        untouched (subscribe signer mint vault ata periods) (λ x. x) h
    process-HasSessions (charge signer plan_key vault ata attach) h =
        untouched (charge signer plan_key vault ata attach) (λ x. x) h
    process-HasSessions (cancel signer subscriber vault ata sub_ata graced paused) h =
        untouched (cancel signer subscriber vault ata sub_ata graced paused) (λ x. x) h
    process-HasSessions (cleanup signer) h = untouched (cleanup signer) (λ x. x) h
    process-HasSessions (top_up signer vault ata attach amount) h =
        untouched (top_up signer vault ata attach amount) (λ x. x) h
    process-HasSessions (pause signer) h = untouched (pause signer) (λ x. x) h
    process-HasSessions (resume signer) h = untouched (resume signer) (λ x. x) h
    process-HasSessions (token_transfer signer source target amount) h =
        untouched (token_transfer signer source target amount) (λ x. x) h

  pub after-Inv :
      (e : Escrow) (now : ℤ) (r : Request)
      → SplLaws spl
      → IsSetting pda plan key
      → InI64 now
      → signer_of r ≢ key
      → Inv pda key e
      → Inv pda key (after e (process pda spl plan key e now r))
  after-Inv e now r laws setting clock stranger inv =
      elim (Result-cases (process pda spl plan key e now r)) [
        | inl ((e', events), h) ↦ rw h (
          process-IsEscrow laws setting e e' now events inv r clock stranger h,
          process-HasSessions laws setting e e' now events inv r h,
        )
        | inr (x, h) ↦ rw h inv
      ]

  -- Under the laws of the token program, for a plan with words in range whose merchant account is
  -- not the vault, and with transactions at `i64` times that the subscription's own address does
  -- not sign: from an escrow in which the invariant holds, any sequence of them, successful or not,
  -- leads to one in which it holds: no more is withdrawn than deposited, a satellite exists exactly
  -- in its state, the state is never `Exhausted`, the vault covers what is owed until the
  -- cancellation and is closed after it, and no pay session is locked or past its cap.
  pub run-Inv :
      (e : Escrow) (steps : List (ℤ × Request))
      → SplLaws spl
      → IsSetting pda plan key
      → AreSteps steps
      → Inv pda key e
      → Inv pda key (run e steps)
  unfolding run
  run-Inv e [] laws setting allowed inv = inv
  run-Inv e ((now, r) ∷ steps) laws setting (clock, stranger, rest) inv =
      run-Inv (after e (process pda spl plan key e now r)) steps laws setting rest
        (after-Inv e now r laws setting clock stranger inv)
