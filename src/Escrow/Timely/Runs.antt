-- ===== src/Escrow/Timely/Runs.antt =====
-- Any transactions, on a clock that does not run backwards.
use mathlib.Core.Path.{subst}
use nakama_sol_x.Prelude.{
  ℤ, ◌≤ℤ◌, ◌≡◌, some, ok, inl, inr, List, [], ◌∷◌, Result-cases, Option-cases, InI64, arith,
}
use nakama_sol_x.Program.State.{Pubkey, Plan, Subscription}
use nakama_sol_x.Program.Events.{Event}
use nakama_sol_x.Program.Accounts.{Account, Pda, SplToken, SplLaws}
use nakama_sol_x.Escrow.{
  Escrow, Request, subscribe, charge, cancel, cleanup, top_up, pause, resume, open_session,
  settle_usage, close_session, token_transfer,
}
use nakama_sol_x.Escrow.Process.{process, run_token_transfer}
use nakama_sol_x.Escrow.Invariant.{Live, IsEscrow, IsEscrow-Live}
use nakama_sol_x.Escrow.Steps.Frame.{NeedsNone, run_open_session-frame, run_close_session-frame}
use nakama_sol_x.Escrow.Runs.{IsSetting, Inv, AreSteps, after, after-Inv, run, process-Live}
use nakama_sol_x.Escrow.Timely.{IsTimely, IsTimelySlot, IsTimelyEscrow, IsTimely-later}
use nakama_sol_x.Escrow.Timely.Steps.{
  subscribe-IsTimely, charge-IsTimely, settle_usage-IsTimely, top_up-IsTimely, cancel-IsTimely,
  pause-IsTimely, resume-IsTimely, cleanup-IsTimely,
}

-- The clock does not run backwards from `start` on, and when the last transaction runs.
abbrev pub AreOrdered : ℤ → List (ℤ × Request) → Type 0
AreOrdered start [] = Unit
AreOrdered start ((now, r) ∷ steps) = (start ≤ℤ now) × AreOrdered now steps

abbrev pub last_moment : ℤ → List (ℤ × Request) → ℤ
last_moment start [] = start
last_moment start ((now, r) ∷ steps) = last_moment now steps

module _ (pda : Pda) (spl : SplToken) (plan : Account Plan) (key : Pubkey) where
  module _ (setting : IsSetting pda plan key) (e e' : Escrow) (now : ℤ) (events : List Event)
      (inv : IsEscrow pda key e) (timely : IsTimelyEscrow key e now) where
    loaded :
        (r : Request)
        → ¬ NeedsNone r
        → process pda spl plan key e now r ≡ ok (e', events)
        → (s : Subscription) × (e.subscription ≡ some s)
          × Live pda key s e
          × IsTimely key s e.graced e.paused now
    loaded r other h =
        let (s, found, live) = process-Live pda spl plan key e e' now events r other inv h in
        (s, found, live, subst (λ o. IsTimelySlot key o e.graced e.paused now) found timely)

    process-IsTimely :
        (r : Request)
        → InI64 now
        → process pda spl plan key e now r ≡ ok (e', events)
        → IsTimelyEscrow key e' now
    unfolding process run_token_transfer
    process-IsTimely (subscribe signer mint vault ata periods) clock h =
        subscribe-IsTimely pda spl plan key e now e' events signer mint vault ata periods
          setting.price_range setting.period_range clock h
    process-IsTimely (charge signer plan_key vault ata attach) clock h =
        let (s, found, live, before) =
          loaded (charge signer plan_key vault ata attach) (λ x. x) h in
        charge-IsTimely pda spl plan key e now e' events s found live before signer plan_key vault
          ata attach h
    process-IsTimely (cancel signer subscriber vault ata sub_ata graced paused) clock h =
        let (s, found, live, before) =
          loaded (cancel signer subscriber vault ata sub_ata graced paused) (λ x. x) h in
        cancel-IsTimely pda spl plan key e now e' events s found live before signer subscriber vault
          ata sub_ata graced paused h
    process-IsTimely (cleanup signer) clock h =
        let (s, found, live, before) = loaded (cleanup signer) (λ x. x) h in
        cleanup-IsTimely pda spl plan key e now e' events s found live before signer h
    process-IsTimely (top_up signer vault ata attach amount) clock h =
        let (s, found, live, before) = loaded (top_up signer vault ata attach amount) (λ x. x) h in
        top_up-IsTimely pda spl plan key e now e' events s found live before signer vault ata attach
          amount h
    process-IsTimely (pause signer) clock h =
        let (s, found, live, before) = loaded (pause signer) (λ x. x) h in
        pause-IsTimely pda spl plan key e now e' events s found live before signer h
    process-IsTimely (resume signer) clock h =
        let (s, found, live, before) = loaded (resume signer) (λ x. x) h in
        resume-IsTimely pda spl plan key e now e' events s found live before signer h
    process-IsTimely (open_session signer id facilitator limit) clock h =
        rw (run_open_session-frame pda spl plan key e now e' events signer id facilitator limit h)
          timely
    process-IsTimely (settle_usage signer vault ata id amount) clock h =
        let (s, found, live, before) =
          loaded (settle_usage signer vault ata id amount) (λ x. x) h in
        settle_usage-IsTimely pda spl plan key e now e' events s found live before signer vault ata
          id amount h
    process-IsTimely (close_session signer id) clock h =
        rw (run_close_session-frame pda spl plan key e now e' events signer id h) timely
    process-IsTimely (token_transfer signer source target amount) clock h = ground (arith, timely)

  -- The clock moves on to the next transaction.
  later :
      (e : Escrow) (last now : ℤ)
      → IsEscrow pda key e
      → last ≤ℤ now
      → IsTimelyEscrow key e last
      → IsTimelyEscrow key e now
  later e last now inv le timely = elim (Option-cases e.subscription) [
    | inl free ↦ rw free tt
    | inr (s, found) ↦ rw found (
        IsTimely-later key s e.graced e.paused last now (IsEscrow-Live pda key e s inv found).sound
          le (subst (λ o. IsTimelySlot key o e.graced e.paused last) found timely))
  ]

  after-IsTimely :
      (e : Escrow) (now : ℤ) (r : Request)
      → IsSetting pda plan key
      → InI64 now
      → IsEscrow pda key e
      → IsTimelyEscrow key e now
      → IsTimelyEscrow key (after e (process pda spl plan key e now r)) now
  after-IsTimely e now r setting clock inv timely =
      elim (Result-cases (process pda spl plan key e now r)) [
        | inl ((e', events), h) ↦
            rw h (process-IsTimely setting e e' now events inv timely r clock h)
        | inr (x, h) ↦ rw h timely
      ]

  -- Under the laws of the token program, for a plan with words in range whose merchant account is
  -- not the vault, and with transactions that the subscription's own address does not sign, at
  -- `i64` times that do not go backwards: from an escrow that is sound and timely, any sequence of
  -- them, successful or not, leads to a timely one. What is withdrawn never exceeds what the stream
  -- has earned: by the last moment while active, by the moment of the pause while paused, and by
  -- the charge that used up the deposit in the grace period, which ends no earlier than that.
  pub run-IsTimely :
      (e : Escrow) (start : ℤ) (steps : List (ℤ × Request))
      → SplLaws spl
      → IsSetting pda plan key
      → AreSteps pda spl plan key steps
      → AreOrdered start steps
      → Inv pda key e
      → IsTimelyEscrow key e start
      → IsTimelyEscrow key (run pda spl plan key e steps) (last_moment start steps)
  unfolding run
  run-IsTimely e start [] laws setting allowed ordered inv timely = timely
  run-IsTimely e start ((now, r) ∷ steps) laws setting (clock, stranger, rest) (le, ordered) inv
        timely =
      run-IsTimely (after e (process pda spl plan key e now r)) now steps laws setting rest ordered
        (after-Inv pda spl plan key e now r laws setting clock stranger inv)
        (after-IsTimely e now r setting clock inv.0 (later e start now inv.0 le timely))
