-- ===== src/Escrow/Ledger.antt =====
-- The vault over any transactions: as long as nobody but the subscriber funds it, it holds exactly
-- what the subscription's counters say, until the cancellation.
use mathlib.Core.Path.{subst}
use nakama_sol_x.Prelude.{
  ℕ, ℤ, ◌≡◌, ◌≢◌, sym, some, ok, inl, inr, List, [], ◌∷◌, Result-cases, Option-cases, InI64, arith,
}
use nakama_sol_x.Program.State.{Pubkey, Plan, Subscription}
use nakama_sol_x.Program.Events.{Event}
use nakama_sol_x.Program.Accounts.{Account, Pda, SplToken, SplLaws, Tokens, authority_of}
use nakama_sol_x.Escrow.{
  Escrow, Request, subscribe, charge, cancel, cleanup, top_up, pause, resume, open_session,
  settle_usage, close_session, token_transfer, signer_of,
}
use nakama_sol_x.Escrow.Process.{process, run_token_transfer}
use nakama_sol_x.Escrow.Invariant.{vault_of, Live, IsEscrow-Live}
use nakama_sol_x.Escrow.Steps.Frame.{NeedsNone, run_open_session-frame, run_close_session-frame}
use nakama_sol_x.Escrow.Runs.{IsSetting, Inv, AreSteps, after, after-Inv, run, process-Live}
use nakama_sol_x.Escrow.Exact.{
  Covers, IsExactSlot, IsExact, subscribe-IsExact, charge-IsExact, settle_usage-IsExact,
  top_up-IsExact, cancel-IsExact, pause-IsExact, resume-IsExact, cleanup-IsExact,
}

-- A transfer into the vault that the subscription does not count.
abbrev pub IsGift : Pda → Pubkey → Request → Type 0
IsGift pda key (token_transfer signer source target amount) = target ≡ vault_of pda key
IsGift pda key _ = ⊥

abbrev pub NoGifts : Pda → Pubkey → List (ℤ × Request) → Type 0
NoGifts pda key [] = Unit
NoGifts pda key ((now, r) ∷ steps) = (¬ IsGift pda key r) × NoGifts pda key steps

module _ (pda : Pda) (spl : SplToken) (plan : Account Plan) (key : Pubkey) where
  module _ (laws : SplLaws spl) (setting : IsSetting pda plan key) (e e' : Escrow) (now : ℤ)
      (events : List Event) (inv : Inv pda key e) (exact : IsExact pda key e) where
    covered : (s : Subscription) → e.subscription ≡ some s → Covers pda key s e.tokens
    covered s found = subst (λ o. IsExactSlot pda key o e.tokens) found exact

    loaded :
        (r : Request)
        → ¬ NeedsNone r
        → process pda spl plan key e now r ≡ ok (e', events)
        → (s : Subscription) × (e.subscription ≡ some s)
          × Live pda key s e
          × Covers pda key s e.tokens
    loaded r other h =
        let (s, found, live) = process-Live pda spl plan key e e' now events r other inv.0 h in
        (s, found, live, covered s found)

    transferred-Covers :
        (source target : Pubkey) (amount : ℕ) (signer : Pubkey) (s : Subscription) (tokens : Tokens)
        → signer ≢ key
        → target ≢ vault_of pda key
        → authority_of (e.tokens source) ≡ some signer
        → Live pda key s e
        → Covers pda key s e.tokens
        → spl.transfer source target amount e.tokens ≡ some tokens
        → Covers pda key s tokens
    transferred-Covers source target amount signer s tokens stranger past owner live before moved =
        λ on.
          let apart : source ≢ vault_of pda key = ground (arith, live.vault_owned on) in
          let same =
            laws.transfer_frame source target (vault_of pda key) amount e.tokens tokens
              (ground (arith, apart)) (ground (arith, past)) moved in
          let old = before on in ground (arith, same, old)

    token_transfer-IsExact :
        (signer source target : Pubkey) (amount : ℕ)
        → signer ≢ key
        → target ≢ vault_of pda key
        → run_token_transfer pda spl plan key e now signer source target amount ≡ ok (e', events)
        → IsExact pda key e'
    unfolding run_token_transfer
    token_transfer-IsExact signer source target amount stranger past h =
        elim (Option-cases (e.tokens source)) [
          | inl closed ↦ absurd (ground arith)
          | inr (account, i) ↦ elim (Option-cases (spl.transfer source target amount e.tokens)) [
            | inl failed ↦ absurd (ground arith)
            | inr (tokens, moved) ↦
                let owner : authority_of (e.tokens source) ≡ some signer = ground arith in
                let stored_back : e' ≡ record e { tokens = tokens } = ground arith in
                elim (Option-cases e.subscription) [
                  | inl free ↦ ground arith
                  | inr (s, found) ↦
                      let kept =
                        transferred-Covers source target amount signer s tokens stranger past owner
                          (IsEscrow-Live pda key e s inv.0 found) (covered s found) moved in
                      rw stored_back (subst (λ o. IsExactSlot pda key o tokens) (sym found) kept)
                ]
          ]
        ]

    process-IsExact :
        (r : Request)
        → InI64 now
        → signer_of r ≢ key
        → ¬ IsGift pda key r
        → process pda spl plan key e now r ≡ ok (e', events)
        → IsExact pda key e'
    unfolding process
    process-IsExact (subscribe signer mint vault ata periods) clock stranger wanted h =
        subscribe-IsExact pda spl plan key e now laws e' events signer mint vault ata periods
          setting.price_range setting.period_range clock h
    process-IsExact (charge signer plan_key vault ata attach) clock stranger wanted h =
        let (s, found, live, before) =
          loaded (charge signer plan_key vault ata attach) (λ x. x) h in
        charge-IsExact pda spl plan key e now laws e' events s found live before signer plan_key
          vault ata attach h
    process-IsExact (cancel signer subscriber vault ata sub_ata graced paused) clock stranger wanted
          h =
        let (s, found, live, before) =
          loaded (cancel signer subscriber vault ata sub_ata graced paused) (λ x. x) h in
        cancel-IsExact pda spl plan key e now laws e' events s found live before signer subscriber
          vault ata sub_ata graced paused h
    process-IsExact (cleanup signer) clock stranger wanted h =
        let (s, found, live, before) = loaded (cleanup signer) (λ x. x) h in
        cleanup-IsExact pda spl plan key e now laws e' events s found live before signer h
    process-IsExact (top_up signer vault ata attach amount) clock stranger wanted h =
        let (s, found, live, before) = loaded (top_up signer vault ata attach amount) (λ x. x) h in
        top_up-IsExact pda spl plan key e now laws e' events s found live before signer vault ata
          attach amount stranger h
    process-IsExact (pause signer) clock stranger wanted h =
        let (s, found, live, before) = loaded (pause signer) (λ x. x) h in
        pause-IsExact pda spl plan key e now laws e' events s found live before signer h
    process-IsExact (resume signer) clock stranger wanted h =
        let (s, found, live, before) = loaded (resume signer) (λ x. x) h in
        resume-IsExact pda spl plan key e now laws e' events s found live before signer h
    process-IsExact (open_session signer id facilitator limit) clock stranger wanted h =
        rw (run_open_session-frame pda spl plan key e now e' events signer id facilitator limit h)
          exact
    process-IsExact (settle_usage signer vault ata id amount) clock stranger wanted h =
        let (s, found, live, before) =
          loaded (settle_usage signer vault ata id amount) (λ x. x) h in
        settle_usage-IsExact pda spl plan key e now laws e' events s found live before signer vault
          ata id amount inv.1 h
    process-IsExact (close_session signer id) clock stranger wanted h =
        rw (run_close_session-frame pda spl plan key e now e' events signer id h) exact
    process-IsExact (token_transfer signer source target amount) clock stranger wanted h =
        token_transfer-IsExact signer source target amount stranger wanted h

  after-IsExact :
      (e : Escrow) (now : ℤ) (r : Request)
      → SplLaws spl
      → IsSetting pda plan key
      → InI64 now
      → signer_of r ≢ key
      → ¬ IsGift pda key r
      → Inv pda key e
      → IsExact pda key e
      → IsExact pda key (after e (process pda spl plan key e now r))
  after-IsExact e now r laws setting clock stranger wanted inv exact =
      elim (Result-cases (process pda spl plan key e now r)) [
        | inl ((e', events), h) ↦
            rw h (process-IsExact laws setting e e' now events inv exact r clock stranger wanted h)
        | inr (x, h) ↦ rw h exact
      ]

  -- Under the laws of the token program, for a plan with words in range whose merchant account is
  -- not the vault, and with transactions at `i64` times that the subscription's own address does
  -- not sign and none of which is a plain transfer into the vault: from an escrow in which the
  -- invariant holds and the vault is exact, any sequence of them, successful or not, leads to one
  -- where, as long as there is a subscription that is not cancelled, the balance of its vault is
  -- exactly what was deposited less what was withdrawn, in the token of the subscription.
  pub run-IsExact :
      (e : Escrow) (steps : List (ℤ × Request))
      → SplLaws spl
      → IsSetting pda plan key
      → AreSteps pda spl plan key steps
      → NoGifts pda key steps
      → Inv pda key e
      → IsExact pda key e
      → IsExact pda key (run pda spl plan key e steps)
  unfolding run
  run-IsExact e [] laws setting allowed wanted inv exact = exact
  run-IsExact e ((now, r) ∷ steps) laws setting (clock, stranger, rest) (wanted, others) inv exact =
      run-IsExact (after e (process pda spl plan key e now r)) steps laws setting rest others
        (after-Inv pda spl plan key e now r laws setting clock stranger inv)
        (after-IsExact e now r laws setting clock stranger wanted inv exact)
