-- ===== src/Escrow/Exact.antt =====
-- While nobody sends tokens to the vault, it holds exactly what the subscription's counters say.
use nakama_sol_x.Prelude.{
  ℕ, ℤ, ◌+◌, ◌-◌, ◌≡◌, ◌≢◌, ◌∙◌, ◌<◌, Bool, refl, inl, inr, Option, none, some, ok, arith, List,
  Option-cases, Bool-cases, InI64, u64_bound,
}
use nakama_sol_x.Program.State.{Pubkey, Plan, Subscription, SubscriptionState, is_grace}
use nakama_sol_x.Program.Events.{Event}
use nakama_sol_x.Program.Accounts.{Account, Pda, SplToken, SplLaws, Tokens, balance, mint_of}
use nakama_sol_x.Stream.Bounds.{streamed}
use nakama_sol_x.Instructions.Charge.Outcome.{charge_accounts_lem}
use nakama_sol_x.Instructions.SettleUsage.Outcome.{settle_usage_accounts_lem}
use nakama_sol_x.Instructions.TopUp.Outcome.{
  top_up_accounts_lem, top_up_handler-ToppedUp, top_up_handler-Funded, top_up_handler-Recovered,
}
use nakama_sol_x.Instructions.Subscribe.Outcome.{subscribe_accounts_lem, subscribe_accounts-mint}
use nakama_sol_x.Instructions.Pause.{pause_accounts, pause_handler}
use nakama_sol_x.Instructions.Resume.{resume_accounts, resume_handler}
use nakama_sol_x.Instructions.Cleanup.{cleanup_accounts, cleanup_handler}
use nakama_sol_x.Escrow.{Escrow}
use nakama_sol_x.Escrow.Invariant.{vault_of, Live, HasSessions}
use nakama_sol_x.Escrow.Process.{
  run_subscribe, run_charge, run_settle_usage, run_top_up, run_cancel, run_pause, run_resume,
  run_cleanup, subscribe_context, charge_context, settle_usage_context, top_up_context,
}
use nakama_sol_x.Escrow.Steps.Charging.{run_charge_lem}
use nakama_sol_x.Escrow.Steps.Settling.{run_settle_usage_lem}
use nakama_sol_x.Escrow.Steps.Funding.{run_top_up_lem}
use nakama_sol_x.Escrow.Steps.Starting.{run_subscribe_lem}
use nakama_sol_x.Escrow.Steps.Cancelling.{run_cancel_lem}

-- Until the cancellation the vault holds what is deposited and not withdrawn, in the token of the
-- subscription.
abbrev pub Covers : Pda → Pubkey → Subscription → Tokens → Type 0
Covers pda key s tokens =
    s.state ≢ SubscriptionState.cancelled
    → (balance tokens (vault_of pda key) + s.withdrawn_amount ≡ s.deposited_amount)
      × (mint_of (tokens (vault_of pda key)) ≡ some s.token_mint)

abbrev pub IsExactSlot : Pda → Pubkey → Option Subscription → Tokens → Type 0
IsExactSlot pda key none tokens = Unit
IsExactSlot pda key (some s) tokens = Covers pda key s tokens

abbrev pub IsExact : Pda → Pubkey → Escrow → Type 0
IsExact pda key e = IsExactSlot pda key e.subscription e.tokens

module _ (pda : Pda) (spl : SplToken) (plan : Account Plan) (key : Pubkey) (e : Escrow) (now : ℤ)
    (laws : SplLaws spl) (e' : Escrow) (events : List Event) where
  pub subscribe-IsExact :
      (signer mint vault ata : Pubkey) (periods : ℕ)
      → plan.info.price < u64_bound
      → InI64 plan.info.period
      → InI64 now
      → run_subscribe pda spl plan key e now signer mint vault ata periods ≡ ok (e', events)
      → IsExact pda key e'
  subscribe-IsExact signer mint vault ata periods price period clock h =
      let (c, s, tokens, free, checked, started, stored_back) =
        run_subscribe_lem pda spl plan key e now signer mint vault ata periods e' events price
          period clock h in
      let (same, created, at) =
        subscribe_accounts_lem pda spl
          (subscribe_context pda spl plan key e now signer mint vault ata) c checked in
      let opened = laws.init_empty vault mint key e.tokens c.tokens created in
      let distinct : ata ≢ vault = ground (arith, same, started.distinct) in
      let moved : spl.transfer ata vault s.deposited_amount c.tokens ≡ some tokens =
        ground (arith, same, started.prefunded) in
      let credited =
        laws.transfer_credits ata vault s.deposited_amount c.tokens tokens distinct moved in
      let kept = laws.transfer_mint ata vault vault s.deposited_amount c.tokens tokens moved in
      let minted =
        subscribe_accounts-mint pda spl
          (subscribe_context pda spl plan key e now signer mint vault ata) c checked in
      rw stored_back (λ on. (
        ground (arith, at, opened, credited, started.nothing_drawn),
        ground (arith, same, at, opened, kept, minted, started.mint_snapshot),
      ))

  module _ (s : Subscription) (found : e.subscription ≡ some s) (live : Live pda key s e)
      (exact : Covers pda key s e.tokens) where
    pub charge-IsExact :
        (signer plan_key vault ata : Pubkey) (attach : Bool)
        → run_charge pda spl plan key e now signer plan_key vault ata attach ≡ ok (e', events)
        → IsExact pda key e'
    charge-IsExact signer plan_key vault ata attach h =
        let (g, c', i, checked, done, stored_back) =
          run_charge_lem pda spl plan key e now signer plan_key vault ata attach s e' events found
            live.sound h in
        let (v, a) =
          charge_accounts_lem pda
            (charge_context pda spl plan key e now signer plan_key vault ata s g) checked in
        let left =
          laws.transfer_debits vault ata (streamed s now - s.withdrawn_amount) e.tokens c'.tokens
            (ground (arith, v, a, live)) done.paid in
        let kept =
          laws.transfer_mint vault ata (vault_of pda key) (streamed s now - s.withdrawn_amount)
            e.tokens c'.tokens done.paid in
        let (before, minted) = exact (ground (arith, done.was_active)) in
        rw stored_back (
          rw done.written (λ on.
            (ground (arith, v, live.vault_bump, left, before, done.something), kept ∙ minted)))

    pub settle_usage-IsExact :
        (signer vault ata : Pubkey) (id amount : ℕ)
        → HasSessions pda key e
        → run_settle_usage pda spl plan key e now signer vault ata id amount ≡ ok (e', events)
        → IsExact pda key e'
    settle_usage-IsExact signer vault ata id amount sessions h =
        let (x, c', held, checked, done, stored_back) =
          run_settle_usage_lem pda spl plan key e now signer vault ata id amount s e' events found
            live.sound h in
        let (v, a, f, o) =
          settle_usage_accounts_lem pda
            (settle_usage_context pda spl plan key e now signer vault ata id s x) checked in
        let left =
          laws.transfer_debits vault ata amount e.tokens c'.tokens
            (ground (arith, v, a, live.vault_bump, (sessions id x held).elsewhere)) done.paid in
        let kept =
          laws.transfer_mint vault ata (vault_of pda key) amount e.tokens c'.tokens done.paid in
        let (before, minted) = exact (ground (arith, done.parent_active)) in
        rw stored_back
          (rw done.drawn (λ on. (ground (arith, v, live.vault_bump, left, before), kept ∙ minted)))

    pub top_up-IsExact :
        (signer vault ata : Pubkey) (attach : Bool) (amount : ℕ)
        → signer ≢ key
        → run_top_up pda spl plan key e now signer vault ata attach amount ≡ ok (e', events)
        → IsExact pda key e'
    top_up-IsExact signer vault ata attach amount stranger h =
        let (g, c', ev, load, checked, ran, stored_back) =
          run_top_up_lem pda spl plan key e now signer vault ata attach amount s e' events found
            h in
        let c = top_up_context pda spl plan key e now signer vault ata s g in
        let own = top_up_accounts_lem pda c checked in
        let distinct : ata ≢ vault = ground (arith, own) in
        let done = top_up_handler-ToppedUp spl c c' amount now ev ran in
        let credited =
          laws.transfer_credits ata vault amount e.tokens c'.tokens distinct done.paid in
        let kept =
          laws.transfer_mint ata vault (vault_of pda key) amount e.tokens c'.tokens done.paid in
        rw stored_back (elim (Bool-cases (is_grace s.state)) [
          | inl grace ↦
              let (g', recovered) =
                top_up_handler-Recovered spl c c' amount now ev (ground arith) ran in
              let (before, minted) = exact (ground arith) in
              rw recovered.recovered
                (λ on. (ground (arith, own, live.vault_bump, credited, before), kept ∙ minted))
          | inr other ↦
              let funded = top_up_handler-Funded spl c c' amount now ev (ground arith) ran in
              rw funded.funded (λ on.
                let (before, minted) = exact on in
                (ground (arith, own, live.vault_bump, credited, before), kept ∙ minted))
        ])

    pub cancel-IsExact :
        (signer subscriber vault ata subscriber_ata : Pubkey) (graced paused : Bool)
        → run_cancel pda spl plan key e now signer subscriber vault ata subscriber_ata graced paused
          ≡ ok (e', events)
        → IsExact pda key e'
    cancel-IsExact signer subscriber vault ata subscriber_ata graced paused h =
        let (g, p, c', t, settled, refunded, i, j, checked, done, stored_back) =
          run_cancel_lem pda spl plan key e now signer subscriber vault ata subscriber_ata graced
            paused s e' events found live.sound h in
        rw stored_back (rw done.written (λ on. absurd (on refl)))

    pub pause-IsExact :
        (signer : Pubkey)
        → run_pause pda spl plan key e now signer ≡ ok (e', events)
        → IsExact pda key e'
    unfolding run_pause pause_accounts pause_handler
    pause-IsExact signer h = ground arith

    pub resume-IsExact :
        (signer : Pubkey)
        → run_resume pda spl plan key e now signer ≡ ok (e', events)
        → IsExact pda key e'
    unfolding run_resume resume_accounts resume_handler
    resume-IsExact signer h = elim (Option-cases e.paused) [
      | inl missing ↦ absurd (ground arith)
      | inr (p, i) ↦ ground arith
    ]

    pub cleanup-IsExact :
        (signer : Pubkey)
        → run_cleanup pda spl plan key e now signer ≡ ok (e', events)
        → IsExact pda key e'
    unfolding run_cleanup cleanup_accounts cleanup_handler
    cleanup-IsExact signer h = ground arith
