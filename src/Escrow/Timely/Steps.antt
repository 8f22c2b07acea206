-- ===== src/Escrow/Timely/Steps.antt =====
-- Each instruction draws no more than is earned.
use nakama_sol_x.Prelude.{
  ℕ, ℤ, ◌≡◌, ◌<◌, ◌+◌, ◌+ℤ◌, ◌-ℤ◌, Bool, refl, inl, inr, Option, none, some, is_some, ok, arith,
  List, Option-cases, Bool-cases, InI64, u64_bound, true, false, ◌≢◌, ◌≤ℤ◌, ◌==◌, ◌∙◌, ap, sym,
  pos_part, neg_part, int_laws,
}
use nakama_sol_x.Program.State.{
  Pubkey, Plan, Subscription, SubscriptionState, GracedSubscription, PausedSubscription, is_grace,
  grace_duration,
}
use nakama_sol_x.Program.Events.{Event}
use nakama_sol_x.Program.Accounts.{Account, Pda, SplToken, grace_seeds}
use nakama_sol_x.Stream.Bounds.{streamed}
use nakama_sol_x.Instructions.Charge.Outcome.{next_state, grace_window}
use nakama_sol_x.Instructions.TopUp.Outcome.{top_up_handler-Funded, top_up_handler-Recovered}
use nakama_sol_x.Instructions.Pause.{pause_accounts, pause_handler}
use nakama_sol_x.Instructions.Resume.{resume_accounts, resume_handler}
use nakama_sol_x.Instructions.Cleanup.{cleanup_accounts, cleanup_handler}
use nakama_sol_x.Escrow.{Escrow, load_optional, stored}
use nakama_sol_x.Escrow.Invariant.{Live}
use nakama_sol_x.Escrow.Process.{
  run_subscribe, run_charge, run_settle_usage, run_top_up, run_cancel, run_pause, run_resume,
  run_cleanup, top_up_context,
}
use nakama_sol_x.Escrow.Steps.Charging.{run_charge_lem}
use nakama_sol_x.Escrow.Steps.Settling.{run_settle_usage_lem}
use nakama_sol_x.Escrow.Steps.Funding.{run_top_up_lem}
use nakama_sol_x.Escrow.Steps.Starting.{run_subscribe_lem}
use nakama_sol_x.Escrow.Steps.Cancelling.{run_cancel_lem}
use nakama_sol_x.Escrow.Timely.{
  Earned, IsTimely, IsTimelyEscrow, IsTimely-active, IsTimely-cancelled, IsTimely-paused,
  Earned-deposit, Earned-restart,
}

next_state-paused : (b : Bool) → next_state b ≢ SubscriptionState.paused
next_state-paused true h = absurd (ground arith)
next_state-paused false h = absurd (ground arith)

next_state-grace : (b : Bool) → next_state b ≡ SubscriptionState.grace_period → b ≡ true
next_state-grace true h = refl
next_state-grace false h = absurd (ground arith)

-- The window that a charge has just filled in.
grace_window-held :
    (key : Pubkey) (now : ℤ) (g : Option (Account GracedSubscription))
    (slot : Option GracedSubscription) (x : GracedSubscription)
    → is_some g ≡ true
    → stored (grace_window key now g) slot ≡ some x
    → (x.entered_grace_at ≡ now) × (x.grace_until ≡ now +ℤ grace_duration)
grace_window-held key now none slot x attached h = absurd (ground arith)
grace_window-held key now (some g) slot x attached h = (ground arith, ground arith)

now-le-until : (now : ℤ) → now ≤ℤ (now +ℤ grace_duration)
now-le-until now = omega int_laws

-- The satellite that is attached is the one in the slot.
load_optional_held :
    (attach : Bool) (slot : Option GracedSubscription) (k : Pubkey) (a : Account GracedSubscription)
    → load_optional attach slot k ≡ ok (some a)
    → slot ≡ some a.info
load_optional_held true none k a h = ground arith
load_optional_held true (some x) k a h = ground arith
load_optional_held false slot k a h = ground arith

module _ (pda : Pda) (spl : SplToken) (plan : Account Plan) (key : Pubkey) (e : Escrow) (now : ℤ)
    (e' : Escrow) (events : List Event) where
  pub subscribe-IsTimely :
      (signer mint vault ata : Pubkey) (periods : ℕ)
      → plan.info.price < u64_bound
      → InI64 plan.info.period
      → InI64 now
      → run_subscribe pda spl plan key e now signer mint vault ata periods ≡ ok (e', events)
      → IsTimelyEscrow key e' now
  subscribe-IsTimely signer mint vault ata periods price period clock h =
      let (c, s, tokens, free, checked, started, stored_back) =
        run_subscribe_lem pda spl plan key e now signer mint vault ata periods e' events price
          period clock h in
      rw stored_back (
        IsTimely-active key s e.graced e.paused now started.active (record {
          started = omega (arith, ap pos_part started.started_now, ap neg_part started.started_now);
          past = omega arith;
          drawn = omega (arith, started.nothing_drawn);
        }))

  module _ (s : Subscription) (found : e.subscription ≡ some s) (live : Live pda key s e)
      (timely : IsTimely key s e.graced e.paused now) where
    pub charge-IsTimely :
        (signer plan_key vault ata : Pubkey) (attach : Bool)
        → run_charge pda spl plan key e now signer plan_key vault ata attach ≡ ok (e', events)
        → IsTimelyEscrow key e' now
    charge-IsTimely signer plan_key vault ata attach h =
        let (g, c', i, checked, done, stored_back) =
          run_charge_lem pda spl plan key e now signer plan_key vault ata attach s e' events found
            live.sound h in
        let drawn_now : Earned
            (record s {
              withdrawn_amount = streamed s now;
              last_charge_at = now;
              next_charge_at = c'.subscription.info.next_charge_at;
              state = next_state (streamed s now == s.deposited_amount);
            })
            now now =
          record { started = done.in_order; past = omega arith; drawn = omega arith } in
        rw stored_back (
          rw done.written (record {
            while_active = λ on. drawn_now;
            while_paused = λ on p held. absurd (next_state-paused _ on);
            while_graced = λ on x held.
                let attached = done.satellite ∙ next_state-grace _ on in
                let (entered, until) =
                  grace_window-held key now g e.graced x attached
                    (ap (λ o. stored o e.graced) (sym done.recorded) ∙ held) in
                (rw entered drawn_now, rw (entered, until) (now-le-until now));
          }))

    pub settle_usage-IsTimely :
        (signer vault ata : Pubkey) (id amount : ℕ)
        → run_settle_usage pda spl plan key e now signer vault ata id amount ≡ ok (e', events)
        → IsTimelyEscrow key e' now
    settle_usage-IsTimely signer vault ata id amount h =
        let (x, c', held, checked, done, stored_back) =
          run_settle_usage_lem pda spl plan key e now signer vault ata id amount s e' events found
            live.sound h in
        rw stored_back (
          rw done.drawn (
            IsTimely-active key (record s { withdrawn_amount = s.withdrawn_amount + amount })
              e.graced e.paused now done.parent_active
              (record { started = done.in_order; past = omega arith; drawn = done.within_stream })))

    pub top_up-IsTimely :
        (signer vault ata : Pubkey) (attach : Bool) (amount : ℕ)
        → run_top_up pda spl plan key e now signer vault ata attach amount ≡ ok (e', events)
        → IsTimelyEscrow key e' now
    top_up-IsTimely signer vault ata attach amount h =
        let (g, c', ev, load, checked, ran, stored_back) =
          run_top_up_lem pda spl plan key e now signer vault ata attach amount s e' events found
            h in
        let c = top_up_context pda spl plan key e now signer vault ata s g in
        rw stored_back (elim (Bool-cases (is_grace s.state)) [
          | inl grace ↦
              let (g', recovered) =
                top_up_handler-Recovered spl c c' amount now ev (ground arith) ran in
              let slot =
                load_optional_held attach e.graced
                  (pda.address (grace_seeds key) (pda.canonical_bump (grace_seeds key))) g'
                  (load ∙ ap (λ o. ok o) recovered.attached) in
              let (before, window) = timely.while_graced (ground arith) g'.info slot in
              rw recovered.recovered (
                IsTimely-active key _ _ e.paused now refl (
                  Earned-deposit _ amount now now
                    (Earned-restart s g'.info.entered_grace_at now before)))
          | inr other ↦
              let funded = top_up_handler-Funded spl c c' amount now ev (ground arith) ran in
              rw funded.funded (record {
                while_active = λ on. Earned-deposit s amount now now (timely.while_active on);
                while_paused = λ on p held.
                    let (before, own) = timely.while_paused on p held in
                    (Earned-deposit s amount p.paused_at now before, own);
                while_graced = λ on g held. absurd (ground arith);
              })
        ])

    pub cancel-IsTimely :
        (signer subscriber vault ata subscriber_ata : Pubkey) (graced paused : Bool)
        → run_cancel pda spl plan key e now signer subscriber vault ata subscriber_ata graced paused
          ≡ ok (e', events)
        → IsTimelyEscrow key e' now
    cancel-IsTimely signer subscriber vault ata subscriber_ata graced paused h =
        let (g, p, c', t, settled, refunded, i, j, checked, done, stored_back) =
          run_cancel_lem pda spl plan key e now signer subscriber vault ata subscriber_ata graced
            paused s e' events found live.sound h in
        rw stored_back (rw done.written (IsTimely-cancelled key _ _ _ now refl))

    pub pause-IsTimely :
        (signer : Pubkey)
        → run_pause pda spl plan key e now signer ≡ ok (e', events)
        → IsTimelyEscrow key e' now
    unfolding run_pause pause_accounts pause_handler
    pause-IsTimely signer h =
        let was_active : s.state ≡ SubscriptionState.active = ground arith in
        let stored_back : e'.subscription ≡ some (record s { state = SubscriptionState.paused }) =
          ground arith in
        let moment : (p : PausedSubscription)
            → e'.paused ≡ some p
            → (p.paused_at ≡ now) × (p.subscription ≡ key) =
          λ p held. (ground arith, ground arith) in
        let before = timely.while_active was_active in
        let stopped : Earned (record s { state = SubscriptionState.paused }) now now = record {
          started = before.started;
          past = before.past;
          drawn = before.drawn;
        } in
        rw stored_back (
          IsTimely-paused key (record s { state = SubscriptionState.paused }) e'.graced e'.paused
            now refl (λ p held. let (at, own) = moment p held in (rw at stopped, own)))

    pub resume-IsTimely :
        (signer : Pubkey)
        → run_resume pda spl plan key e now signer ≡ ok (e', events)
        → IsTimelyEscrow key e' now
    unfolding run_resume resume_accounts resume_handler
    resume-IsTimely signer h = elim (Option-cases e.paused) [
      | inl missing ↦ absurd (ground arith)
      | inr (p, held) ↦
          let (before, own) = timely.while_paused (ground arith) p held in
          let stored_back : e'.subscription
              ≡ some (record s {
                stream_start = s.stream_start +ℤ (now -ℤ p.paused_at);
                state = SubscriptionState.active;
              }) =
            ground arith in
          rw stored_back (
            IsTimely-active key _ e'.graced e'.paused now refl
              (Earned-restart s p.paused_at now before))
    ]

    pub cleanup-IsTimely :
        (signer : Pubkey)
        → run_cleanup pda spl plan key e now signer ≡ ok (e', events)
        → IsTimelyEscrow key e' now
    unfolding run_cleanup cleanup_accounts cleanup_handler
    cleanup-IsTimely signer h = ground arith
