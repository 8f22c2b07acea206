-- ===== src/Escrow/Steps/Cancelling.antt =====
-- Cancelling keeps the invariant.
use nakama_sol_x.Prelude.{
  ℤ, Bool, true, false, ◌≡◌, refl, Option, none, some, is_some, ok, inl, inr, arith, List,
  Result-cases,
}
use nakama_sol_x.Program.State.{
  Pubkey, Plan, Subscription, GracedSubscription, PausedSubscription, is_grace, is_paused,
}
use nakama_sol_x.Program.Events.{Event}
use nakama_sol_x.Program.Accounts.{
  Account, Pda, SplToken, SplLaws, Tokens, grace_seeds, paused_sub_seeds,
}
use nakama_sol_x.Stream.Bounds.{IsSound}
use nakama_sol_x.Instructions.Cancel.{Cancel, cancel_accounts, cancel_handler, effective_now}
use nakama_sol_x.Instructions.Cancel.Outcome.{
  cancel_accounts_lem, cancel_handler-Cancelled, Cancelled,
}
use nakama_sol_x.Escrow.{Escrow, load_optional, closed_if}
use nakama_sol_x.Escrow.Process.{run_cancel, cancel_context}
use nakama_sol_x.Escrow.Invariant.{vault_of, Live, IsEscrow}

-- An attached optional account was there, and is there for the handler.
load_optional_lem :
    {A : Type 0} (attach : Bool) (slot : Option A) (k : Pubkey) (a : Option (Account A))
    → load_optional attach slot k ≡ ok a
    → (is_some a ≡ true → is_some (closed_if attach slot) ≡ false)
      × (is_some slot ≡ false → is_some (closed_if attach slot) ≡ false)
load_optional_lem true none k a h = ground arith
load_optional_lem true (some x) k a h = ground arith
load_optional_lem false slot k a h = ground arith

-- The satellites that the state calls for were attached.
effective_now_lem :
    (s : Subscription) (g : Option (Account GracedSubscription))
    (p : Option (Account PausedSubscription)) (now t : ℤ)
    → effective_now s.state g p now ≡ ok t
    → (is_grace s.state ≡ true → is_some g ≡ true) × (is_paused s.state ≡ true → is_some p ≡ true)
unfolding effective_now
effective_now_lem s g p now t h = ground arith

module _ (pda : Pda) (spl : SplToken) (plan : Account Plan) (key : Pubkey) (e : Escrow)
    (now : ℤ) where
  Cancelled-Live :
      (signer subscriber vault ata subscriber_ata : Pubkey) (s : Subscription)
      (g : Option (Account GracedSubscription)) (p : Option (Account PausedSubscription))
      (graced paused : Bool) (c' : Cancel) (t : ℤ) (settled refunded : Tokens)
      → SplLaws spl
      → Live pda key s e
      → load_optional graced e.graced
          (pda.address (grace_seeds key) (pda.canonical_bump (grace_seeds key)))
        ≡ ok g
      → load_optional paused e.paused
          (pda.address (paused_sub_seeds key) (pda.canonical_bump (paused_sub_seeds key)))
        ≡ ok p
      → let c =
          cancel_context pda spl plan key e now signer subscriber vault ata subscriber_ata s g p in
        cancel_accounts pda c ≡ ok tt
        → Cancelled spl c c' now t settled refunded
        → Live pda key c'.subscription.info (record e {
          subscription = some c'.subscription.info;
          graced = closed_if graced e.graced;
          paused = closed_if paused e.paused;
          tokens = c'.tokens;
        })
  Cancelled-Live signer subscriber vault ata subscriber_ata s g p graced paused c' t settled
        refunded laws live lg lp checked done =
      let own =
        cancel_accounts_lem pda
          (cancel_context pda spl plan key e now signer subscriber vault ata subscriber_ata s g p)
          checked in
      let at_vault : vault ≡ vault_of pda key = ground (arith, own.0) in
      let gone : c'.tokens (vault_of pda key) ≡ none =
        rw (← at_vault) (laws.close_gone vault refunded c'.tokens done.vault_closed) in
      let needs = effective_now_lem s g p now t done.effective in
      let gl =
        load_optional_lem graced e.graced
          (pda.address (grace_seeds key) (pda.canonical_bump (grace_seeds key))) g lg in
      let pl =
        load_optional_lem paused e.paused
          (pda.address (paused_sub_seeds key) (pda.canonical_bump (paused_sub_seeds key))) p lp in
      rw done.written (record {
        sound = ground arith;
        graced_iff = ground (arith, gl, needs);
        paused_iff = ground (arith, pl, needs);
        never_exhausted = λ x. cc;
        vault_bump = live.vault_bump;
        separate = live.separate;
        vault_owned = λ x. absurd (x refl);
        funded = λ x. absurd (x refl);
        vault_gone = λ _. gone;
      })

  -- What a successful cancellation went through.
  pub run_cancel_lem :
      (signer subscriber vault ata subscriber_ata : Pubkey) (graced paused : Bool)
      (s : Subscription) (e' : Escrow) (events : List Event)
      → e.subscription ≡ some s
      → IsSound s
      → run_cancel pda spl plan key e now signer subscriber vault ata subscriber_ata graced paused
        ≡ ok (e', events)
      → (g : Option (Account GracedSubscription)) × (p : Option (Account PausedSubscription))
        × (c' : Cancel) × (t : ℤ) × (settled : Tokens) × (refunded : Tokens) × (load_optional graced
              e.graced
              (pda.address (grace_seeds key) (pda.canonical_bump (grace_seeds key)))
            ≡ ok g)
        × (load_optional paused e.paused
              (pda.address (paused_sub_seeds key) (pda.canonical_bump (paused_sub_seeds key)))
            ≡ ok p)
        × (cancel_accounts pda (
              cancel_context pda spl plan key e now signer subscriber vault ata subscriber_ata s g
                p)
            ≡ ok tt)
        × Cancelled spl
            (cancel_context pda spl plan key e now signer subscriber vault ata subscriber_ata s g p)
            c'
            now
            t
            settled
            refunded
        × (e' ≡ record e {
          subscription = some c'.subscription.info;
          graced = closed_if graced e.graced;
          paused = closed_if paused e.paused;
          tokens = c'.tokens;
        })
  unfolding run_cancel
  run_cancel_lem signer subscriber vault ata subscriber_ata graced paused s e' events eq sound h =
      elim (Result-cases (
        load_optional graced e.graced
          (pda.address (grace_seeds key) (pda.canonical_bump (grace_seeds key))))) [
            | inr (y, i) ↦ absurd (ground arith)
            | inl (g, i) ↦
                elim (Result-cases (
                  load_optional paused e.paused (
                    pda.address (paused_sub_seeds key)
                      (pda.canonical_bump (paused_sub_seeds key))))) [
                        | inr (y, j) ↦ absurd (ground arith)
                        | inl (p, j) ↦
                            let c =
                              cancel_context pda spl plan key e now signer subscriber vault ata
                                subscriber_ata s g p in
                            elim (Result-cases (cancel_accounts pda c)) [
                              | inr (y, k) ↦ absurd (ground arith)
                              | inl (_, k) ↦ elim (Result-cases (cancel_handler spl c now)) [
                                | inr (y, l) ↦ absurd (ground arith)
                                | inl ((c', ev), l) ↦
                                    let (t, settled, refunded, done) =
                                      cancel_handler-Cancelled spl c c' now ev sound l in
                                    let stored_back : e' ≡ record e {
                                      subscription = some c'.subscription.info;
                                      graced = closed_if graced e.graced;
                                      paused = closed_if paused e.paused;
                                      tokens = c'.tokens;
                                    } =
                                      ground arith in
                                    (g, p, c', t, settled, refunded, i, j, k, done, stored_back)
                              ]
                            ]
                      ]
          ]

  pub run_cancel-IsEscrow :
      (signer subscriber vault ata subscriber_ata : Pubkey) (graced paused : Bool)
      (s : Subscription) (e' : Escrow) (events : List Event)
      → SplLaws spl
      → e.subscription ≡ some s
      → Live pda key s e
      → run_cancel pda spl plan key e now signer subscriber vault ata subscriber_ata graced paused
        ≡ ok (e', events)
      → IsEscrow pda key e'
  run_cancel-IsEscrow signer subscriber vault ata subscriber_ata graced paused s e' events laws eq
        live h =
      let (g, p, c', t, settled, refunded, i, j, checked, done, stored_back) =
        run_cancel_lem signer subscriber vault ata subscriber_ata graced paused s e' events eq
          live.sound h in
      rw stored_back (
        Cancelled-Live signer subscriber vault ata subscriber_ata s g p graced paused c' t settled
          refunded laws live i j checked done)
