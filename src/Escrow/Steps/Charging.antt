-- ===== src/Escrow/Steps/Charging.antt =====
-- Charging keeps the invariant.
use nakama_sol_x.Prelude.{
  ℤ, Bool, true, false, is_some, ◌-◌, ◌≡◌, Option, none, some, ok, inl, inr, arith, List,
  Result-cases,
}
use nakama_sol_x.Program.State.{Pubkey, Plan, Subscription, GracedSubscription}
use nakama_sol_x.Program.Events.{Event}
use nakama_sol_x.Program.Accounts.{Account, Pda, SplToken, SplLaws, grace_seeds}
use nakama_sol_x.Stream.Bounds.{IsSound, streamed}
use nakama_sol_x.Instructions.Charge.{Charge, charge_accounts, charge_handler}
use nakama_sol_x.Instructions.Charge.Outcome.{charge_accounts_lem, charge_handler-Charged, Charged}
use nakama_sol_x.Escrow.{Escrow, init_optional, stored}
use nakama_sol_x.Escrow.Process.{run_charge, charge_context}
use nakama_sol_x.Escrow.Invariant.{Live, IsEscrow}

-- An `init` slot that was attached was free.
init_optional_lem :
    (attach : Bool) (slot : Option GracedSubscription) (k : Pubkey)
    (g : Option (Account GracedSubscription))
    → init_optional attach slot k ≡ ok g
    → (is_some g ≡ true → slot ≡ none) × (is_some g ≡ false → stored g slot ≡ slot)
init_optional_lem true none k g h = ground arith
init_optional_lem true (some x) k g h = ground arith
init_optional_lem false slot k g h = ground arith

module _ (pda : Pda) (spl : SplToken) (plan : Account Plan) (key : Pubkey) (e : Escrow)
    (now : ℤ) where
  -- A checked charge on a live escrow leaves a live escrow.
  Charged-Live :
      (signer plan_key vault ata : Pubkey) (s : Subscription)
      (g : Option (Account GracedSubscription)) (c' : Charge)
      → SplLaws spl
      → Live pda key s e
      → (is_some g ≡ true → e.graced ≡ none)
      → (is_some g ≡ false → stored g e.graced ≡ e.graced)
      → let c = charge_context pda spl plan key e now signer plan_key vault ata s g in
        charge_accounts pda c ≡ ok tt
        → Charged spl c c' now
        → Live pda key c'.subscription.info (record e {
          subscription = some c'.subscription.info;
          graced = stored c'.graced_subscription e.graced;
          tokens = c'.tokens;
        })
  Charged-Live signer plan_key vault ata s g c' laws live fresh old checked done =
      let (v, a) =
        charge_accounts_lem pda
          (charge_context pda spl plan key e now signer plan_key vault ata s g) checked in
      let left =
        laws.transfer_debits vault ata (streamed s now - s.withdrawn_amount) e.tokens c'.tokens
          (ground (arith, v, a)) done.paid in
      let kept =
        laws.transfer_authority vault ata vault (streamed s now - s.withdrawn_amount) e.tokens
          c'.tokens done.paid in
      ground (arith, v, a, left, kept)

  -- What a successful charge went through.
  pub run_charge_lem :
      (signer plan_key vault ata : Pubkey) (attach : Bool) (s : Subscription) (e' : Escrow)
      (events : List Event)
      → e.subscription ≡ some s
      → IsSound s
      → run_charge pda spl plan key e now signer plan_key vault ata attach ≡ ok (e', events)
      → (g : Option (Account GracedSubscription)) × (c' : Charge) × (init_optional attach e.graced
            (pda.address (grace_seeds key) (pda.canonical_bump (grace_seeds key)))
          ≡ ok g)
        × (charge_accounts pda (charge_context pda spl plan key e now signer plan_key vault ata s g)
            ≡ ok tt)
        × Charged spl (charge_context pda spl plan key e now signer plan_key vault ata s g) c' now
        × (e' ≡ record e {
          subscription = some c'.subscription.info;
          graced = stored c'.graced_subscription e.graced;
          tokens = c'.tokens;
        })
  unfolding run_charge
  run_charge_lem signer plan_key vault ata attach s e' events eq sound h =
      elim (Result-cases (
        init_optional attach e.graced
          (pda.address (grace_seeds key) (pda.canonical_bump (grace_seeds key))))) [
            | inr (x, i) ↦ absurd (ground arith)
            | inl (g, i) ↦
                let c = charge_context pda spl plan key e now signer plan_key vault ata s g in
                elim (Result-cases (charge_accounts pda c)) [
                  | inr (x, j) ↦ absurd (ground arith)
                  | inl (_, j) ↦ elim (Result-cases (charge_handler spl c now)) [
                    | inr (x, k) ↦ absurd (ground arith)
                    | inl ((c', ev), k) ↦
                        (g, c', i, j, charge_handler-Charged spl c c' now ev sound k, ground arith)
                  ]
                ]
          ]

  pub run_charge-IsEscrow :
      (signer plan_key vault ata : Pubkey) (attach : Bool) (s : Subscription) (e' : Escrow)
      (events : List Event)
      → SplLaws spl
      → e.subscription ≡ some s
      → Live pda key s e
      → run_charge pda spl plan key e now signer plan_key vault ata attach ≡ ok (e', events)
      → IsEscrow pda key e'
  run_charge-IsEscrow signer plan_key vault ata attach s e' events laws eq live h =
      let (g, c', i, checked, done, stored_back) =
        run_charge_lem signer plan_key vault ata attach s e' events eq live.sound h in
      let (fresh, old) =
        init_optional_lem attach e.graced
          (pda.address (grace_seeds key) (pda.canonical_bump (grace_seeds key))) g i in
      rw stored_back
        (Charged-Live signer plan_key vault ata s g c' laws live fresh old checked done)
