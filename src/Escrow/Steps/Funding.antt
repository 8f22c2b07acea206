-- ===== src/Escrow/Steps/Funding.antt =====
-- Topping up keeps the invariant.

use nakama_sol_x.Prelude.{
  ℕ, ℤ, Bool, true, false, ◌≡◌, ◌≢◌, Option, none, some, is_some, ok, inl, inr, arith, List,
  Result-cases, Bool-cases,
}
use nakama_sol_x.Program.State.{Pubkey, Plan, Subscription, GracedSubscription, is_grace}
use nakama_sol_x.Program.Events.{Event}
use nakama_sol_x.Program.Accounts.{Account, Pda, SplToken, SplLaws, grace_seeds}
use nakama_sol_x.Instructions.TopUp.{TopUp, top_up_accounts, top_up_handler}
use nakama_sol_x.Instructions.TopUp.Outcome.{
  top_up_accounts_lem, top_up_handler-ToppedUp, top_up_handler-Funded, top_up_handler-Recovered,
}
use nakama_sol_x.Escrow.{Escrow, load_optional, closed_if}
use nakama_sol_x.Escrow.Process.{run_top_up, top_up_context}
use nakama_sol_x.Escrow.Invariant.{Live, IsEscrow}

-- An attached satellite was there, and is closed.
load_graced_lem :
    (attach : Bool) (slot : Option GracedSubscription) (k : Pubkey)
    (g : Option (Account GracedSubscription))
    → load_optional attach slot k ≡ ok g
    → (is_some g ≡ true → closed_if attach slot ≡ none)
      × (is_some slot ≡ false → closed_if attach slot ≡ none)
load_graced_lem true none k g h = ground arith
load_graced_lem true (some x) k g h = ground arith
load_graced_lem false slot k g h = ground arith

module _ (pda : Pda) (spl : SplToken) (plan : Account Plan) (key : Pubkey) (e : Escrow)
    (now : ℤ) where
  topped_up-Live :
      (signer vault ata : Pubkey) (attach : Bool) (amount : ℕ) (s : Subscription)
      (g : Option (Account GracedSubscription)) (c' : TopUp) (events : List Event)
      → SplLaws spl
      → signer ≢ key
      → Live pda key s e
      → load_optional attach e.graced
          (pda.address (grace_seeds key) (pda.canonical_bump (grace_seeds key)))
        ≡ ok g
      → let c = top_up_context pda spl plan key e now signer vault ata s g in
        top_up_accounts pda c ≡ ok tt
        → top_up_handler spl c amount now ≡ ok (c', events)
        → Live pda key c'.subscription.info (record e {
          subscription = some c'.subscription.info;
          graced = closed_if attach e.graced;
          tokens = c'.tokens;
        })
  topped_up-Live signer vault ata attach amount s g c' events laws stranger live lg checked h =
      let c = top_up_context pda spl plan key e now signer vault ata s g in
      let own = top_up_accounts_lem pda c checked in
      let distinct : ata ≢ vault = ground (arith, own) in
      let done = top_up_handler-ToppedUp spl c c' amount now events h in
      let credited = laws.transfer_credits ata vault amount e.tokens c'.tokens distinct done.paid in
      let kept = laws.transfer_authority ata vault vault amount e.tokens c'.tokens done.paid in
      let gl =
        load_graced_lem attach e.graced
          (pda.address (grace_seeds key) (pda.canonical_bump (grace_seeds key))) g lg in
      elim (Bool-cases (is_grace s.state)) [
        | inl grace ↦
            let (g', recovered) =
              top_up_handler-Recovered spl c c' amount now events (ground arith) h in
            rw recovered.recovered (ground (arith, own, credited, kept, gl, recovered))
        | inr other ↦
            let funded = top_up_handler-Funded spl c c' amount now events (ground arith) h in
            rw funded.funded (ground (arith, own, credited, kept, gl))
      ]

  -- What a successful top-up went through.
  pub run_top_up_lem :
      (signer vault ata : Pubkey) (attach : Bool) (amount : ℕ) (s : Subscription) (e' : Escrow)
      (events : List Event)
      → e.subscription ≡ some s
      → run_top_up pda spl plan key e now signer vault ata attach amount ≡ ok (e', events)
      → (g : Option (Account GracedSubscription)) × (c' : TopUp) × (ev : List Event)
        × (load_optional attach e.graced
              (pda.address (grace_seeds key) (pda.canonical_bump (grace_seeds key)))
            ≡ ok g)
        × (top_up_accounts pda (top_up_context pda spl plan key e now signer vault ata s g) ≡ ok tt)
        × (top_up_handler spl
              (top_up_context pda spl plan key e now signer vault ata s g)
              amount
              now
            ≡ ok (c', ev))
        × (e' ≡ record e {
          subscription = some c'.subscription.info;
          graced = closed_if attach e.graced;
          tokens = c'.tokens;
        })
  unfolding run_top_up
  run_top_up_lem signer vault ata attach amount s e' events eq h =
      elim (Result-cases (
        load_optional attach e.graced
          (pda.address (grace_seeds key) (pda.canonical_bump (grace_seeds key))))) [
            | inr (y, i) ↦ absurd (ground arith)
            | inl (g, i) ↦
                let c = top_up_context pda spl plan key e now signer vault ata s g in
                elim (Result-cases (top_up_accounts pda c)) [
                  | inr (y, j) ↦ absurd (ground arith)
                  | inl (_, j) ↦ elim (Result-cases (top_up_handler spl c amount now)) [
                    | inr (y, k) ↦ absurd (ground arith)
                    | inl ((c', ev), k) ↦ (g, c', ev, i, j, k, ground arith)
                  ]
                ]
          ]

  pub run_top_up-IsEscrow :
      (signer vault ata : Pubkey) (attach : Bool) (amount : ℕ) (s : Subscription) (e' : Escrow)
      (events : List Event)
      → SplLaws spl
      → signer ≢ key
      → e.subscription ≡ some s
      → Live pda key s e
      → run_top_up pda spl plan key e now signer vault ata attach amount ≡ ok (e', events)
      → IsEscrow pda key e'
  run_top_up-IsEscrow signer vault ata attach amount s e' events laws stranger eq live h =
      let (g, c', ev, i, checked, done, stored_back) =
        run_top_up_lem signer vault ata attach amount s e' events eq h in
      rw stored_back
        (topped_up-Live signer vault ata attach amount s g c' ev laws stranger live i checked done)
