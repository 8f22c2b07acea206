-- ===== src/Escrow/Steps/Starting.antt =====
-- Subscribing keeps the invariant.
use mathlib.Core.Path.{subst}
use nakama_sol_x.Prelude.{
  ℕ, ℤ, ◌≡◌, ◌≢◌, ◌<◌, none, some, ok, inl, inr, arith, List, Result-cases, Option-cases, u64_bound,
  InI64,
}
use nakama_sol_x.Program.State.{Pubkey, Plan, Subscription}
use nakama_sol_x.Program.Events.{Event}
use nakama_sol_x.Program.Accounts.{Account, Pda, SplToken, SplLaws, Tokens}
use nakama_sol_x.Instructions.Subscribe.{Subscribe, subscribe_accounts, subscribe_handler}
use nakama_sol_x.Instructions.Subscribe.Outcome.{
  subscribe_accounts_lem, subscribe_handler-Started, Started,
}
use nakama_sol_x.Escrow.{Escrow}
use nakama_sol_x.Escrow.Process.{run_subscribe, subscribe_context}
use nakama_sol_x.Escrow.Invariant.{vault_of, Live, IsSlot, IsEscrow}

module _ (pda : Pda) (spl : SplToken) (plan : Account Plan) (key : Pubkey) (e : Escrow)
    (now : ℤ) where
  -- A fresh subscription is live: its vault is new and holds the whole deposit.
  Started-Live :
      (signer mint vault ata : Pubkey) (periods : ℕ) (s : Subscription) (c : Subscribe)
      (tokens : Tokens)
      → SplLaws spl
      → plan.info.merchant_ata ≢ vault_of pda key
      → e.graced ≡ none
      → e.paused ≡ none
      → subscribe_accounts pda spl (subscribe_context pda spl plan key e now signer mint vault ata)
        ≡ ok c
      → Started spl c periods now s tokens
      → Live pda key s (record e { subscription = some s; tokens = tokens })
  Started-Live signer mint vault ata periods s c tokens laws elsewhere no_grace no_pause checked
        done =
      let (same, created, at) =
        subscribe_accounts_lem pda spl
          (subscribe_context pda spl plan key e now signer mint vault ata) c checked in
      let opened = laws.init_empty vault mint key e.tokens c.tokens created in
      let distinct : ata ≢ vault = ground (arith, same, done.distinct) in
      let moved : spl.transfer ata vault s.deposited_amount c.tokens ≡ some tokens =
        ground (arith, same, done.prefunded) in
      let credited =
        laws.transfer_credits ata vault s.deposited_amount c.tokens tokens distinct moved in
      let kept = laws.transfer_authority ata vault vault s.deposited_amount c.tokens tokens moved in
      ground (arith, same, at, opened, credited, kept)

  -- What a successful subscription went through.
  pub run_subscribe_lem :
      (signer mint vault ata : Pubkey) (periods : ℕ) (e' : Escrow) (events : List Event)
      → plan.info.price < u64_bound
      → InI64 plan.info.period
      → InI64 now
      → run_subscribe pda spl plan key e now signer mint vault ata periods ≡ ok (e', events)
      → (c : Subscribe) × (s : Subscription) × (tokens : Tokens) × (e.subscription ≡ none)
        × (subscribe_accounts pda spl
              (subscribe_context pda spl plan key e now signer mint vault ata)
            ≡ ok c)
        × Started spl c periods now s tokens
        × (e' ≡ record e { subscription = some s; tokens = tokens })
  unfolding run_subscribe
  run_subscribe_lem signer mint vault ata periods e' events price period clock h =
      elim (Option-cases e.subscription) [
        | inr (s, taken) ↦ absurd (ground arith)
        | inl free ↦
            elim (Result-cases (
              subscribe_accounts pda spl
                (subscribe_context pda spl plan key e now signer mint vault ata))) [
                  | inr (y, i) ↦ absurd (ground arith)
                  | inl (c, i) ↦ elim (Result-cases (subscribe_handler spl c periods now)) [
                    | inr (y, j) ↦ absurd (ground arith)
                    | inl ((sub, tokens, ev), j) ↦
                        let (same, _, _) =
                          subscribe_accounts_lem pda spl
                            (subscribe_context pda spl plan key e now signer mint vault ata) c i in
                        let plan_kept : c.plan ≡ plan = ground (arith, same) in
                        (
                          c,
                          sub.info,
                          tokens,
                          free,
                          i,
                          subscribe_handler-Started spl c periods now sub tokens ev
                              (rw plan_kept price) (rw plan_kept period) clock j,
                          ground arith,
                        )
                  ]
                ]
      ]

  pub run_subscribe-IsEscrow :
      (signer mint vault ata : Pubkey) (periods : ℕ) (e' : Escrow) (events : List Event)
      → SplLaws spl
      → plan.info.merchant_ata ≢ vault_of pda key
      → plan.info.price < u64_bound
      → InI64 plan.info.period
      → InI64 now
      → IsEscrow pda key e
      → run_subscribe pda spl plan key e now signer mint vault ata periods ≡ ok (e', events)
      → IsEscrow pda key e'
  run_subscribe-IsEscrow signer mint vault ata periods e' events laws elsewhere price period clock
        inv h =
      let (c, s, tokens, free, checked, started, stored_back) =
        run_subscribe_lem signer mint vault ata periods e' events price period clock h in
      let vacant : IsSlot pda key none e = subst (λ o. IsSlot pda key o e) free inv in
      rw stored_back (
        Started-Live signer mint vault ata periods s c tokens laws elsewhere vacant.0 vacant.1
          checked started)
