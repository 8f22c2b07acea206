-- ===== src/Escrow/Steps/Transfers.antt =====
-- Transfers by others keep the invariant.

use nakama_sol_x.Prelude.{
  ℕ, ℤ, Bool, true, false, ◌≡◌, ◌≢◌, some, ok, inl, inr, arith, List, Bool-cases, ◌==◌,
  Option-cases,
}
use nakama_sol_x.Program.State.{Pubkey, Plan, Subscription, SubscriptionState}
use nakama_sol_x.Program.Events.{Event}
use nakama_sol_x.Program.Accounts.{Account, Pda, SplToken, SplLaws, Tokens, authority_of}
use nakama_sol_x.Escrow.{Escrow}
use nakama_sol_x.Escrow.Process.{run_token_transfer}
use nakama_sol_x.Escrow.Invariant.{vault_of, Live, IsEscrow}

abbrev is_cancelled : SubscriptionState → Bool
is_cancelled SubscriptionState.cancelled = true
is_cancelled _ = false

module _ (pda : Pda) (spl : SplToken) (plan : Account Plan) (key : Pubkey) (e : Escrow)
    (now : ℤ) where
  transferred-Live :
      (signer source target : Pubkey) (amount : ℕ) (s : Subscription) (tokens : Tokens)
      → SplLaws spl
      → signer ≢ key
      → authority_of (e.tokens source) ≡ some signer
      → Live pda key s e
      → spl.transfer source target amount e.tokens ≡ some tokens
      → Live pda key s (record e { tokens = tokens })
  transferred-Live signer source target amount s tokens laws stranger owner live moved =
      let kept =
        laws.transfer_authority source target (vault_of pda key) amount e.tokens tokens moved in
      elim (Bool-cases (is_cancelled s.state)) [
        | inl gone ↦ ground (arith, kept)
        | inr running ↦
            let apart : source ≢ vault_of pda key = ground arith in
            elim (Bool-cases (target == vault_of pda key)) [
              | inl donation ↦
                  let into : target ≡ vault_of pda key = ground arith in
                  let gained =
                    laws.transfer_credits source target amount e.tokens tokens
                      (ground (arith, into)) moved in
                  ground (arith, kept, gained, into)
              | inr past ↦
                  let same =
                    laws.transfer_frame source target (vault_of pda key) amount e.tokens tokens
                      (ground (arith, apart)) (ground arith) moved in
                  ground (arith, kept, same)
            ]
      ]

  -- Nobody but the subscription can move funds out of its vault, and it signs nothing itself.
  pub run_token_transfer-IsEscrow :
      (signer source target : Pubkey) (amount : ℕ) (e' : Escrow) (events : List Event)
      → SplLaws spl
      → signer ≢ key
      → IsEscrow pda key e
      → run_token_transfer pda spl plan key e now signer source target amount ≡ ok (e', events)
      → IsEscrow pda key e'
  unfolding run_token_transfer
  run_token_transfer-IsEscrow signer source target amount e' events laws stranger inv h =
      elim (Option-cases (e.tokens source)) [
        | inl closed ↦ absurd (ground arith)
        | inr (account, i) ↦ elim (Option-cases (spl.transfer source target amount e.tokens)) [
          | inl failed ↦ absurd (ground arith)
          | inr (tokens, moved) ↦
              let owner : authority_of (e.tokens source) ≡ some signer = ground arith in
              let stored_back : e' ≡ record e { tokens = tokens } = ground arith in
              elim (Option-cases e.subscription) [
                | inl free ↦ ground arith
                | inr (s, eq) ↦ ground (
                  arith,
                  transferred-Live signer source target amount s tokens laws stranger owner
                      (ground arith) moved,
                )
              ]
        ]
      ]
