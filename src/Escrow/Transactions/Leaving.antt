-- ===== src/Escrow/Transactions/Leaving.antt =====
-- The transaction that leaves a subscription: close the sessions, cancel, clean up.

use nakama_sol_x.Prelude.{ℕ, ℤ, ◌≡◌, refl, ◌∙◌, none, some, is_some, ok, List}
use nakama_sol_x.Program.State.{Pubkey, Plan, Subscription}
use nakama_sol_x.Program.Accounts.{Account, Pda, SplToken, SplLaws}
use nakama_sol_x.Stream.Bounds.{IsSound}
use nakama_sol_x.Instructions.Cancel.{Cancel}
use nakama_sol_x.Instructions.Cancel.Payout.{Distributed}
use nakama_sol_x.Escrow.{Escrow}
use nakama_sol_x.Escrow.Transactions.{commit, leaving}
use nakama_sol_x.Escrow.Transactions.Closing.{IsOwn, AreClosable, cleared, without, commit-closings}
use nakama_sol_x.Escrow.Transactions.Renewal.{cleanup_succeeds}
use nakama_sol_x.Escrow.Transactions.Cancelling.{
  MayCancel, own_vault, cancellation, cancel_succeeds,
}

module _ (pda : Pda) (spl : SplToken) (plan : Account Plan) (key : Pubkey) (now : ℤ)
    (s : Subscription) (subscriber ata : Pubkey) (e : Escrow) where
  -- Under the laws of the token program, on a sound subscription that the subscriber owns and may
  -- cancel, with different open sessions to close and the satellites attached that exist, the
  -- transaction that closes these sessions, cancels and cleans up goes through. It leaves no
  -- subscription, no satellite and the same sessions less those closed, and the token accounts as a
  -- cancellation up to the time `t` distributes the funds.
  pub leaving_commits :
      (ids : List ℕ) (t : ℤ)
      → SplLaws spl
      → IsSound s
      → e.subscription ≡ some s
      → IsOwn pda key subscriber s
      → AreClosable pda key e.sessions ids
      → MayCancel pda spl plan key now s subscriber ata e t
      → (e' : Escrow) × (cancel : Cancel) × (commit pda spl plan key now
            (leaving subscriber
              (own_vault pda spl plan key now s subscriber ata e)
              s.merchant_ata
              ata
              (is_some e.graced)
              (is_some e.paused)
              ids)
            e
          ≡ ok e')
        × (e'.subscription ≡ none)
        × (e'.graced ≡ none)
        × (e'.paused ≡ none)
        × (e'.sessions ≡ cleared e.sessions ids)
        × (e'.tokens ≡ cancel.tokens)
        × Distributed (cancellation pda spl plan key now s subscriber ata e) cancel t
  unfolding commit
  leaving_commits ids t laws sound found own closable can =
      let closed = without e ids in
      let first = commit-closings pda spl plan key now s subscriber e ids _ found own closable in
      let (e1, events, second, gone) =
        cancel_succeeds pda spl plan key now s subscriber ata closed t laws sound found own can in
      let (cleaned, third) =
        cleanup_succeeds pda spl plan key now subscriber e1 gone.sub gone.stored gone.tombstone
          gone.own in
      (
        record e1 { subscription = none },
        gone.cancel,
        first ∙ (rw second (rw third refl)),
        refl,
        gone.no_grace,
        gone.no_pause,
        gone.kept,
        gone.tokens,
        gone.paid,
      )
