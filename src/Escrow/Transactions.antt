-- ===== src/Escrow/Transactions.antt =====
-- Transactions of several instructions on one escrow. The runtime runs them in order, and one that
-- fails undoes the others: the result is the escrow after all of them, or an error.
pub mod Closing
pub mod Renewal
pub mod Cancelling
pub mod Leaving
pub mod Survivors
use nakama_sol_x.Prelude.{ℕ, ℤ, ok, ◌>>=◌, true, false, Bool, List, [], ◌∷◌, ◌++◌, map}
use nakama_sol_x.Program.Errors.{Checked}
use nakama_sol_x.Program.State.{Pubkey, Plan}
use nakama_sol_x.Program.Accounts.{Account, Pda, SplToken}
use nakama_sol_x.Escrow.{Escrow, Request, subscribe, cancel, cleanup, close_session}
use nakama_sol_x.Escrow.Process.{process}

module _ (pda : Pda) (spl : SplToken) (plan : Account Plan) (key : Pubkey) where
  unfoldable pub commit : ℤ → List Request → Escrow → Checked Escrow
  unfolding process
  commit now [] e = ok e
  commit now (r ∷ rest) e = do (e', events) ← process pda spl plan key e now r; commit now rest e'

-- The closing instructions.
abbrev pub closings : Pubkey → List ℕ → List Request
closings subscriber [] = []
closings subscriber (id ∷ ids) = close_session subscriber id ∷ closings subscriber ids

-- What the client composes to subscribe again, and to leave a subscription.
abbrev pub renewal : Pubkey → Pubkey → Pubkey → Pubkey → ℕ → List ℕ → List Request
renewal subscriber mint vault ata periods ids =
    closings subscriber ids ++ cleanup subscriber ∷ subscribe subscriber mint vault ata periods ∷ []

abbrev pub leaving : Pubkey → Pubkey → Pubkey → Pubkey → Bool → Bool → List ℕ → List Request
leaving subscriber vault merchant_ata ata graced paused ids =
    closings subscriber ids
    ++ cancel subscriber subscriber vault merchant_ata ata graced paused ∷ cleanup subscriber ∷ []
