-- ===== src/Escrow/Steps/Freezing.antt =====
-- Pausing, resuming and cleaning up keep the invariant.
use nakama_sol_x.Prelude.{ℤ, ◌≡◌, some, ok, inl, inr, arith, List, Option-cases}
use nakama_sol_x.Program.State.{Pubkey, Plan, Subscription}
use nakama_sol_x.Program.Events.{Event}
use nakama_sol_x.Program.Accounts.{Account, Pda, SplToken}
use nakama_sol_x.Instructions.Pause.{pause_accounts, pause_handler}
use nakama_sol_x.Instructions.Resume.{resume_accounts, resume_handler}
use nakama_sol_x.Instructions.Cleanup.{cleanup_accounts, cleanup_handler}
use nakama_sol_x.Escrow.{Escrow}
use nakama_sol_x.Escrow.Process.{run_pause, run_resume, run_cleanup}
use nakama_sol_x.Escrow.Invariant.{Live, IsEscrow}

module _ (pda : Pda) (spl : SplToken) (plan : Account Plan) (key : Pubkey) (e : Escrow)
    (now : ℤ) where
  module _ (signer : Pubkey) (s : Subscription) (e' : Escrow) (events : List Event) where
    pub run_pause-IsEscrow :
        e.subscription ≡ some s
        → Live pda key s e
        → run_pause pda spl plan key e now signer ≡ ok (e', events)
        → IsEscrow pda key e'
    unfolding run_pause pause_accounts pause_handler
    run_pause-IsEscrow eq live h = ground arith

    pub run_resume-IsEscrow :
        e.subscription ≡ some s
        → Live pda key s e
        → run_resume pda spl plan key e now signer ≡ ok (e', events)
        → IsEscrow pda key e'
    unfolding run_resume resume_accounts resume_handler
    run_resume-IsEscrow eq live h = elim (Option-cases e.paused) [
      | inl missing ↦ absurd (ground arith)
      | inr (p, i) ↦ ground arith
    ]

    pub run_cleanup-IsEscrow :
        e.subscription ≡ some s
        → Live pda key s e
        → run_cleanup pda spl plan key e now signer ≡ ok (e', events)
        → IsEscrow pda key e'
    unfolding run_cleanup cleanup_accounts cleanup_handler
    run_cleanup-IsEscrow eq live h = ground arith
