-- ===== src/Escrow/Process.antt =====
-- The instructions on one escrow, and their dispatch: the `nakama` module of
-- nakama/programs/nakama/src/lib.rs with what Anchor does around each handler.
mod Subscriptions
mod Sessions
unfoldable pub use Subscriptions.*
unfoldable pub use Sessions.*
use nakama_sol_x.Prelude.{
  ℕ, ℤ, Bool, Option, none, some, ◌==◌, ok, ok_or, ◌>>=◌, ◌>>◌, require, List, [],
}
use nakama_sol_x.Program.Errors.{token_error, Checked}
use nakama_sol_x.Program.State.{
  Pubkey, Plan, PaySession, Subscription, GracedSubscription, PausedSubscription,
}
use nakama_sol_x.Program.Events.{Event}
use nakama_sol_x.Program.Accounts.{
  Account, Pda, SplToken, load, load_token, check_free, sub_seeds, vault_seeds, grace_seeds,
  paused_sub_seeds, pay_session_seeds,
}
use nakama_sol_x.Instructions.Subscribe.{Subscribe, subscribe_accounts, subscribe_handler}
use nakama_sol_x.Instructions.Charge.{Charge, charge_accounts, charge_handler}
use nakama_sol_x.Instructions.Cancel.{Cancel, cancel_accounts, cancel_handler}
use nakama_sol_x.Instructions.Cleanup.{Cleanup, cleanup_accounts, cleanup_handler}
use nakama_sol_x.Instructions.TopUp.{TopUp, top_up_accounts, top_up_handler}
use nakama_sol_x.Instructions.Pause.{Pause, pause_accounts, pause_handler}
use nakama_sol_x.Instructions.Resume.{Resume, resume_accounts, resume_handler}
use nakama_sol_x.Instructions.OpenSession.{OpenSession, open_session_accounts, open_session_handler}
use nakama_sol_x.Instructions.SettleUsage.{SettleUsage, settle_usage_accounts, settle_usage_handler}
use nakama_sol_x.Instructions.CloseSession.{
  CloseSession, close_session_accounts, close_session_handler,
}
use nakama_sol_x.Escrow.{
  Escrow, Request, subscribe, charge, cancel, cleanup, top_up, pause, resume, open_session,
  settle_usage, close_session, token_transfer, blank_paused, init_optional, load_optional, stored,
  closed_if, update,
}

-- `key` is the address of the subscription; the other addresses derive from it.
module _ (pda : Pda) (spl : SplToken) (plan : Account Plan) (key : Pubkey) (e : Escrow)
    (now : ℤ) where
  unfoldable pub process : Request → Outcome
  process (subscribe signer mint vault ata periods) =
      run_subscribe pda spl plan key e now signer mint vault ata periods
  process (charge signer plan_key vault ata attach) =
      run_charge pda spl plan key e now signer plan_key vault ata attach
  process (cancel signer subscriber vault ata subscriber_ata graced paused) =
      run_cancel pda spl plan key e now signer subscriber vault ata subscriber_ata graced paused
  process (cleanup signer) = run_cleanup pda spl plan key e now signer
  process (top_up signer vault ata attach amount) =
      run_top_up pda spl plan key e now signer vault ata attach amount
  process (pause signer) = run_pause pda spl plan key e now signer
  process (resume signer) = run_resume pda spl plan key e now signer
  process (open_session signer id facilitator limit) =
      run_open_session pda spl plan key e now signer id facilitator limit
  process (settle_usage signer vault ata id amount) =
      run_settle_usage pda spl plan key e now signer vault ata id amount
  process (close_session signer id) = run_close_session pda spl plan key e now signer id
  process (token_transfer signer source target amount) =
      run_token_transfer pda spl plan key e now signer source target amount
