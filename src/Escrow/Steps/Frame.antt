-- ===== src/Escrow/Steps/Frame.antt =====
-- What an instruction leaves alone, and what it must have found.
use nakama_sol_x.Prelude.{ℕ, ℤ, ◌≡◌, ◌≢◌, none, ok, arith, List}
use nakama_sol_x.Program.State.{Pubkey, Plan}
use nakama_sol_x.Program.Events.{Event}
use nakama_sol_x.Program.Accounts.{Account, Pda, SplToken}
use nakama_sol_x.Escrow.{
  Escrow, Request, subscribe, charge, cancel, cleanup, top_up, pause, resume, open_session,
  settle_usage, close_session, token_transfer,
}
use nakama_sol_x.Escrow.Process.{
  process, run_subscribe, run_charge, run_cancel, run_cleanup, run_top_up, run_pause, run_resume,
  run_open_session, run_settle_usage, run_close_session, run_token_transfer,
}

-- The requests that need no subscription account, and those that touch the pay sessions.
abbrev pub NeedsNone : Request → Type 0
NeedsNone (subscribe signer mint vault ata periods) = Unit
NeedsNone (token_transfer signer source target amount) = Unit
NeedsNone _ = ⊥

abbrev pub TouchesSessions : Request → Type 0
TouchesSessions (open_session signer id facilitator limit) = Unit
TouchesSessions (settle_usage signer vault ata id amount) = Unit
TouchesSessions (close_session signer id) = Unit
TouchesSessions _ = ⊥

module _ (pda : Pda) (spl : SplToken) (plan : Account Plan) (key : Pubkey) (e : Escrow) (now : ℤ)
    (e' : Escrow) (events : List Event) where
  pub process-sessions :
      (r : Request)
      → ¬ TouchesSessions r
      → process pda spl plan key e now r ≡ ok (e', events)
      → e'.sessions ≡ e.sessions
  unfolding process run_subscribe run_charge run_cancel run_cleanup run_top_up run_pause run_resume
      run_token_transfer
  process-sessions (subscribe signer mint vault ata periods) other h = ground arith
  process-sessions (charge signer plan_key vault ata attach) other h = ground arith
  process-sessions (cancel signer subscriber vault ata sub_ata graced paused) other h = ground arith
  process-sessions (cleanup signer) other h = ground arith
  process-sessions (top_up signer vault ata attach amount) other h = ground arith
  process-sessions (pause signer) other h = ground arith
  process-sessions (resume signer) other h = ground arith
  process-sessions (open_session signer id facilitator limit) other h = absurd (other tt)
  process-sessions (settle_usage signer vault ata id amount) other h = absurd (other tt)
  process-sessions (close_session signer id) other h = absurd (other tt)
  process-sessions (token_transfer signer source target amount) other h = ground arith

  pub process-loads :
      (r : Request)
      → ¬ NeedsNone r
      → process pda spl plan key e now r ≡ ok (e', events)
      → e.subscription ≢ none
  unfolding process run_charge run_cancel run_cleanup run_top_up run_pause run_resume
      run_open_session run_settle_usage run_close_session
  process-loads (subscribe signer mint vault ata periods) other h = absurd (other tt)
  process-loads (charge signer plan_key vault ata attach) other h = ground arith
  process-loads (cancel signer subscriber vault ata sub_ata graced paused) other h = ground arith
  process-loads (cleanup signer) other h = ground arith
  process-loads (top_up signer vault ata attach amount) other h = ground arith
  process-loads (pause signer) other h = ground arith
  process-loads (resume signer) other h = ground arith
  process-loads (open_session signer id facilitator limit) other h = ground arith
  process-loads (settle_usage signer vault ata id amount) other h = ground arith
  process-loads (close_session signer id) other h = ground arith
  process-loads (token_transfer signer source target amount) other h = absurd (other tt)

  pub run_open_session-frame :
      (signer : Pubkey) (id : ℕ) (facilitator : Pubkey) (limit : ℕ)
      → run_open_session pda spl plan key e now signer id facilitator limit ≡ ok (e', events)
      → e' ≡ record e { sessions = e'.sessions }
  unfolding run_open_session
  run_open_session-frame signer id facilitator limit h = ground arith

  pub run_close_session-frame :
      (signer : Pubkey) (id : ℕ)
      → run_close_session pda spl plan key e now signer id ≡ ok (e', events)
      → e' ≡ record e { sessions = e'.sessions }
  unfolding run_close_session
  run_close_session-frame signer id h = ground arith
