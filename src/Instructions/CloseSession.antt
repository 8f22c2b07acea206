-- ===== src/Instructions/CloseSession.antt =====
-- close_session.rs: the subscriber closes a pay session, whatever the parent's state.
use nakama_sol_x.Prelude.{ℤ, ◌==◌, ok, ◌>>◌, require, List, [], ◌∷◌}
use nakama_sol_x.Program.Errors.{NakamaError, custom, Checked}
use nakama_sol_x.Program.State.{Pubkey, Subscription, PaySession, opened, session_state_byte}
use nakama_sol_x.Program.Events.{Event, pay_session_closed}
use nakama_sol_x.Program.Accounts.{Account, Pda, check_seeds, sub_seeds, pay_session_seeds}

pub record CloseSession : Type 0 where
  pub parent : Account Subscription
  pub pay_session : Account PaySession
  pub subscriber : Pubkey

unfoldable pub close_session_accounts : Pda → CloseSession → Checked (Unit {0})
close_session_accounts pda c = do
  let parent = c.parent.info
  let session = c.pay_session.info
  check_seeds pda c.parent.key (sub_seeds parent.subscriber parent.plan) parent.bump
  require (parent.subscriber == c.subscriber) (custom NakamaError.unauthorized_close)
  check_seeds pda c.pay_session.key (pay_session_seeds c.parent.key session.session_id) session.bump
  require (session.subscription == c.parent.key) (custom NakamaError.pay_session_parent_mismatch)

unfoldable pub close_session_handler : CloseSession → ℤ → Checked (List Event)
close_session_handler c now = do
  let session = c.pay_session.info
  require (session.state == session_state_byte opened) (custom NakamaError.illegal_state_for_close)
  ok (
      pay_session_closed (record {
        pay_session = c.pay_session.key;
        subscription = c.parent.key;
        final_usage = session.usage_amount;
        rent_returned_to = c.subscriber;
        timestamp = now;
      })
      ∷ [])
