-- ===== src/Instructions/OpenSession.antt =====
-- open_session.rs: the subscriber opens a pay session with a facilitator and a cap.
pub mod Outcome
use nakama_sol_x.Prelude.{
  ℕ, leb, ◌==◌, ◌||◌, ℤ, pos, ok, ok_or, ◌>>=◌, ◌>>◌, require, List, [], ◌∷◌, checked_sub,
}
use nakama_sol_x.Program.Errors.{NakamaError, custom, Checked}
use nakama_sol_x.Program.State.{
  Pubkey, Subscription, PaySession, opened, session_state_byte, is_active,
}
use nakama_sol_x.Program.Events.{Event, pay_session_opened}
use nakama_sol_x.Program.Accounts.{Account, Pda, check_seeds, sub_seeds, pay_session_seeds}

-- `pay_session` is the address being created, with its canonical bump.
pub record OpenSession : Type 0 where
  pub parent : Account Subscription
  pub pay_session : Pubkey
  pub pay_session_bump : ℕ
  pub subscriber : Pubkey

unfoldable pub open_session_accounts : Pda → OpenSession → ℕ → Checked (Unit {0})
open_session_accounts pda c session_id = do
  let parent = c.parent.info
  check_seeds pda c.parent.key (sub_seeds parent.subscriber parent.plan) parent.bump
  require (parent.subscriber == c.subscriber) (custom NakamaError.unauthorized_open_session)
  check_seeds pda c.pay_session (pay_session_seeds c.parent.key session_id) c.pay_session_bump

unfoldable pub open_session_handler :
    OpenSession → ℕ → Pubkey → ℕ → ℤ → Checked (Account PaySession × List Event)
unfolding checked_sub
open_session_handler c session_id facilitator reservation_cap now = do
  let parent = c.parent.info
  require (is_active parent.state) (custom NakamaError.parent_not_active)
  remaining ←
      ok_or (checked_sub parent.deposited_amount parent.withdrawn_amount)
        (custom NakamaError.arithmetic_overflow)
  require (reservation_cap == 0 || leb reservation_cap remaining)
      (custom NakamaError.reservation_cap_exceeds_escrow)
  ok (
    record {
      key = c.pay_session;
      info = record {
        subscription = c.parent.key;
        merchant = parent.merchant;
        merchant_ata = parent.merchant_ata;
        facilitator = facilitator;
        session_id = session_id;
        opened_at = now;
        last_settle_at = pos 0;
        usage_amount = 0;
        reservation_cap = reservation_cap;
        state = session_state_byte opened;
        bump = c.pay_session_bump;
      };
    },
    pay_session_opened (record {
      pay_session = c.pay_session;
      subscription = c.parent.key;
      facilitator = facilitator;
      reservation_cap = reservation_cap;
      timestamp = now;
    })
        ∷ [],
  )
