-- ===== src/Instructions/OpenSession/Outcome.antt =====
-- What opening a pay session does.
use nakama_sol_x.Prelude.{ℕ, ℤ, pos, ◌+◌, ◌≤◌, ◌≡◌, ◌⊎◌, ok, arith, List}
use nakama_sol_x.Program.State.{Pubkey, SubscriptionState, PaySession, session_state_byte, opened}
use nakama_sol_x.Program.Events.{Event}
use nakama_sol_x.Program.Accounts.{Account}
use nakama_sol_x.Instructions.OpenSession.{OpenSession, open_session_handler}

-- The session `a` as opened on the parent of `c`.
pub record Opened (c : OpenSession) (id : ℕ) (facilitator : Pubkey) (cap_amount : ℕ) (now : ℤ)
    (a : Account PaySession) : Type 0 where
  pub parent_active : c.parent.info.state ≡ SubscriptionState.active
  pub cap_fits :
      (cap_amount ≡ 0)
      ⊎ (c.parent.info.withdrawn_amount + cap_amount ≤ c.parent.info.deposited_amount)
  pub at_address : a.key ≡ c.pay_session
  pub contents : a.info ≡ record {
    subscription = c.parent.key;
    merchant = c.parent.info.merchant;
    merchant_ata = c.parent.info.merchant_ata;
    facilitator = facilitator;
    session_id = id;
    opened_at = now;
    last_settle_at = pos 0;
    usage_amount = 0;
    reservation_cap = cap_amount;
    state = session_state_byte opened;
    bump = c.pay_session_bump;
  }

-- A session opens only on an active parent and with a cap of zero or within what is left of the
-- escrow. It is unused and open, and its payments go to the parent's merchant account.
pub open_session_handler-Opened :
    (c : OpenSession) (id : ℕ) (facilitator : Pubkey) (cap_amount : ℕ) (now : ℤ)
    (a : Account PaySession) (events : List Event)
    → open_session_handler c id facilitator cap_amount now ≡ ok (a, events)
    → Opened c id facilitator cap_amount now a
unfolding open_session_handler
open_session_handler-Opened c id facilitator cap_amount now a events h = ground arith
