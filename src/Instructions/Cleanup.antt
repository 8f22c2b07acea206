-- ===== src/Instructions/Cleanup.antt =====
-- cleanup.rs: the subscriber closes the tombstone. The account itself is closed after the handler.
use nakama_sol_x.Prelude.{ℤ, ◌==◌, Bool, true, false, ok, ◌>>◌, require, List, [], ◌∷◌}
use nakama_sol_x.Program.Errors.{NakamaError, custom, Checked}
use nakama_sol_x.Program.State.{Pubkey, Subscription, SubscriptionState}
use nakama_sol_x.Program.Events.{Event, subscription_cleaned}
use nakama_sol_x.Program.Accounts.{Account, Pda, check_seeds, sub_seeds}

pub record Cleanup : Type 0 where
  pub subscription : Account Subscription
  pub subscriber : Pubkey

unfoldable pub cleanup_accounts : Pda → Cleanup → Checked (Unit {0})
cleanup_accounts pda c = do
  let sub = c.subscription.info
  require (sub.subscriber == c.subscriber) (custom NakamaError.unauthorized_cleanup)
  check_seeds pda c.subscription.key (sub_seeds sub.subscriber sub.plan) sub.bump

abbrev pub is_cleanable : SubscriptionState → Bool
is_cleanable SubscriptionState.cancelled = true
is_cleanable SubscriptionState.exhausted = true
is_cleanable _ = false

unfoldable pub cleanup_handler : Cleanup → ℤ → Checked (List Event)
cleanup_handler c now = do
  let sub = c.subscription.info
  require (is_cleanable sub.state) (custom NakamaError.illegal_state_for_cleanup)
  ok (
      subscription_cleaned (record {
        subscription = c.subscription.key;
        rent_returned_to = c.subscriber;
        timestamp = now;
      })
      ∷ [])
