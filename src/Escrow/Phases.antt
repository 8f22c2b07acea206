-- ===== src/Escrow/Phases.antt =====
-- The state machine of a subscription, and who may move it.
use nakama_sol_x.Prelude.{◌≤◌, true, ◌≡◌, ◌⊎◌, Option, none, some}
use nakama_sol_x.Program.State.{Pubkey, Subscription, SubscriptionState}
use nakama_sol_x.Instructions.Cancel.{Cancel, is_cancellable}
use nakama_sol_x.Instructions.Cleanup.{is_cleanable}
use nakama_sol_x.Instructions.TopUp.{TopUp}
use nakama_sol_x.Escrow.{Escrow}

-- The moves from state `x` to state `y` of the subscription `s` in a transaction of `signer`.
pub data Transition (s : Subscription) (signer : Pubkey) (x y : SubscriptionState) : Type 0 where
  stays : y ≡ x → Transition s signer x y
  exhausts :
      x ≡ SubscriptionState.active → y ≡ SubscriptionState.grace_period → Transition s signer x y
  recovers :
      signer ≡ s.subscriber
      → x ≡ SubscriptionState.grace_period
      → y ≡ SubscriptionState.active
      → Transition s signer x y
  pauses :
      signer ≡ s.merchant
      → x ≡ SubscriptionState.active
      → y ≡ SubscriptionState.paused
      → Transition s signer x y
  resumes :
      signer ≡ s.merchant
      → x ≡ SubscriptionState.paused
      → y ≡ SubscriptionState.active
      → Transition s signer x y
  cancels :
      (signer ≡ s.subscriber) ⊎ (signer ≡ s.merchant)
      → is_cancellable x ≡ true
      → y ≡ SubscriptionState.cancelled
      → Transition s signer x y

-- What no transaction changes, and the two counters, which only grow.
pub record SameTerms (s s' : Subscription) : Type 0 where
  pub subscriber : s'.subscriber ≡ s.subscriber
  pub plan : s'.plan ≡ s.plan
  pub price : s'.price ≡ s.price
  pub period : s'.period ≡ s.period
  pub token_mint : s'.token_mint ≡ s.token_mint
  pub merchant : s'.merchant ≡ s.merchant
  pub merchant_ata : s'.merchant_ata ≡ s.merchant_ata
  pub created_at : s'.created_at ≡ s.created_at
  pub deposits_grow : s.deposited_amount ≤ s'.deposited_amount
  pub withdrawals_grow : s.withdrawn_amount ≤ s'.withdrawn_amount

-- The account is kept in a state that the machine reaches, or the subscriber has removed the
-- tombstone.
pub data Moved (s : Subscription) (signer : Pubkey) (after : Option Subscription) : Type 0 where
  kept :
      (s' : Subscription)
      → after ≡ some s'
      → Transition s signer s.state s'.state
      → SameTerms s s'
      → Moved s signer after
  removed :
      after ≡ none → signer ≡ s.subscriber → is_cleanable s.state ≡ true → Moved s signer after
