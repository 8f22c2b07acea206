-- ===== src/Instructions/Cancel.antt =====
-- cancel.rs: the subscriber or the merchant settles what is unlocked, refunds the rest and closes
-- the vault. The subscription stays as a tombstone.
pub mod Outcome
pub mod Payout
pub mod Progress
use nakama_sol_x.Prelude.{
  ℕ, ltb, leb_ℤ, ltb_ℤ, min_ℤ, ℤ, pos, ◌==◌, Bool, true, false, Option, none, some, is_some, ◌||◌,
  if◌then◌else◌, ok, err, ok_or, ◌>>=◌, ◌>>◌, require, List, [], ◌∷◌, checked_sub, checked_add_u64,
}
use nakama_sol_x.Program.Errors.{NakamaError, custom, token_error, AnchorError, anchor, Checked}
use nakama_sol_x.Program.State.{
  Pubkey, Subscription, SubscriptionState, GracedSubscription, PausedSubscription,
}
use nakama_sol_x.Program.Events.{Event, subscription_cancelled}
use nakama_sol_x.Program.Accounts.{
  Account, Pda, check_seeds, check_graced, sub_seeds, vault_seeds, grace_seeds, paused_sub_seeds,
  Tokens, SplToken, load_token, check_mint, check_authority,
}
use nakama_sol_x.Stream.{unlocked_at}

pub record Cancel : Type 0 where
  pub signer : Pubkey
  pub subscription : Account Subscription
  pub subscriber : Pubkey
  pub vault : Pubkey
  pub merchant_ata : Pubkey
  pub subscriber_ata : Pubkey
  pub graced_subscription : Option (Account GracedSubscription)
  pub paused_subscription : Option (Account PausedSubscription)
  pub tokens : Tokens

abbrev pub check_paused : Pda → Pubkey → Option (Account PausedSubscription) → Checked (Unit {0})
check_paused pda subscription none = ok tt
check_paused pda subscription (some p) = do
  check_seeds pda p.key (paused_sub_seeds subscription)
      (pda.canonical_bump (paused_sub_seeds subscription))
  require (p.info.subscription == subscription) (custom NakamaError.illegal_state_for_cancel)

unfoldable pub cancel_accounts : Pda → Cancel → Checked (Unit {0})
cancel_accounts pda c = do
  let sub = c.subscription.info
  check_seeds pda c.subscription.key (sub_seeds sub.subscriber sub.plan) sub.bump
  require (c.subscriber == sub.subscriber) (custom NakamaError.subscriber_account_mismatch)
  vault ← load_token c.tokens c.vault
  check_seeds pda c.vault (vault_seeds c.subscription.key) sub.vault_bump
  check_mint vault sub.token_mint
  check_authority vault c.subscription.key
  merchant_ata ← load_token c.tokens c.merchant_ata
  require (c.merchant_ata == sub.merchant_ata) (anchor AnchorError.constraint_address)
  check_mint merchant_ata sub.token_mint
  subscriber_ata ← load_token c.tokens c.subscriber_ata
  check_mint subscriber_ata sub.token_mint
  check_authority subscriber_ata sub.subscriber
  check_graced pda c.subscription.key c.graced_subscription
  check_paused pda c.subscription.key c.paused_subscription

abbrev pub is_cancellable : SubscriptionState → Bool
is_cancellable SubscriptionState.active = true
is_cancellable SubscriptionState.paused = true
is_cancellable SubscriptionState.grace_period = true
is_cancellable _ = false

-- The moment up to which the merchant is paid: now, but at most the end of the grace window, and
-- the moment of the pause while paused.
unfoldable pub effective_now :
    SubscriptionState
    → Option (Account GracedSubscription)
    → Option (Account PausedSubscription)
    → ℤ
    → Checked ℤ
effective_now SubscriptionState.active graced paused now = ok now
effective_now SubscriptionState.grace_period graced paused now = do
  grace ← ok_or graced (custom NakamaError.missing_grace_satellite)
  ok (min_ℤ now grace.info.grace_until)
effective_now SubscriptionState.paused graced paused now = do
  p ← ok_or paused (custom NakamaError.illegal_state_for_cancel)
  ok p.info.paused_at
effective_now _ graced paused now = err (custom NakamaError.illegal_state_for_cancel)

-- `if amount > 0 { token::transfer(…)?; }`
unfoldable pub transfer_positive : SplToken → Pubkey → Pubkey → ℕ → Tokens → Checked Tokens
transfer_positive spl source target amount tokens =
    if ltb 0 amount then ok_or (spl.transfer source target amount tokens) token_error else ok tokens

-- What the settlement pays: to the merchant, and back to the subscriber.
unfoldable pub settlement : Subscription → ℤ → Checked (ℕ × ℕ)
unfolding checked_sub
settlement sub effective = do
  unlocked ←
      unlocked_at NakamaError.math_overflow sub.price sub.period sub.deposited_amount
        sub.stream_start effective
  final_claimable ←
      ok_or (checked_sub unlocked sub.withdrawn_amount) (custom NakamaError.math_overflow)
  refund ← ok_or (checked_sub sub.deposited_amount unlocked) (custom NakamaError.math_overflow)
  ok (final_claimable, refund)

unfoldable pub cancel_handler : SplToken → Cancel → ℤ → Checked (Cancel × List Event)
unfolding checked_add_u64
cancel_handler spl c now = do
  let sub = c.subscription.info
  require (c.signer == sub.subscriber || c.signer == sub.merchant)
      (custom NakamaError.no_cancel_authority)
  require (is_cancellable sub.state) (custom NakamaError.illegal_state_for_cancel)
  require (leb_ℤ sub.stream_start now) (custom NakamaError.clock_backwards)
  require (ltb_ℤ (pos 0) sub.period) (custom NakamaError.invalid_period)
  effective ← effective_now sub.state c.graced_subscription c.paused_subscription now
  require (leb_ℤ sub.stream_start effective) (custom NakamaError.clock_backwards)
  (final_claimable, refund) ← settlement sub effective
  settled ← transfer_positive spl c.vault c.merchant_ata final_claimable c.tokens
  refunded ← transfer_positive spl c.vault c.subscriber_ata refund settled
  withdrawn ←
      ok_or (checked_add_u64 sub.withdrawn_amount final_claimable)
        (custom NakamaError.math_overflow)
  tokens ← ok_or (spl.close_account c.vault refunded) token_error
  ok (
    record c {
      subscription = record {
        key = c.subscription.key;
        info = record sub {
          state = SubscriptionState.cancelled;
          last_charge_at = now;
          withdrawn_amount = withdrawn;
        };
      };
      tokens = tokens;
    },
    subscription_cancelled (record {
      subscription = c.subscription.key;
      subscriber = sub.subscriber;
      plan = sub.plan;
      merchant = sub.merchant;
      cancelled_by = c.signer;
      final_settled = final_claimable;
      refunded = refund;
      had_paused_satellite = is_some c.paused_subscription;
      had_graced_satellite = is_some c.graced_subscription;
      timestamp = now;
    })
        ∷ [],
  )
