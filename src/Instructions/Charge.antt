-- ===== src/Instructions/Charge.antt =====
-- charge.rs: anyone moves the unlocked and unclaimed amount from the vault to the merchant.
pub mod Outcome
pub mod Hint
pub mod Progress
pub mod Repeat
use nakama_sol_x.Prelude.{
  ℕ, ltb, leb_ℤ, ltb_ℤ, ℤ, pos, ◌==◌, Option, none, some, is_none, if◌then◌else◌, ok, ok_or, ◌>>=◌,
  ◌>>◌, require, List, [], ◌∷◌, ◌++◌, checked_div, checked_sub, checked_mul_u128, checked_add_u64,
  checked_add_i64, i64_try_from, i64_as_u128,
}
use nakama_sol_x.Program.Errors.{NakamaError, custom, token_error, AnchorError, anchor, Checked}
use nakama_sol_x.Program.State.{
  Pubkey, Subscription, SubscriptionState, GracedSubscription, grace_duration, is_active,
}
use nakama_sol_x.Program.Events.{Event, subscription_charged, grace_entered}
use nakama_sol_x.Program.Accounts.{
  Account, Pda, check_seeds, check_graced, sub_seeds, vault_seeds, grace_seeds, Tokens, SplToken,
  load_token, check_mint, check_authority,
}
use nakama_sol_x.Stream.{unlocked_at}

-- `graced_subscription` holds the account that `init` has created, where the caller attached one.
pub record Charge : Type 0 where
  pub subscription : Account Subscription
  pub plan : Pubkey
  pub vault : Pubkey
  pub merchant_ata : Pubkey
  pub payer : Pubkey
  pub graced_subscription : Option (Account GracedSubscription)
  pub tokens : Tokens

unfoldable pub charge_accounts : Pda → Charge → Checked (Unit {0})
charge_accounts pda c = do
  let sub = c.subscription.info
  check_seeds pda c.subscription.key (sub_seeds sub.subscriber sub.plan) sub.bump
  require (sub.plan == c.plan) (anchor AnchorError.constraint_has_one)
  vault ← load_token c.tokens c.vault
  check_seeds pda c.vault (vault_seeds c.subscription.key) sub.vault_bump
  check_mint vault sub.token_mint
  check_authority vault c.subscription.key
  merchant_ata ← load_token c.tokens c.merchant_ata
  require (c.merchant_ata == sub.merchant_ata) (custom NakamaError.ata_mismatch)
  require (merchant_ata.mint == sub.token_mint) (custom NakamaError.mint_mismatch)
  check_graced pda c.subscription.key c.graced_subscription

-- The keeper's hint: the stream covers `withdrawn * period / price` seconds, plus one period.
unfoldable pub next_charge_after : Subscription → ℕ → Checked ℤ
unfolding checked_mul_u128 checked_div i64_try_from checked_add_i64
next_charge_after sub withdrawn = do
  product ←
      ok_or (checked_mul_u128 withdrawn (i64_as_u128 sub.period)) (custom NakamaError.math_overflow)
  covered ← ok_or (checked_div product sub.price) (custom NakamaError.math_overflow)
  covered_seconds ← ok_or (i64_try_from covered) (custom NakamaError.math_overflow)
  reached ←
      ok_or (checked_add_i64 sub.stream_start covered_seconds) (custom NakamaError.math_overflow)
  ok_or (checked_add_i64 reached sub.period) (custom NakamaError.math_overflow)

-- The stream is consumed: record the grace window in the attached satellite.
unfoldable pub enter_grace : Charge → Subscription → ℤ → Checked (Charge × List Event)
unfolding checked_add_i64
enter_grace c sub now = do
  grace_until ← ok_or (checked_add_i64 now grace_duration) (custom NakamaError.math_overflow)
  graced ← ok_or c.graced_subscription (custom NakamaError.missing_grace_satellite)
  ok (
    record c {
      subscription = record {
        key = c.subscription.key;
        info = record sub { state = SubscriptionState.grace_period };
      };
      graced_subscription = some (record {
        key = graced.key;
        info = record {
          subscription = c.subscription.key;
          entered_grace_at = now;
          grace_until = grace_until;
        };
      });
    },
    grace_entered (record {
      subscription = c.subscription.key;
      entered_grace_at = now;
      grace_until = grace_until;
    })
        ∷ [],
  )

-- Not consumed: an attached satellite is refused.
unfoldable pub stay_active : Charge → Subscription → Checked (Charge × List Event)
stay_active c sub = do
  require (is_none c.graced_subscription) (custom NakamaError.unexpected_grace_satellite)
  ok (record c { subscription = record { key = c.subscription.key; info = sub } }, [])

unfoldable pub charge_tail : Charge → Subscription → ℤ → Checked (Charge × List Event)
unfolding enter_grace stay_active
charge_tail c sub now =
    if sub.withdrawn_amount == sub.deposited_amount
    then enter_grace c sub now
    else stay_active c sub

unfoldable pub charge_handler : SplToken → Charge → ℤ → Checked (Charge × List Event)
unfolding checked_sub checked_add_u64
charge_handler spl c now = do
  let sub = c.subscription.info
  require (is_active sub.state) (custom NakamaError.illegal_state_for_charge)
  require (leb_ℤ sub.stream_start now) (custom NakamaError.clock_backwards)
  require (ltb_ℤ (pos 0) sub.period) (custom NakamaError.invalid_period)
  unlocked ←
      unlocked_at NakamaError.math_overflow sub.price sub.period sub.deposited_amount
        sub.stream_start now
  claimable ← ok_or (checked_sub unlocked sub.withdrawn_amount) (custom NakamaError.math_overflow)
  require (ltb 0 claimable) (custom NakamaError.insufficient_unlocked_funds)
  tokens ← ok_or (spl.transfer c.vault c.merchant_ata claimable c.tokens) token_error
  withdrawn ←
      ok_or (checked_add_u64 sub.withdrawn_amount claimable) (custom NakamaError.math_overflow)
  next_charge_at ← next_charge_after sub withdrawn
  (c', events) ←
      charge_tail (record c { tokens = tokens })
        (record sub {
          withdrawn_amount = withdrawn;
          last_charge_at = now;
          next_charge_at = next_charge_at;
        })
        now
  ok (
    c',
    events
        ++ (subscription_charged (record {
          subscription = c.subscription.key;
          amount = claimable;
          withdrawn_total = withdrawn;
          timestamp = now;
        })
            ∷ []),
  )
