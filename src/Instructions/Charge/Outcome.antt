-- ===== src/Instructions/Charge/Outcome.antt =====
-- What a successful charge does.
use nakama_sol_x.Prelude.{
  ℤ, ◌+ℤ◌, ◌≤ℤ◌, ◌<◌, ◌-◌, ◌≡◌, inl, inr, Bool, true, false, Option, none, some, is_some, ok, arith,
  List, Result-cases, ◌==◌,
}
use nakama_sol_x.Program.Errors.{NakamaError}
use nakama_sol_x.Program.State.{Pubkey, SubscriptionState, GracedSubscription, grace_duration}
use nakama_sol_x.Program.Events.{Event}
use nakama_sol_x.Program.Accounts.{Account, Pda, SplToken, vault_seeds}
use nakama_sol_x.Stream.{unlocked_at}
use nakama_sol_x.Stream.Bounds.{IsSound, streamed, unlocked_at-eq-streamed}
use nakama_sol_x.Instructions.Charge.{Charge, charge_accounts, charge_handler, charge_tail}

-- The state that a charge leaves, by whether the deposit is used up.
abbrev pub next_state : Bool → SubscriptionState
next_state true = SubscriptionState.grace_period
next_state false = SubscriptionState.active

-- The satellite as a charge fills it in.
abbrev pub grace_window :
    Pubkey → ℤ → Option (Account GracedSubscription) → Option (Account GracedSubscription)
grace_window subscription now none = none
grace_window subscription now (some g) = some (record {
  key = g.key;
  info = record {
    subscription = subscription;
    entered_grace_at = now;
    grace_until = now +ℤ grace_duration;
  };
})

-- The charge from `c` to `c'` at `now`, in terms of the earned amount.
pub record Charged (spl : SplToken) (c c' : Charge) (now : ℤ) : Type 0 where
  pub was_active : c.subscription.info.state ≡ SubscriptionState.active
  pub in_order : c.subscription.info.stream_start ≤ℤ now
  pub something : c.subscription.info.withdrawn_amount < streamed c.subscription.info now
  pub paid :
      spl.transfer c.vault c.merchant_ata
        (streamed c.subscription.info now - c.subscription.info.withdrawn_amount)
        c.tokens
      ≡ some c'.tokens
  pub written : c'.subscription.info ≡ record c.subscription.info {
    withdrawn_amount = streamed c.subscription.info now;
    last_charge_at = now;
    next_charge_at = c'.subscription.info.next_charge_at;
    state = next_state (streamed c.subscription.info now == c.subscription.info.deposited_amount);
  }
  pub satellite :
      is_some c.graced_subscription
      ≡ (streamed c.subscription.info now == c.subscription.info.deposited_amount)
  pub recorded : c'.graced_subscription ≡ grace_window c.subscription.key now c.graced_subscription

-- A charge that succeeds on a sound subscription was of an active one with something due. It moved
-- from the vault to the merchant exactly the amount earned and not drawn, the withdrawn amount is
-- now the earned one, and no other field but the state, the time of the charge and the keeper's
-- hint changed. The state is the grace period if the deposit is used up and active if not, and a
-- satellite was attached exactly if it is used up, and holds the window from now.
pub charge_handler-Charged :
    (spl : SplToken) (c c' : Charge) (now : ℤ) (events : List Event)
    → IsSound c.subscription.info
    → charge_handler spl c now ≡ ok (c', events)
    → Charged spl c c' now
unfolding charge_handler charge_tail
charge_handler-Charged spl c c' now events sound h =
    let s = c.subscription.info in
    elim (Result-cases (
      unlocked_at NakamaError.math_overflow s.price s.period s.deposited_amount s.stream_start
        now)) [
          | inl (u, e) ↦
              ground (arith, unlocked_at-eq-streamed NakamaError.math_overflow s now u sound)
          | inr (x, e) ↦ ground arith
        ]

-- The accounts that pass the constraints are the subscription's own.
pub charge_accounts_lem :
    (pda : Pda) (c : Charge)
    → charge_accounts pda c ≡ ok tt
    → (c.vault ≡ pda.address (vault_seeds c.subscription.key) c.subscription.info.vault_bump)
      × (c.merchant_ata ≡ c.subscription.info.merchant_ata)
unfolding charge_accounts
charge_accounts_lem pda c h = ground arith
