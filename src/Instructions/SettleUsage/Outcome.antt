-- ===== src/Instructions/SettleUsage/Outcome.antt =====
-- What a successful settlement of usage does.
use nakama_sol_x.Prelude.{
  ℕ, ℤ, ◌≤ℤ◌, ◌<◌, ◌≤◌, ◌+◌, ◌≡◌, ◌⊎◌, inl, inr, some, ok, arith, List, Result-cases,
}
use nakama_sol_x.Program.Errors.{NakamaError}
use nakama_sol_x.Program.State.{Subscription, SubscriptionState, session_state_byte, opened}
use nakama_sol_x.Program.Events.{Event}
use nakama_sol_x.Program.Accounts.{Pda, SplToken, vault_seeds, authority_of}
use nakama_sol_x.Stream.{unlocked_at}
use nakama_sol_x.Stream.Bounds.{IsSound, streamed, unlocked_at-eq-streamed}
use nakama_sol_x.Instructions.SettleUsage.{
  SettleUsage, settle_usage_accounts, settle_usage_handler, parent_remaining, check_cap,
  record_usage,
}

pub record Settled (spl : SplToken) (c c' : SettleUsage) (amount : ℕ) (now : ℤ) : Type 0 where
  pub positive : 0 < amount
  pub parent_active : c.parent.info.state ≡ SubscriptionState.active
  pub in_order : c.parent.info.stream_start ≤ℤ now
  pub session_open : c.pay_session.info.state ≡ session_state_byte opened
  pub within_stream : c.parent.info.withdrawn_amount + amount ≤ streamed c.parent.info now
  pub within_cap :
      (c.pay_session.info.reservation_cap ≡ 0)
      ⊎ (c.pay_session.info.usage_amount + amount ≤ c.pay_session.info.reservation_cap)
  pub paid : spl.transfer c.vault c.merchant_ata amount c.tokens ≡ some c'.tokens
  pub drawn :
      c'.parent.info
      ≡ record c.parent.info { withdrawn_amount = c.parent.info.withdrawn_amount + amount }
  pub used : c'.pay_session.info ≡ record c.pay_session.info {
    usage_amount = c.pay_session.info.usage_amount + amount;
    last_settle_at = now;
  }

pub parent_remaining-eq :
    (s : Subscription) (now : ℤ) (n : ℕ)
    → IsSound s
    → parent_remaining s now ≡ ok n
    → (s.stream_start ≤ℤ now) × (s.withdrawn_amount + n ≡ streamed s now)
unfolding parent_remaining
parent_remaining-eq s now n sound h =
    elim (Result-cases (
      unlocked_at NakamaError.arithmetic_overflow s.price s.period s.deposited_amount s.stream_start
        now)) [
          | inl (u, e) ↦
              ground (arith, unlocked_at-eq-streamed NakamaError.arithmetic_overflow s now u sound)
          | inr (x, e) ↦ ground arith
        ]

-- A settlement that succeeds on a sound parent was of a positive amount, on an active parent and an
-- open session, within what the stream has earned and nobody has drawn, and within the session's
-- cap where it has one. It moved the amount from the vault to the merchant, added it to the
-- parent's withdrawn amount and to the session's usage, and left the session open.
pub settle_usage_handler-Settled :
    (spl : SplToken) (c c' : SettleUsage) (amount : ℕ) (now : ℤ) (events : List Event)
    → IsSound c.parent.info
    → settle_usage_handler spl c amount now ≡ ok (c', events)
    → Settled spl c c' amount now
unfolding settle_usage_handler check_cap record_usage
settle_usage_handler-Settled spl c c' amount now events sound h =
    elim (Result-cases (parent_remaining c.parent.info now)) [
      | inl (n, e) ↦ ground (arith, parent_remaining-eq c.parent.info now n sound e)
      | inr (x, e) ↦ ground arith
    ]

pub settle_usage_accounts_lem :
    (pda : Pda) (c : SettleUsage)
    → settle_usage_accounts pda c ≡ ok tt
    → (c.vault ≡ pda.address (vault_seeds c.parent.key) c.parent.info.vault_bump)
      × (c.merchant_ata ≡ c.pay_session.info.merchant_ata)
      × (c.pay_session.info.facilitator ≡ c.facilitator)
      × (authority_of (c.tokens c.vault) ≡ some c.parent.key)
unfolding settle_usage_accounts
settle_usage_accounts_lem pda c h = ground arith
