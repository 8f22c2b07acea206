-- ===== src/Escrow/Timely/Moment.antt =====
-- The moment up to which a cancellation pays the merchant exists, and by then the stream has earned
-- what is withdrawn.

use nakama_sol_x.Prelude.{
  ℤ, ◌≤ℤ◌, ◌≡◌, ◌≢◌, ◌⊎◌, refl, ok, inl, inr, Option-cases, Bool-cases, leb_ℤ, min_ℤ, arith,
}
use nakama_sol_x.Program.State.{Pubkey, Subscription, SubscriptionState}
use nakama_sol_x.Program.Accounts.{Pda, grace_seeds, paused_sub_seeds}
use nakama_sol_x.Stream.Growth.{streamed_mono}
use nakama_sol_x.Instructions.Cancel.{effective_now}
use nakama_sol_x.Escrow.{Escrow}
use nakama_sol_x.Escrow.Invariant.{Live}
use nakama_sol_x.Escrow.Timely.{Earned, IsTimely}
use nakama_sol_x.Escrow.Transactions.Cancelling.{loaded}

-- The state in which a subscription that a cancellation accepts can be.
pub open_states :
    (s : SubscriptionState)
    → s ≢ SubscriptionState.cancelled
    → s ≢ SubscriptionState.exhausted
    → (s ≡ SubscriptionState.active)
      ⊎ ((s ≡ SubscriptionState.paused) ⊎ (s ≡ SubscriptionState.grace_period))
open_states SubscriptionState.active on fed = inl refl
open_states SubscriptionState.paused on fed = inr (inl refl)
open_states SubscriptionState.grace_period on fed = inr (inr refl)
open_states SubscriptionState.cancelled on fed = absurd (on refl)
open_states SubscriptionState.exhausted on fed = absurd (fed refl)

-- Up to when a cancellation pays the merchant, and that this is no surprise.
pub record SettlesEarned (pda : Pda) (key : Pubkey) (now : ℤ) (s : Subscription) (e : Escrow)
    : Type 0 where
  pub t : ℤ
  pub until :
      effective_now s.state
        (loaded e.graced (pda.address (grace_seeds key) (pda.canonical_bump (grace_seeds key))))
        (loaded e.paused
          (pda.address (paused_sub_seeds key) (pda.canonical_bump (paused_sub_seeds key))))
        now
      ≡ ok t
  pub earned : Earned s t now

min_ℤ-le : (a b : ℤ) → min_ℤ a b ≤ℤ a
min_ℤ-le a b = elim (Bool-cases (leb_ℤ a b)) [ inl le ↦ ground arith | inr gt ↦ ground arith ]

le-min_ℤ : (c a b : ℤ) → c ≤ℤ a → c ≤ℤ b → c ≤ℤ min_ℤ a b
le-min_ℤ c a b l r = elim (Bool-cases (leb_ℤ a b)) [ inl le ↦ ground arith | inr gt ↦ ground arith ]

module _ (pda : Pda) (key : Pubkey) (now : ℤ) (s : Subscription) (e : Escrow)
    (live : Live pda key s e) (timely : IsTimely key s e.graced e.paused now) where
  moment_while_active : s.state ≡ SubscriptionState.active → SettlesEarned pda key now s e
  unfolding effective_now
  moment_while_active on = record { t = now; until = rw on refl; earned = timely.while_active on }

  moment_while_paused : s.state ≡ SubscriptionState.paused → SettlesEarned pda key now s e
  unfolding effective_now
  moment_while_paused on = elim (Option-cases e.paused) [
    | inl missing ↦ absurd (ground (arith, live.paused_iff))
    | inr (p, held) ↦
        let (before, own) = timely.while_paused on p held in
        record { t = p.paused_at; until = rw (on, held) refl; earned = before }
  ]

  moment_while_graced : s.state ≡ SubscriptionState.grace_period → SettlesEarned pda key now s e
  unfolding effective_now
  moment_while_graced on = elim (Option-cases e.graced) [
    | inl missing ↦ absurd (ground (arith, live.graced_iff))
    | inr (g, held) ↦
        let (before, window) = timely.while_graced on g held in
        let t = min_ℤ now g.grace_until in
        let past = min_ℤ-le now g.grace_until in
        let since = le-min_ℤ g.entered_grace_at now g.grace_until before.past window in
        let more =
          streamed_mono s g.entered_grace_at t live.sound.period_pos before.started since in
        record {
          t = t;
          until = rw (on, held) refl;
          earned = record {
            started = omega (arith, before.started, since);
            past = past;
            drawn = omega (arith, before.drawn, more);
          };
        }
  ]

  pub moment_always : s.state ≢ SubscriptionState.cancelled → SettlesEarned pda key now s e
  moment_always on = elim (open_states s.state on live.never_exhausted) [
    | inl active ↦ moment_while_active active
    | inr (inl stopped) ↦ moment_while_paused stopped
    | inr (inr grace) ↦ moment_while_graced grace
  ]
