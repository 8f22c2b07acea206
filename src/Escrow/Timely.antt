-- ===== src/Escrow/Timely.antt =====
-- What is withdrawn and what has been earned by the moment up to which a cancellation would settle.
pub mod Steps
pub mod Runs
pub mod Moment
use nakama_sol_x.Prelude.{
  ℕ, ℤ, ◌+ℤ◌, ◌-ℤ◌, ◌≤ℤ◌, ◌≤◌, ◌+◌, ◌≡◌, ◌≢◌, ◌<◌, Bool, refl, inl, inr, Option, none, some, ok,
  arith, List, Option-cases, Bool-cases, InI64, u64_bound, int_laws,
}
use nakama_sol_x.Program.State.{
  Pubkey, Plan, Subscription, SubscriptionState, GracedSubscription, PausedSubscription, is_grace,
}
use nakama_sol_x.Stream.Bounds.{IsSound, gap, streamed}
use nakama_sol_x.Stream.Growth.{streamed_mono}
use nakama_sol_x.Escrow.{Escrow}

-- The stream had started by `t`, which is past, and had earned by then what is withdrawn.
pub record Earned (s : Subscription) (t now : ℤ) : Type 0 where
  pub started : s.stream_start ≤ℤ t
  pub past : t ≤ℤ now
  pub drawn : s.withdrawn_amount ≤ streamed s t

-- The stream counts until now while it is active, until the pause while it is paused, and until the
-- charge that used up the deposit in the grace period.
pub record IsTimely (key : Pubkey) (s : Subscription) (graced : Option GracedSubscription)
    (paused : Option PausedSubscription) (now : ℤ) : Type 0 where
  pub while_active : s.state ≡ SubscriptionState.active → Earned s now now
  pub while_paused :
      s.state ≡ SubscriptionState.paused
      → (p : PausedSubscription) → paused ≡ some p
      → Earned s p.paused_at now × (p.subscription ≡ key)
  pub while_graced :
      s.state ≡ SubscriptionState.grace_period
      → (g : GracedSubscription) → graced ≡ some g
      → Earned s g.entered_grace_at now × (g.entered_grace_at ≤ℤ g.grace_until)

abbrev pub IsTimelySlot :
    Pubkey
    → Option Subscription
    → Option GracedSubscription
    → Option PausedSubscription
    → ℤ
    → Type 0
IsTimelySlot key none graced paused now = Unit
IsTimelySlot key (some s) graced paused now = IsTimely key s graced paused now

abbrev pub IsTimelyEscrow : Pubkey → Escrow → ℤ → Type 0
IsTimelyEscrow key e now = IsTimelySlot key e.subscription e.graced e.paused now

-- In one state only one of the three counts.
module _ (key : Pubkey) (s : Subscription) (graced : Option GracedSubscription)
    (paused : Option PausedSubscription) (now : ℤ) where
  pub IsTimely-active :
      s.state ≡ SubscriptionState.active → Earned s now now → IsTimely key s graced paused now
  IsTimely-active active h = record {
    while_active = λ on. h;
    while_paused = λ on p held. absurd (ground arith);
    while_graced = λ on g held. absurd (ground arith);
  }

  pub IsTimely-cancelled : s.state ≡ SubscriptionState.cancelled → IsTimely key s graced paused now
  IsTimely-cancelled gone = record {
    while_active = λ on. absurd (ground arith);
    while_paused = λ on p held. absurd (ground arith);
    while_graced = λ on g held. absurd (ground arith);
  }

  pub IsTimely-paused :
      s.state ≡ SubscriptionState.paused
      → ((p : PausedSubscription)
          → paused ≡ some p
          → Earned s p.paused_at now × (p.subscription ≡ key))
      → IsTimely key s graced paused now
  IsTimely-paused stopped h = record {
    while_active = λ on. absurd (ground arith);
    while_paused = λ on. h;
    while_graced = λ on g held. absurd (ground arith);
  }

-- Time passes.
Earned-later : (s : Subscription) (t now now' : ℤ) → now ≤ℤ now' → Earned s t now → Earned s t now'
Earned-later s t now now' le h = record {
  started = h.started;
  past = omega (arith, h.past);
  drawn = h.drawn;
}

Earned-now :
    (s : Subscription) (now now' : ℤ)
    → IsSound s
    → now ≤ℤ now'
    → Earned s now now
    → Earned s now' now'
Earned-now s now now' sound le h = record {
  started = omega (arith, h.started);
  past = omega arith;
  drawn = omega (arith, h.drawn, streamed_mono s now now' sound.period_pos h.started le);
}

pub IsTimely-later :
    (key : Pubkey) (s : Subscription) (graced : Option GracedSubscription)
    (paused : Option PausedSubscription) (now now' : ℤ)
    → IsSound s
    → now ≤ℤ now'
    → IsTimely key s graced paused now
    → IsTimely key s graced paused now'
IsTimely-later key s graced paused now now' sound le h = record {
  while_active = λ on. Earned-now s now now' sound le (h.while_active on);
  while_paused = λ on p held.
      let (before, own) = h.while_paused on p held in
      (Earned-later s p.paused_at now now' le before, own);
  while_graced = λ on g held.
      let (before, window) = h.while_graced on g held in
      (Earned-later s g.entered_grace_at now now' le before, window);
}

-- A deposit earns nothing back: what had been earned stays earned.
pub Earned-deposit :
    (s : Subscription) (amount : ℕ) (t now : ℤ)
    → Earned s t now
    → Earned (record s { deposited_amount = s.deposited_amount + amount }) t now
Earned-deposit s amount t now h = record {
  started = h.started;
  past = h.past;
  drawn = omega (arith, h.drawn);
}

gap-restart : (start a t : ℤ) → gap t (start +ℤ (t -ℤ a)) ≡ gap a start
gap-restart start a t = omega int_laws

restart-le : (start a t : ℤ) → start ≤ℤ a → (start +ℤ (t -ℤ a)) ≤ℤ t
restart-le start a t le = omega int_laws

-- Moving the anchor on by the time since `a` counts from `a`.
pub Earned-restart :
    (s : Subscription) (a now : ℤ)
    → Earned s a now
    → Earned
        (record s { stream_start = s.stream_start +ℤ (now -ℤ a); state = SubscriptionState.active })
        now
        now
Earned-restart s a now h = record {
  started = restart-le s.stream_start a now h.started;
  past = omega arith;
  drawn = rw (gap-restart s.stream_start a now) h.drawn;
}
