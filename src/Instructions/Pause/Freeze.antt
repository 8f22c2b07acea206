-- ===== src/Instructions/Pause/Freeze.antt =====
-- A pause and the resume after it: the stream stands still in between.
use nakama_sol_x.Prelude.{
  ℤ, ◌+ℤ◌, ◌-ℤ◌, ◌≤ℤ◌, ◌≡◌, inl, inr, ok, arith, List, [], ◌∷◌, Result-cases, InI64,
}
use nakama_sol_x.Program.Errors.{NakamaError}
use nakama_sol_x.Program.State.{SubscriptionState}
use nakama_sol_x.Program.Events.{Event, subscription_paused}
use nakama_sol_x.Stream.{unlocked_at}
use nakama_sol_x.Stream.Bounds.{IsSound, streamed, unlocked_at-eq-streamed}
use nakama_sol_x.Stream.Growth.{streamed_resume}
use nakama_sol_x.Instructions.Pause.{Pause, pause_handler}
use nakama_sol_x.Instructions.Resume.{Resume, resume_handler}

-- The pause stopped an active stream at `now`, noted the moment in the satellite, and reported what
-- the stream had earned.
pub record Frozen (c c' : Pause) (now : ℤ) (events : List Event) : Type 0 where
  pub was_active : c.subscription.info.state ≡ SubscriptionState.active
  pub in_order : c.subscription.info.stream_start ≤ℤ now
  pub written :
      c'.subscription.info ≡ record c.subscription.info { state = SubscriptionState.paused }
  pub moment : c'.paused_satellite.info.paused_at ≡ now
  pub owner : c'.paused_satellite.info.subscription ≡ c.subscription.key
  pub reported :
      events
      ≡ subscription_paused (record {
        subscription = c.subscription.key;
        paused_at = now;
        unlocked_at_pause = streamed c.subscription.info now;
      })
        ∷ []

pub pause_handler-Frozen :
    (c c' : Pause) (now : ℤ) (events : List Event)
    → IsSound c.subscription.info
    → pause_handler c now ≡ ok (c', events)
    → Frozen c c' now events
unfolding pause_handler
pause_handler-Frozen c c' now events sound h =
    let s = c.subscription.info in
    elim (Result-cases (
      unlocked_at NakamaError.math_overflow s.price s.period s.deposited_amount s.stream_start
        now)) [
          | inl (u, e) ↦
              ground (arith, unlocked_at-eq-streamed NakamaError.math_overflow s now u sound)
          | inr (x, e) ↦ ground arith
        ]

-- The resume moves the anchor on by the length of the pause, and changes nothing else.
pub record Thawed (c c' : Resume) (now : ℤ) : Type 0 where
  pub in_order : c.paused_satellite.info.paused_at ≤ℤ now
  pub start_range :
      InI64 (c.subscription.info.stream_start +ℤ (now -ℤ c.paused_satellite.info.paused_at))
  pub written : c'.subscription.info ≡ record c.subscription.info {
    stream_start = c.subscription.info.stream_start +ℤ (now -ℤ c.paused_satellite.info.paused_at);
    state = SubscriptionState.active;
  }

pub resume_handler-Thawed :
    (c c' : Resume) (now : ℤ) (events : List Event)
    → resume_handler c now ≡ ok (c', events)
    → Thawed c c' now
unfolding resume_handler
resume_handler-Thawed c c' now events h = ground arith

-- A sound subscription that is paused at `t1` and resumed at `t2` is as it was before, but for the
-- anchor, which has moved on by the time between: at a time `d` after the resume the stream has
-- earned what it would have earned `d` after the pause, had there been none.
pub pause_resume :
    (c c' : Pause) (r r' : Resume) (t1 t2 d : ℤ) (events events' : List Event)
    → IsSound c.subscription.info
    → pause_handler c t1 ≡ ok (c', events)
    → r.subscription ≡ c'.subscription
    → r.paused_satellite ≡ c'.paused_satellite
    → resume_handler r t2 ≡ ok (r', events')
    → (r'.subscription.info ≡ record c.subscription.info {
      stream_start = c.subscription.info.stream_start +ℤ (t2 -ℤ t1);
    })
      × (streamed r'.subscription.info (t2 +ℤ d) ≡ streamed c.subscription.info (t1 +ℤ d))
pause_resume c c' r r' t1 t2 d events events' sound h same satellite h' =
    let frozen = pause_handler-Frozen c c' t1 events sound h in
    let thawed = resume_handler-Thawed r r' t2 events' h' in
    let back : r'.subscription.info ≡ record c.subscription.info {
      stream_start = c.subscription.info.stream_start +ℤ (t2 -ℤ t1);
    } =
      ground (arith, thawed.written, frozen.written, frozen.moment, frozen.was_active) in
    (back, rw back (streamed_resume c.subscription.info t1 t2 d))
