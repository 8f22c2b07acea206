-- ===== src/Stream/Growth.antt =====
-- How the earned amount moves: it grows with time, never passes the deposit, and does not change
-- when the anchor and the clock move together, as they do over a pause.
use nakama_sol_x.Prelude.{
  ℕ, ℤ, ◌+ℤ◌, ◌-ℤ◌, ◌≤ℤ◌, ◌<◌, ◌≤◌, ◌*◌, ◌/◌, ◌≡◌, refl, arith, pos_part, int_laws,
}
use native.Mathlib.Nat.{mul-le-mul_right, le-div_iff_mul-le, div-mul-le_self, le_trans}
use nakama_sol_x.Program.State.{Subscription}
use nakama_sol_x.Stream.Bounds.{gap, streamed}

div_mono : (a b p : ℕ) → 0 < p → a ≤ b → a / p ≤ b / p
div_mono a b p h le = (le-div_iff_mul-le h).1 (le_trans (div-mul-le_self a p) le)

pub streamed_mono :
    (s : Subscription) (t t' : ℤ)
    → 0 < pos_part s.period
    → s.stream_start ≤ℤ t
    → t ≤ℤ t'
    → streamed s t ≤ streamed s t'
streamed_mono s t t' p h le = omega (
  arith,
  div_mono (gap t s.stream_start * s.price) (gap t' s.stream_start * s.price) (pos_part s.period) p
      (mul-le-mul_right s.price (omega arith)),
)

-- Moving the anchor by the time from `a` to `t` shifts the clock back by as much.
gap_resume : (start a t d : ℤ) → gap (t +ℤ d) (start +ℤ (t -ℤ a)) ≡ gap (a +ℤ d) start
gap_resume start a t d = omega int_laws

pub streamed_resume :
    (s : Subscription) (a t d : ℤ)
    → streamed (record s { stream_start = s.stream_start +ℤ (t -ℤ a) }) (t +ℤ d)
      ≡ streamed s (a +ℤ d)
streamed_resume s a t d = rw (gap_resume s.stream_start a t d) refl
