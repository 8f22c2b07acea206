-- ===== src/Instructions/Charge/Hint.antt =====
-- The keeper's hint `next_charge_at` is in range on a sound subscription.
use nakama_sol_x.Prelude.{
  ℕ, ℤ, pos, ◌+ℤ◌, ◌≤ℤ◌, ◌<◌, ◌≤◌, ◌+◌, ◌*◌, ◌/◌, ◌≡◌, some, ok, arith, u64_bound, i64_bound,
  u128_bound, InI64, pos_part, parts_apart, checked_add_i64, +ℤ_parts,
}
use native.Mathlib.Nat.{div-mul-le_self, div-le_of_le-mul, mul_comm, le_trans, mul-le-mul_right}
use nakama_sol_x.Program.State.{Subscription}
use nakama_sol_x.Stream.Bounds.{IsSound, gap}
use nakama_sol_x.Instructions.Charge.{next_charge_after}

-- The seconds that the withdrawn amount covers have passed.
covered_le : (w elapsed price p : ℕ) → w ≤ elapsed * price / p → w * p / price ≤ elapsed
covered_le w elapsed price p h = div-le_of_le-mul price (
    le_trans (le_trans (mul-le-mul_right p h) (div-mul-le_self (elapsed * price) p))
      (omega (arith, mul_comm elapsed price)))

reached_in_range :
    (start now : ℤ) (k : ℕ)
    → InI64 start
    → InI64 now
    → start ≤ℤ now
    → k ≤ gap now start
    → InI64 (start +ℤ pos k) × (start +ℤ pos k ≤ℤ now)
reached_in_range start now k hs hn le hk =
    let sum = +ℤ_parts start (pos k) in
    let apart = parts_apart (start +ℤ pos k) in
    ((omega (arith, sum, apart), omega (arith, sum, apart)), omega (arith, sum))

pub next_in_range :
    (reached now period : ℤ)
    → InI64 reached
    → reached ≤ℤ now
    → 0 < pos_part period
    → pos_part now + pos_part period < i64_bound
    → InI64 (reached +ℤ period)
next_in_range reached now period hr le hp fits =
    let sum = +ℤ_parts reached period in
    let apart = parts_apart (reached +ℤ period) in
    let apart' = parts_apart period in
    (omega (arith, sum, apart, apart'), omega (arith, sum, apart, apart'))

pub checked_add_i64_total : (a b : ℤ) → InI64 (a +ℤ b) → checked_add_i64 a b ≡ some (a +ℤ b)
unfolding checked_add_i64
checked_add_i64_total a b h = ground arith

mul-lt-u128 : (a b : ℕ) → a < u64_bound → b < u64_bound → a * b < u128_bound
mul-lt-u128 a b h k = grind arith

-- The keeper's hint is in range.
pub next_charge_after_total :
    (s : Subscription) (now : ℤ) (w : ℕ)
    → IsSound s
    → InI64 now
    → s.stream_start ≤ℤ now
    → gap now s.stream_start < i64_bound
    → w < u64_bound
    → w ≤ gap now s.stream_start * s.price / pos_part s.period
    → pos_part now + pos_part s.period < i64_bound
    → next_charge_after s w
      ≡ ok (s.stream_start +ℤ pos (w * pos_part s.period / s.price) +ℤ s.period)
unfolding next_charge_after
next_charge_after_total s now w sound clock le near range earned fits =
    let covered = covered_le w (gap now s.stream_start) s.price (pos_part s.period) earned in
    let (start_ok, before) =
      reached_in_range s.stream_start now (w * pos_part s.period / s.price) sound.start_range clock
        le covered in
    let next_ok =
      next_in_range (s.stream_start +ℤ pos (w * pos_part s.period / s.price)) now s.period start_ok
        before sound.period_pos fits in
    ground (
      arith,
      covered,
      mul-lt-u128 w (pos_part s.period) range (omega arith),
      checked_add_i64_total s.stream_start (pos (w * pos_part s.period / s.price)) start_ok,
      checked_add_i64_total (s.stream_start +ℤ pos (w * pos_part s.period / s.price)) s.period
          next_ok,
    )
