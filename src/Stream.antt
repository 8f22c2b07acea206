-- ===== src/Stream.antt =====
-- The streaming math that charge.rs, cancel.rs, pause.rs and settle_usage.rs of
-- nakama/programs/nakama/src/instructions share: the seconds since the stream's anchor, and the
-- amount unlocked by then. The handlers repeat the same text; the two error codes they use for an
-- overflow are the parameter `overflow`.
pub mod Bounds
pub mod Growth
use nakama_sol_x.Prelude.{
  ℕ, ◌>>=◌, ◌>>◌, ok, err, ok_or, ℤ, checked_sub_i64, i64_as_u64, i64_as_u128, checked_mul_u128,
  checked_div, u128_as_u64, min,
}
use nakama_sol_x.Program.Errors.{Error, NakamaError, custom, panic, Checked}

-- `(now - stream_start) as u64`: the subtraction panics if it overflows (`overflow-checks`).
pub elapsed_since : ℤ → ℤ → Checked ℕ
unfolding checked_sub_i64
elapsed_since now stream_start = do
  difference ← ok_or (checked_sub_i64 now stream_start) panic
  ok (i64_as_u64 difference)

-- `min(elapsed * price / period, deposited)` with a `u128` intermediate.
pub unlocked_after : NakamaError → ℕ → ℤ → ℕ → ℕ → Checked ℕ
unfolding checked_mul_u128 checked_div
unlocked_after overflow price period deposited elapsed = do
  product ← ok_or (checked_mul_u128 elapsed price) (custom overflow)
  unlocked ← ok_or (checked_div product (i64_as_u128 period)) (custom overflow)
  ok (u128_as_u64 (min unlocked deposited))

unfoldable pub unlocked_at : NakamaError → ℕ → ℤ → ℕ → ℤ → ℤ → Checked ℕ
unfolding elapsed_since unlocked_after
unlocked_at overflow price period deposited stream_start now = do
  elapsed ← elapsed_since now stream_start
  unlocked_after overflow price period deposited elapsed
