-- ===== src/Prelude/Words.antt =====
-- Rust's checked arithmetic on `u64`, `u128` and `i64`, and its `as` casts. A word is a number;
-- that it is in range is a fact about it, not part of it.
use Prim.Native.Nat.{ℕ, ◌+◌, ◌-◌, ◌*◌, ◌/◌, ◌%◌, ◌^◌, ◌≤◌, ◌<◌}
use mathlib.Core.Bool.{Bool, ◌&&◌}
use mathlib.Core.Option.{Option, none, some}
use nakama_sol_x.Prelude.Tests.{ltb, leb, ◌==◌, if◌then◌else◌}
use nakama_sol_x.Prelude.Int.{ℤ, pos, negsuc, pos_part, neg_part, ◌+ℤ◌, ◌-ℤ◌}

abbrev pub u64_bound : ℕ
u64_bound = 2 ^ 64

abbrev pub u128_bound : ℕ
u128_bound = 2 ^ 128

abbrev pub i64_bound : ℕ
i64_bound = 2 ^ 63

-- The integers that an `i64` holds.
abbrev pub InI64 : ℤ → Type 0
InI64 z = (pos_part z < i64_bound) × (neg_part z ≤ i64_bound)

abbrev pub is_i64 : ℤ → Bool
is_i64 z = ltb (pos_part z) i64_bound && leb (neg_part z) i64_bound

unfoldable pub checked_add_u64 : ℕ → ℕ → Option ℕ
checked_add_u64 a b = if ltb (a + b) u64_bound then some (a + b) else none

unfoldable pub checked_mul_u64 : ℕ → ℕ → Option ℕ
checked_mul_u64 a b = if ltb (a * b) u64_bound then some (a * b) else none

unfoldable pub checked_mul_u128 : ℕ → ℕ → Option ℕ
checked_mul_u128 a b = if ltb (a * b) u128_bound then some (a * b) else none

-- `checked_sub` and `checked_div` do the same at every unsigned width.
unfoldable pub checked_sub : ℕ → ℕ → Option ℕ
checked_sub a b = if leb b a then some (a - b) else none

unfoldable pub checked_div : ℕ → ℕ → Option ℕ
checked_div a b = if b == 0 then none else some (a / b)

unfoldable pub checked_add_i64 : ℤ → ℤ → Option ℤ
checked_add_i64 a b = if is_i64 (a +ℤ b) then some (a +ℤ b) else none

unfoldable pub checked_sub_i64 : ℤ → ℤ → Option ℤ
checked_sub_i64 a b = if is_i64 (a -ℤ b) then some (a -ℤ b) else none

-- `i64 as u64` and `i64 as u128` extend the sign and read the bits as unsigned.
abbrev pub i64_as_u64 : ℤ → ℕ
i64_as_u64 (pos n) = n
i64_as_u64 (negsuc n) = u64_bound - 1 - n

abbrev pub i64_as_u128 : ℤ → ℕ
i64_as_u128 (pos n) = n
i64_as_u128 (negsuc n) = u128_bound - 1 - n

-- `u128 as u64` keeps the low bits.
abbrev pub u128_as_u64 : ℕ → ℕ
u128_as_u64 n = n % u64_bound

-- `i64::try_from(u128)`.
unfoldable pub i64_try_from : ℕ → Option ℤ
i64_try_from n = if ltb n i64_bound then some (pos n) else none
