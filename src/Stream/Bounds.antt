-- ===== src/Stream/Bounds.antt =====
-- What the streaming math returns on the values that a subscription holds: the exact amount
-- `min(elapsed * price / period, deposited)`, with no overflow.
use nakama_sol_x.Prelude.{
  ℕ, ℤ, pos, negsuc, ◌-ℤ◌, ◌≤ℤ◌, ◌<◌, ◌≤◌, ◌*◌, ◌/◌, ◌+◌, ◌-◌, ◌≡◌, min, ok, arith, u64_bound,
  u128_bound, i64_bound, InI64, pos_part, neg_part, >>=-eq-ok,
}
use nakama_sol_x.Program.Errors.{NakamaError}
use nakama_sol_x.Program.State.{Subscription}
use nakama_sol_x.Stream.{elapsed_since, unlocked_after, unlocked_at}

-- a - b for a ≥ b, as a number.
abbrev pub gap : ℤ → ℤ → ℕ
gap a b = (pos_part a + neg_part b) - (pos_part b + neg_part a)

-- What the stream of `s` has earned by `t`, in whole base units.
abbrev pub streamed : Subscription → ℤ → ℕ
streamed s t = min (gap t s.stream_start * s.price / pos_part s.period) s.deposited_amount

-- The values of a subscription that the program has written: machine words, a positive price and
-- period, and no more withdrawn than deposited.
pub record IsSound (s : Subscription) : Type 0 where
  pub price_pos : 0 < s.price
  pub price_range : s.price < u64_bound
  pub period_pos : 0 < pos_part s.period
  pub period_range : pos_part s.period < i64_bound
  pub start_range : InI64 s.stream_start
  pub deposited_range : s.deposited_amount < u64_bound
  pub solvent : s.withdrawn_amount ≤ s.deposited_amount

pub mul-lt-u128 : (a b : ℕ) → a < u64_bound → b < u64_bound → a * b < u128_bound
mul-lt-u128 a b h k = grind arith

elapsed_since_lem :
    (now start : ℤ) {e : ℕ}
    → start ≤ℤ now
    → elapsed_since now start ≡ ok e
    → (e ≡ gap now start) × (e < i64_bound)
unfolding elapsed_since ◌-ℤ◌
elapsed_since_lem now start le h = (ground arith, ground arith)

elapsed_since_total :
    (now start : ℤ)
    → start ≤ℤ now
    → gap now start < i64_bound
    → elapsed_since now start ≡ ok (gap now start)
unfolding elapsed_since ◌-ℤ◌
elapsed_since_total now start le h = ground arith

pub unlocked_after_lem :
    (x : NakamaError) (price : ℕ) (period : ℤ) (deposited elapsed : ℕ)
    → price < u64_bound
    → elapsed < u64_bound
    → 0 < pos_part period
    → deposited < u64_bound
    → unlocked_after x price period deposited elapsed
      ≡ ok (min (elapsed * price / pos_part period) deposited)
unfolding unlocked_after
unlocked_after_lem x price (pos p) deposited elapsed hp he h hd =
    ground (arith, mul-lt-u128 elapsed price he hp)
unlocked_after_lem x price (negsuc p) deposited elapsed hp he h hd = absurd (omega arith)

module _ (x : NakamaError) (s : Subscription) (now : ℤ) where
  -- On a sound subscription and from its anchor on, the amount that the code's checked arithmetic
  -- returns is exactly `min(elapsed * price / period, deposited)`, computed without bounds.
  pub unlocked_at-eq-streamed :
      (u : ℕ)
      → IsSound s
      → s.stream_start ≤ℤ now
      → unlocked_at x s.price s.period s.deposited_amount s.stream_start now ≡ ok u
      → u ≡ streamed s now
  unfolding unlocked_at
  unlocked_at-eq-streamed u sound le h =
      let (e, took, rest) =
        >>=-eq-ok (elapsed_since now s.stream_start)
          (unlocked_after x s.price s.period s.deposited_amount) h in
      let (exact, small) = elapsed_since_lem now s.stream_start le took in
      let value =
        unlocked_after_lem x s.price s.period s.deposited_amount e sound.price_range
          (omega (arith, small)) sound.period_pos sound.deposited_range in
      rw (← exact) (cc (rest, value))

  -- It returns one whenever the distance in time fits an `i64`.
  pub unlocked_at_total :
      IsSound s
      → s.stream_start ≤ℤ now
      → gap now s.stream_start < i64_bound
      → unlocked_at x s.price s.period s.deposited_amount s.stream_start now ≡ ok (streamed s now)
  unfolding unlocked_at
  unlocked_at_total sound le fits = rw (elapsed_since_total now s.stream_start le fits) (
      unlocked_after_lem x s.price s.period s.deposited_amount (gap now s.stream_start)
        sound.price_range (omega arith) sound.period_pos sound.deposited_range)

  pub unlocked_at-near :
      (u : ℕ)
      → s.stream_start ≤ℤ now
      → unlocked_at x s.price s.period s.deposited_amount s.stream_start now ≡ ok u
      → gap now s.stream_start < i64_bound
  unfolding unlocked_at
  unlocked_at-near u le h =
      let (e, took, rest) =
        >>=-eq-ok (elapsed_since now s.stream_start)
          (unlocked_after x s.price s.period s.deposited_amount) h in
      let (exact, small) = elapsed_since_lem now s.stream_start le took in
      omega (arith, exact, small)
