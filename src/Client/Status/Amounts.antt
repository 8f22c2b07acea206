-- ===== src/Client/Status/Amounts.antt =====
-- The numbers of the derived status: no saturation and no cap changes them on a sound subscription.
use nakama_sol_x.Prelude.{
  ℕ, pos_part, ◌<◌, ◌-◌, ◌*◌, ◌/◌, ◌≡◌, min, ltb, ◌||◌, Bool, some, arith, checked_div,
}
use nakama_sol_x.Program.State.{Subscription}

-- The withdrawn share of the deposit, in whole percent.
abbrev pub percent_drawn : Subscription → ℕ
percent_drawn s = s.withdrawn_amount * 100 / s.deposited_amount

-- The whole days for which the plan's rate pays out what is not withdrawn, as far as a `u32` counts.
abbrev pub days_left : Subscription → ℕ
days_left s =
    min ((s.deposited_amount - s.withdrawn_amount) * pos_part s.period / (s.price * 86400))
      4294967295

-- More than four fifths are withdrawn, or less than a week is left.
abbrev pub runs_low : Subscription → Bool
runs_low s = ltb (s.deposited_amount * 80) (s.withdrawn_amount * 100) || ltb (days_left s) 7

checked_div-eq : (a b : ℕ) → 0 < b → checked_div a b ≡ some (a / b)
unfolding checked_div
checked_div-eq a b h = ground (arith, h)
