-- ===== src/Tests/Clients.antt =====
-- The client's derivations at concrete inputs.
use nakama_sol_x.Prelude.{
  ◌≤ℤ◌, ℕ, ℤ, pos, ◌-ℤ◌, ◌<◌, ◌≡◌, ◌≢◌, ◌⊎◌, ◌==◌, ltb, ◌&&◌, ◌||◌, refl, Option, none, some,
  is_none, false, ok, err, arith,
}
use nakama_sol_x.Program.Errors.{NakamaError, custom}
use nakama_sol_x.Program.State.{Pubkey, Subscription, SubscriptionState}
use nakama_sol_x.Instructions.Charge.{charge_handler}
use nakama_sol_x.Instructions.Cancel.{effective_now}
use nakama_sol_x.Escrow.{Escrow}
use nakama_sol_x.Escrow.Invariant.{Live}
use nakama_sol_x.Client.Views.{view_of, graced_view, paused_view, from_byte}
use nakama_sol_x.Client.Status.{
  ComputedStatus, in_grace, grace_expired, derive_status, claimable_of, is_low, saturating_sub_i64,
}
use nakama_sol_x.Client.Status.Agreement.{
  status_claimable, charge-claimable, charge-unclaimable, derive_status-grace,
}
use nakama_sol_x.Client.Status.Dispatch.{
  is_chargeable, is_corrupt, derive_status-deny, derive_status-Live,
}
use nakama_sol_x.Client.Satellites.{
  select_cancel_satellites, attached, select_cancel_satellites-Live,
}
use nakama_sol_x.Tests.Token.{token_program, addresses}
use nakama_sol_x.Tests.Instructions.{charge_half, charged_half, charged_half_ok}
use nakama_sol_x.Client.Addresses.{derive_paused_sub_pda}
use nakama_sol_x.Tests.Fixtures.{
  grace_key, running, running-IsSound, funded, sub_key, grace_account,
}

charge-claimable_example :
    (n : ℕ) × (status_claimable (derive_status (view_of (running 0)) none none (pos 1060)) ≡ some n)
    × (0 < n)
    × (token_program.transfer charge_half.vault charge_half.merchant_ata n charge_half.tokens
        ≡ some charged_half.0.tokens)
charge-claimable_example =
    charge-claimable token_program charge_half charged_half.0 (pos 1060) charged_half.1 none none
      running-IsSound charged_half_ok

nothing_yet : status_claimable (derive_status (view_of (running 0)) none none (pos 1000)) ≡ some 0
unfolding derive_status is_low claimable_of ◌-ℤ◌
nothing_yet = refl

charge-unclaimable_example :
    charge_handler token_program charge_half (pos 1000)
    ≡ err (custom NakamaError.insufficient_unlocked_funds)
charge-unclaimable_example =
    charge-unclaimable token_program charge_half (pos 1000) none none running-IsSound refl
      (omega arith) (omega arith) (omega arith) nothing_yet

abbrev pub grace_sub : Subscription
grace_sub = record (running 6000000) { state = SubscriptionState.grace_period }

derive_status-grace_example :
    (pos 2000 ≤ℤ pos 605920)
      × (effective_now SubscriptionState.grace_period (some grace_account) none (pos 2000)
          ≡ ok (pos 2000))
      × (derive_status (view_of grace_sub) (graced_view (some grace_account.info)) none (pos 2000)
          ≡ in_grace (pos 605920) (saturating_sub_i64 (pos 605920) (pos 2000)))
    ⊎ (¬ (pos 2000 ≤ℤ pos 605920))
      × (effective_now SubscriptionState.grace_period (some grace_account) none (pos 2000)
          ≡ ok (pos 605920))
      × (derive_status (view_of grace_sub) (graced_view (some grace_account.info)) none (pos 2000)
          ≡ grace_expired (pos 605920))
derive_status-grace_example = derive_status-grace grace_sub grace_account none (pos 2000) refl

derive_status-deny_example :
    (is_chargeable (derive_status (view_of grace_sub) none none (pos 5)) ≡ (2 == 0))
    × (is_corrupt (derive_status (view_of grace_sub) none none (pos 5))
        ≡ (ltb 4 2 || 2 == 2 && is_none (graced_view none)))
derive_status-deny_example = derive_status-deny (view_of grace_sub) none none (pos 5)

abbrev pub escrow : Escrow
escrow = record {
  subscription = some grace_sub;
  graced = some grace_account.info;
  paused = none;
  sessions = λ id. none;
  tokens = funded 0;
}

pub escrow-Live : Live addresses sub_key grace_sub escrow
escrow-Live = ground arith

derive_status-Live_example :
    (is_corrupt (
        derive_status
          (view_of grace_sub)
          (graced_view (some grace_account.info))
          (paused_view none)
          (pos 2000))
      ≡ false)
    × (derive_status
          (view_of grace_sub)
          (graced_view (some grace_account.info))
          (paused_view none)
          (pos 2000)
        ≢ ComputedStatus.exhausted)
derive_status-Live_example =
    derive_status-Live addresses sub_key grace_sub escrow (pos 2000) escrow-Live

select_cancel_satellites-Live_example :
    (g : Option Pubkey) × (p : Option Pubkey) × (select_cancel_satellites
        (from_byte 2)
        addresses
        sub_key
      ≡ ok (g, p))
    × (g ≡ some grace_key)
    × (p ≡ none)
    × (t : ℤ) × (effective_now SubscriptionState.grace_period
          (attached grace_key g escrow.graced)
          (attached (derive_paused_sub_pda addresses sub_key) p escrow.paused)
          (pos 2000)
        ≡ ok t)
select_cancel_satellites-Live_example =
    select_cancel_satellites-Live addresses sub_key grace_sub escrow (pos 2000) escrow-Live refl
