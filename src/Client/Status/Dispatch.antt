-- ===== src/Client/Status/Dispatch.antt =====
-- Which status the client derives.
use nakama_sol_x.Prelude.{
  ℤ, ◌≡◌, ◌≢◌, inl, inr, ◌==◌, ltb, ◌&&◌, ◌||◌, Bool, true, false, Option, is_none, arith,
  Option-cases,
}
use nakama_sol_x.Program.State.{Pubkey, Subscription}
use nakama_sol_x.Program.Accounts.{Pda}
use nakama_sol_x.Escrow.{Escrow}
use nakama_sol_x.Escrow.Invariant.{Live}
use nakama_sol_x.Client.Views.{
  SubscriptionView, GracedSubscriptionView, PausedSubscriptionView, view_of, graced_view,
  paused_view,
}
use nakama_sol_x.Client.Status.{ComputedStatus, active_low_funds, corrupt, derive_status}

-- The statuses under which the merchant is offered an amount.
abbrev pub is_chargeable : ComputedStatus → Bool
is_chargeable (ComputedStatus.active pct claimable) = true
is_chargeable (active_low_funds pct claimable days) = true
is_chargeable _ = false

abbrev pub is_corrupt : ComputedStatus → Bool
is_corrupt (corrupt byte reason) = true
is_corrupt _ = false

-- Whatever the decoded bytes are, an amount is offered exactly for the state byte 0, and the status
-- is `Corrupt` exactly for a byte that no state has and for a grace period without its satellite.
pub derive_status-deny :
    (v : SubscriptionView) (g : Option GracedSubscriptionView) (p : Option PausedSubscriptionView)
    (now : ℤ)
    → (is_chargeable (derive_status v g p now) ≡ (v.state == 0))
      × (is_corrupt (derive_status v g p now) ≡ (ltb 4 v.state || v.state == 2 && is_none g))
unfolding derive_status
derive_status-deny v g p now = (ground arith, ground arith)

-- For an escrow that satisfies the program's invariant, read with its satellites, the status is
-- neither `Corrupt` nor `Exhausted`.
pub derive_status-Live :
    (pda : Pda) (key : Pubkey) (s : Subscription) (e : Escrow) (now : ℤ)
    → Live pda key s e
    → (is_corrupt (derive_status (view_of s) (graced_view e.graced) (paused_view e.paused) now)
        ≡ false)
      × (derive_status (view_of s) (graced_view e.graced) (paused_view e.paused) now
          ≢ ComputedStatus.exhausted)
unfolding derive_status
derive_status-Live pda key s e now live = elim (Option-cases e.graced) [
  | inl absent ↦ (ground (arith, live), ground (arith, live))
  | inr (g, present) ↦ (ground (arith, live), ground (arith, live))
]
