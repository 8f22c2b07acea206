-- ===== src/Client/ChangeRate/Observed.antt =====
-- The accounts that the client reads to change the rate.

use nakama_sol_x.Prelude.{
  ℕ, ◌≡◌, Result-cases, String, inl, inr, Option, none, some, ok, arith, List,
}
use nakama_sol_x.Program.State.{Pubkey}
use nakama_sol_x.Client.Views.{PlanView, SubscriptionView}
use nakama_sol_x.Client.Decode.{
  RawAccount, Encodes, decode_program_owned, decode_program_owned-Encodes,
}
use nakama_sol_x.Client.Wire.{compute_account_discriminator, Crates, Rpc}
use nakama_sol_x.Client.ChangeRate.{ChangeRateOptions, fetch_plan, decode_plan, old_subscription}

abbrev tag_of : Crates → String → List ℕ
tag_of crates name = compute_account_discriminator crates name

module _ (crates : Crates) (node : Rpc) (opts : ChangeRateOptions) where
  -- The plan account that the node has at a key.
  pub record HasPlan (plan : Pubkey) (view : PlanView) : Type 0 where
    pub account : RawAccount
    pub fetched : node.get_account plan ≡ some (some account)
    pub encoded :
        Encodes crates.plan_try_from_slice opts.program_id (tag_of crates "Plan") account view

  pub plan-HasPlan :
      (plan : Pubkey) (account : RawAccount) (view : PlanView)
      → fetch_plan node plan ≡ ok account
      → decode_plan crates opts account ≡ ok view
      → HasPlan plan view
  plan-HasPlan plan account view fetched read =
      let got : node.get_account plan ≡ some (some account) = ground (arith, fetched) in
      let whole : decode_program_owned crates.plan_try_from_slice account opts.program_id
            (tag_of crates "Plan")
          ≡ ok view =
        ground (arith, read) in
      record {
        account = account;
        fetched = got;
        encoded =
            decode_program_owned-Encodes crates.plan_try_from_slice opts.program_id
              (tag_of crates "Plan") account view whole;
      }

module _ (crates : Crates) (opts : ChangeRateOptions) where
  -- The old subscription as the rest sees it: there is none, or it is the program's own
  -- `Subscription` account and names the caller as its subscriber.
  abbrev pub IsOld : Option RawAccount → Option SubscriptionView → Type 0
  IsOld none view = view ≡ none
  IsOld (some account) view =
      (v : SubscriptionView) × Encodes crates.subscription_try_from_slice opts.program_id
        (tag_of crates "Subscription") account v
      × (v.subscriber ≡ opts.subscriber)
      × (view ≡ some v)

  pub old_subscription-IsOld :
      (found : Option RawAccount) (view : Option SubscriptionView)
      → old_subscription crates opts found ≡ ok view
      → IsOld found view
  unfolding old_subscription
  old_subscription-IsOld none view h = ground (arith, h)
  old_subscription-IsOld (some account) view h =
      elim (Result-cases (
        decode_program_owned crates.subscription_try_from_slice account opts.program_id
          (tag_of crates "Subscription"))) [
            | inr (x, failed) ↦ absurd (ground arith)
            | inl (v, read) ↦ (
              v,
              decode_program_owned-Encodes crates.subscription_try_from_slice opts.program_id
                  (tag_of crates "Subscription") account v read,
              ground arith,
              ground arith,
            )
          ]
