-- ===== src/Client/ChangeRate/Built.antt =====
-- What the client builds to change the rate.
use mathlib.Core.List.{Memᴰ}
use nakama_sol_x.Prelude.{
  ℕ, ◌≤◌, ◌≡◌, refl, sym, ap, ◌==◌, Bool, Option, some, Result, ok, ok_or, require, >>=-eq-ok,
  >>-eq-ok, ok_or-eq-ok, arith, List, [], ◌∷◌, ◌++◌,
}
use nakama_sol_x.Program.State.{Pubkey}
use nakama_sol_x.Program.Accounts.{Pda}
use nakama_sol_x.Escrow.Wire.{instruction_of, instructions_of}
use nakama_sol_x.Escrow.Transactions.{leaving}
use nakama_sol_x.Client.Views.{PlanView, SubscriptionView}
use nakama_sol_x.Client.Decode.{length, RawAccount}
use nakama_sol_x.Client.Wire.{Crates, Rpc, Instruction, Message}
use nakama_sol_x.Client.Sessions.Derived.{IsListed}
use nakama_sol_x.Client.Satellites.{ChangeRateError, cross_mint_migration_unsupported}
use nakama_sol_x.Client.ChangeRate.{
  ChangeRateOptions, leave_ixs, build_subscribe_ix, fetch_plan, decode_plan, old_subscription,
  build_change_rate_tx,
}
use nakama_sol_x.Client.ChangeRate.Requests.{spelled_new, final}
use nakama_sol_x.Client.ChangeRate.Left.{before, left_requests, Asks, AreChosen, leave_ixs_lem}
use nakama_sol_x.Client.ChangeRate.Observed.{HasPlan, plan-HasPlan, IsOld, old_subscription-IsOld}

same_mint : (a b : Pubkey) → require (a == b) cross_mint_migration_unsupported ≡ ok tt → a ≡ b
same_mint a b h = ground (arith, h)

ok-injective : (a b : Message) → ◌≡◌ {A = Result ChangeRateError Message} (ok a) (ok b) → a ≡ b
ok-injective a b h = cc

module _ (pda : Pda) (crates : Crates) (node : Rpc) (opts : ChangeRateOptions) where
  -- What was built: the two plans are of one mint; the old subscription, where there is one, is
  -- the subscriber's; the instructions leave it and then subscribe to the new plan.
  pub record IsMigration (message : Message) : Type 0 where
    pub old_plan : PlanView
    pub new_plan : PlanView
    pub found : Option RawAccount
    pub view : Option SubscriptionView
    pub ids : List ℕ
    pub graced : Bool
    pub paused : Bool
    pub leaves : List Instruction
    pub joins : List Instruction
    pub leaves_plan : HasPlan crates node opts opts.old_plan old_plan
    pub joins_plan : HasPlan crates node opts opts.new_plan new_plan
    pub one_mint : old_plan.token_mint ≡ new_plan.token_mint
    pub fetched : node.get_account (before pda crates node opts) ≡ some found
    pub observed : IsOld crates opts found view
    pub few : length ids ≤ 4
    pub listed :
        (id : ℕ)
        → Memᴰ id ids
        → IsListed pda crates node opts.program_id (before pda crates node opts) id
    pub chosen : AreChosen pda crates node opts view graced paused
    pub left :
        Asks pda crates node opts (left_requests pda crates node opts view ids graced paused) leaves
    pub joined : spelled_new pda crates node opts (final pda crates node opts new_plan) ≡ some joins
    pub composed : message.instructions ≡ leaves ++ joins
    pub payer : message.payer ≡ opts.subscriber

  -- Where the client builds a transaction, the node has both plans, as `Plan` accounts of the
  -- program, and they are of one mint; at the address of the old subscription it has no account, or
  -- a `Subscription` account of the program whose subscriber is the caller. The instructions that
  -- leave the old subscription, where there is one, ask in the program's own account order to close
  -- at most four sessions, each an open one of this subscription in the node's list at its derived
  -- address, to cancel with the satellite that the state byte calls for, and to clean up; they are
  -- those that the program declares but for the write access to the account of the payer, which that
  -- account has in every instruction of the transaction. Then comes the instruction that the program
  -- declares to subscribe to the new plan.
  pub build_change_rate_tx-IsMigration :
      (hash : ℕ) (message : Message)
      → build_change_rate_tx pda crates node opts hash ≡ ok message
      → IsMigration message
  unfolding build_change_rate_tx instructions_of instruction_of build_subscribe_ix
  build_change_rate_tx-IsMigration hash message h =
      let (old_account, old_fetched, h1) = >>=-eq-ok (fetch_plan node opts.old_plan) _ h in
      let (new_account, new_fetched, h2) = >>=-eq-ok (fetch_plan node opts.new_plan) _ h1 in
      let (old_plan, old_decoded, h3) = >>=-eq-ok (decode_plan crates opts old_account) _ h2 in
      let (new_plan, new_decoded, h4) = >>=-eq-ok (decode_plan crates opts new_account) _ h3 in
      let (one_mint, h5) =
        >>-eq-ok
          (require (old_plan.token_mint == new_plan.token_mint) cross_mint_migration_unsupported) _
          h4 in
      let (found, fetched, h6) =
        >>=-eq-ok (ok_or (node.get_account (before pda crates node opts)) _) _ h5 in
      let (view, observed, h7) = >>=-eq-ok (old_subscription crates opts found) _ h6 in
      let (leaves, leaving, h8) =
        >>=-eq-ok (leave_ixs pda crates node opts (before pda crates node opts) view) _ h7 in
      let (ids, graced, paused, few, listed, chosen, left) =
        leave_ixs_lem pda crates node opts view leaves leaving in
      record {
        old_plan = old_plan;
        new_plan = new_plan;
        found = found;
        view = view;
        ids = ids;
        graced = graced;
        paused = paused;
        leaves = leaves;
        joins =
            build_subscribe_ix pda crates opts.program_id opts.subscriber opts.new_plan
              new_plan.token_mint opts.new_deposit_periods
            ∷ [];
        leaves_plan =
            plan-HasPlan crates node opts opts.old_plan old_account old_plan old_fetched
              old_decoded;
        joins_plan =
            plan-HasPlan crates node opts opts.new_plan new_account new_plan new_fetched
              new_decoded;
        one_mint = same_mint _ _ one_mint;
        fetched = ok_or-eq-ok _ _ fetched;
        observed = old_subscription-IsOld crates opts found view observed;
        few = few;
        listed = listed;
        chosen = chosen;
        left = left;
        joined = refl;
        composed = ap (λ m. m.instructions) (sym (ok-injective _ _ h8));
        payer = ap (λ m. m.payer) (sym (ok-injective _ _ h8));
      }
