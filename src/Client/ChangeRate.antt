-- ===== src/Client/ChangeRate.antt =====
-- crates/nakama-client/src/change_rate.rs: one transaction that moves a subscriber from a plan to
-- another one: it closes the open pay sessions, cancels, cleans up, and subscribes to the new plan.
pub mod Requests
pub mod Observed
pub mod Left
pub mod Built
use nakama_sol_x.Prelude.{
  ℕ, ◌==◌, ltb, not, Bool, true, false, ◌&&◌, if◌then◌else◌, Option, none, some, Result, ok, err,
  ok_or, ◌>>=◌, ◌>>◌, require, List, [], ◌∷◌, ◌++◌,
}
use nakama_sol_x.Program.State.{Pubkey}
use nakama_sol_x.Program.Accounts.{Pda}
use nakama_sol_x.Client.Views.{PaySessionView, PlanView, SubscriptionView, from_byte}
use nakama_sol_x.Client.Decode.{
  RawAccount, AccountDecodeError, too_short, length, decode_program_owned,
}
use nakama_sol_x.Client.Addresses.{
  derive_subscription_pda, derive_vault_pda, derive_pay_session_pda,
}
use nakama_sol_x.Client.Wire.{
  Crates, Rpc, Instruction, Message, new, new_readonly, cleanup_discriminator,
  subscribe_discriminator, close_session_discriminator, cancel_discriminator,
  compute_account_discriminator, spl_token_program_id, system_program_id, sysvar_rent_id,
}
use nakama_sol_x.Client.Sessions.{ResubscribeError, account_decode, rpc, list_alive_pay_sessions}
use nakama_sol_x.Client.Resubscribe.{max_inline_pay_session_closes}
use nakama_sol_x.Client.Satellites.{
  ChangeRateError, cross_mint_migration_unsupported, too_many_alive_sessions, decode,
  subscriber_mismatch, select_cancel_satellites, cancel_metas,
}

pub record ChangeRateOptions : Type 0 where
  pub program_id : Pubkey
  pub subscriber : Pubkey
  pub old_plan : Pubkey
  pub new_plan : Pubkey
  pub new_deposit_periods : ℕ
  pub close_alive_pay_sessions : Bool

-- The module has its own builders.
unfoldable pub build_cancel_ix :
    Crates
    → Pubkey
    → Pubkey
    → Pubkey
    → Pubkey
    → Pubkey
    → Pubkey
    → Pubkey
    → Option Pubkey × Option Pubkey
    → Instruction
unfolding cancel_metas
build_cancel_ix crates program_id signer subscription subscriber vault merchant_ata subscriber_ata
      (graced, paused) =
    record {
      program_id = program_id;
      accounts =
          cancel_metas spl_token_program_id program_id signer subscription subscriber vault
            merchant_ata subscriber_ata graced paused;
      payload = cancel_discriminator crates;
    }

unfoldable pub build_subscribe_ix :
    Pda → Crates → Pubkey → Pubkey → Pubkey → Pubkey → ℕ → Instruction
build_subscribe_ix pda crates program_id subscriber plan token_mint periods_to_prefund =
    let subscription = derive_subscription_pda pda subscriber plan in
    record {
      program_id = program_id;
      accounts =
          new subscriber true
          ∷ new_readonly plan false
          ∷ new_readonly token_mint false
          ∷ new subscription false
          ∷ new (derive_vault_pda pda subscription) false
          ∷ new (crates.get_associated_token_address subscriber token_mint) false
          ∷ new_readonly spl_token_program_id false
          ∷ new_readonly system_program_id false
          ∷ new_readonly sysvar_rent_id false
          ∷ [];
      payload = subscribe_discriminator crates ++ periods_to_prefund ∷ [];
    }

unfoldable pub build_cleanup_ix : Crates → Pubkey → Pubkey → Pubkey → Instruction
build_cleanup_ix crates program_id subscription subscriber = record {
  program_id = program_id;
  accounts = new subscription false ∷ new subscriber true ∷ [];
  payload = cleanup_discriminator crates;
}

unfoldable pub build_close_session_ix : Crates → Pubkey → Pubkey → Pubkey → Pubkey → Instruction
build_close_session_ix crates program_id parent pay_session subscriber = record {
  program_id = program_id;
  accounts = new_readonly parent false ∷ new pay_session false ∷ new subscriber true ∷ [];
  payload = close_session_discriminator crates;
}

-- `?` on a decoding, and the bridge from the errors of the listing.
abbrev pub decoded : {A : Type 0} → Result AccountDecodeError A → Result ChangeRateError A
decoded (ok v) = ok v
decoded (err x) = err (decode x)

abbrev pub bridge : {A : Type 0} → Result ResubscribeError A → Result ChangeRateError A
bridge (ok v) = ok v
bridge (err rpc) = err ChangeRateError.rpc
bridge (err (account_decode x)) = err (decode x)
bridge (err other) = err (decode AccountDecodeError.borsh)

-- The loop over the listed sessions.
abbrev pub close_derived :
    Pda → Crates → ChangeRateOptions → Pubkey → List (Pubkey × PaySessionView) → List Instruction
close_derived pda crates opts old_sub [] = []
close_derived pda crates opts old_sub ((address, view) ∷ rest) =
    let out = close_derived pda crates opts old_sub rest in
    if derive_pay_session_pda pda old_sub view.session_id == address
    then build_close_session_ix crates opts.program_id old_sub address opts.subscriber ∷ out
    else out

unfoldable pub close_alive :
    Pda → Crates → Rpc → ChangeRateOptions → Pubkey → Result ChangeRateError (List Instruction)
close_alive pda crates node opts old_sub = elim opts.close_alive_pay_sessions [
  | false ↦ ok []
  | true ↦ bridge (list_alive_pay_sessions crates node opts.program_id old_sub) >>= (λ alive.
      require (not (ltb max_inline_pay_session_closes (length alive)))
        (too_many_alive_sessions (length alive))
      >> ok (close_derived pda crates opts old_sub alive))
]

-- `get_account_with_commitment(…).await?.value.ok_or(TooShort)?`
abbrev pub fetch_plan : Rpc → Pubkey → Result ChangeRateError RawAccount
fetch_plan node plan = do
  found ← ok_or (node.get_account plan) ChangeRateError.rpc
  ok_or found (decode too_short)

abbrev pub decode_plan : Crates → ChangeRateOptions → RawAccount → Result ChangeRateError PlanView
decode_plan crates opts account = decoded (
    decode_program_owned crates.plan_try_from_slice account opts.program_id
      (compute_account_discriminator crates "Plan"))

unfoldable pub old_subscription :
    Crates
    → ChangeRateOptions
    → Option RawAccount
    → Result ChangeRateError (Option SubscriptionView)
old_subscription crates opts none = ok none
old_subscription crates opts (some account) = do
  view ← decoded (
      decode_program_owned crates.subscription_try_from_slice account opts.program_id
        (compute_account_discriminator crates "Subscription"))
  require (opts.subscriber == view.subscriber) (subscriber_mismatch opts.subscriber view.subscriber)
  ok (some view)

-- What leaves the old subscription, where there is one.
unfoldable pub leave_ixs :
    Pda
    → Crates
    → Rpc
    → ChangeRateOptions
    → Pubkey
    → Option SubscriptionView
    → Result ChangeRateError (List Instruction)
unfolding close_alive select_cancel_satellites
leave_ixs pda crates node opts old_sub none = ok []
leave_ixs pda crates node opts old_sub (some sub) = do
  closes ← close_alive pda crates node opts old_sub
  satellites ← select_cancel_satellites (from_byte sub.state) pda old_sub
  ok (
      closes
      ++ build_cancel_ix crates opts.program_id opts.subscriber old_sub opts.subscriber
          (derive_vault_pda pda old_sub) sub.merchant_ata
          (crates.get_associated_token_address opts.subscriber sub.token_mint) satellites
        ∷ build_cleanup_ix crates opts.program_id old_sub opts.subscriber
        ∷ [])

unfoldable pub build_change_rate_tx :
    Pda → Crates → Rpc → ChangeRateOptions → ℕ → Result ChangeRateError Message
unfolding old_subscription leave_ixs
build_change_rate_tx pda crates node opts recent_blockhash = do
  old_plan_acct ← fetch_plan node opts.old_plan
  new_plan_acct ← fetch_plan node opts.new_plan
  old_plan ← decode_plan crates opts old_plan_acct
  new_plan ← decode_plan crates opts new_plan_acct
  require (old_plan.token_mint == new_plan.token_mint) cross_mint_migration_unsupported
  let old_sub = derive_subscription_pda pda opts.subscriber opts.old_plan
  found ← ok_or (node.get_account old_sub) ChangeRateError.rpc
  old_sub_view ← old_subscription crates opts found
  leaving ← leave_ixs pda crates node opts old_sub old_sub_view
  ok (record {
    instructions =
        leaving
        ++ build_subscribe_ix pda crates opts.program_id opts.subscriber opts.new_plan
            new_plan.token_mint opts.new_deposit_periods
          ∷ [];
    payer = opts.subscriber;
    blockhash = recent_blockhash;
  })
