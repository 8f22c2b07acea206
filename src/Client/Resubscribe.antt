-- ===== src/Client/Resubscribe.antt =====
-- crates/nakama-client/src/resubscribe.rs: one transaction that closes the open pay sessions of a
-- cancelled subscription, cleans up its account and subscribes again.
pub mod Requests
pub mod Sent
use nakama_sol_x.Prelude.{
  ℕ, ◌+◌, ◌==◌, ltb, not, Bool, true, false, ◌&&◌, if◌then◌else◌, Option, none, some, String,
  Result, ok, err, ok_or, ◌>>=◌, ◌>>◌, require, List, [], ◌∷◌, ◌++◌,
}
use nakama_sol_x.Program.State.{Pubkey}
use nakama_sol_x.Program.Accounts.{Pda}
use nakama_sol_x.Client.Views.{PaySessionView}
use nakama_sol_x.Client.Decode.{RawAccount, length, decode_program_owned}
use nakama_sol_x.Client.Addresses.{
  derive_subscription_pda, derive_vault_pda, derive_pay_session_pda,
}
use nakama_sol_x.Client.Wire.{
  Crates, Rpc, Instruction, Message, new, new_readonly, cleanup_discriminator,
  subscribe_discriminator, close_session_discriminator, compute_account_discriminator,
  spl_token_program_id, system_program_id, sysvar_rent_id,
}
use nakama_sol_x.Client.Sessions.{
  ResubscribeError, subscription_alive, too_many_pay_sessions, envelope_too_large, rpc, decoded,
  list_alive_pay_sessions,
}

abbrev pub tx_size_limit_bytes : ℕ
tx_size_limit_bytes = 1232

abbrev pub max_inline_pay_session_closes : ℕ
max_inline_pay_session_closes = 4

-- `subscriber` is the key of the signer.
pub record ResubscribeArgs : Type 0 where
  pub program_id : Pubkey
  pub plan : Pubkey
  pub token_mint : Pubkey
  pub periods_to_prefund : ℕ
  pub subscriber : Pubkey
  pub close_alive_pay_sessions : Bool

unfoldable pub build_cleanup_ix : Crates → Pubkey → Pubkey → Pubkey → Instruction
build_cleanup_ix crates program_id subscription subscriber = record {
  program_id = program_id;
  accounts = new subscription false ∷ new subscriber true ∷ [];
  payload = cleanup_discriminator crates;
}

-- Serializing a byte into a vector does not fail, so the error of Borsh is left out.
unfoldable pub build_subscribe_ix : Pda → Crates → ResubscribeArgs → Instruction
build_subscribe_ix pda crates args =
    let subscription = derive_subscription_pda pda args.subscriber args.plan in
    let subscriber_ata = crates.get_associated_token_address args.subscriber args.token_mint in
    record {
      program_id = args.program_id;
      accounts =
          new args.subscriber true
          ∷ new_readonly args.plan false
          ∷ new_readonly args.token_mint false
          ∷ new subscription false
          ∷ new (derive_vault_pda pda subscription) false
          ∷ new subscriber_ata false
          ∷ new_readonly spl_token_program_id false
          ∷ new_readonly system_program_id false
          ∷ new_readonly sysvar_rent_id false
          ∷ [];
      payload = subscribe_discriminator crates ++ args.periods_to_prefund ∷ [];
    }

unfoldable pub build_close_session_ix : Crates → Pubkey → Pubkey → Pubkey → Pubkey → Instruction
build_close_session_ix crates program_id parent pay_session subscriber = record {
  program_id = program_id;
  accounts = new_readonly parent false ∷ new pay_session false ∷ new subscriber true ∷ [];
  payload = close_session_discriminator crates;
}

abbrev pub is_tombstone : Option ℕ → Bool
is_tombstone none = false
is_tombstone (some s) = s == 4

-- The loop that pushes the closing instructions.
abbrev pub close_ixs : Crates → ResubscribeArgs → Pubkey → List Pubkey → List Instruction
close_ixs crates args subscription [] = []
close_ixs crates args subscription (ps ∷ rest) =
    build_close_session_ix crates args.program_id subscription ps args.subscriber
    ∷ close_ixs crates args subscription rest

-- The `match` on the observed state.
unfoldable pub compose_ixs :
    Pda
    → Crates
    → ResubscribeArgs
    → Option ℕ
    → List Pubkey
    → Result ResubscribeError (List Instruction)
compose_ixs pda crates args none sessions = ok (build_subscribe_ix pda crates args ∷ [])
compose_ixs pda crates args (some s) sessions =
    let subscription = derive_subscription_pda pda args.subscriber args.plan in
    if s == 4
    then ok (
        (if args.close_alive_pay_sessions then close_ixs crates args subscription sessions else [])
        ++ build_cleanup_ix crates args.program_id subscription args.subscriber
          ∷ build_subscribe_ix pda crates args
          ∷ [])
    else err (subscription_alive s)

unfoldable pub build_resubscribe_ixs :
    Pda
    → Crates
    → ResubscribeArgs
    → Option ℕ
    → List Pubkey
    → Result ResubscribeError (List Instruction)
unfolding compose_ixs
build_resubscribe_ixs pda crates args state sessions = do
  let n_sessions = if is_tombstone state then length sessions else 0
  require (not (args.close_alive_pay_sessions && ltb max_inline_pay_session_closes n_sessions))
      (too_many_pay_sessions n_sessions)
  compose_ixs pda crates args state sessions

-- The state byte of the subscription account, where there is one.
unfoldable pub observe_state :
    Crates → ResubscribeArgs → Option RawAccount → Result ResubscribeError (Option ℕ)
observe_state crates args none = ok none
observe_state crates args (some account) = do
  view ← decoded (
      decode_program_owned crates.subscription_try_from_slice account args.program_id
        (compute_account_discriminator crates "Subscription"))
  ok (some view.state)

abbrev pub refuse_alive : Option ℕ → Result ResubscribeError (Unit {0})
refuse_alive none = ok tt
refuse_alive (some s) = require (s == 4) (subscription_alive s)

-- A listed session counts where its address derives from its number.
abbrev pub keep_derived : Pda → Pubkey → List (Pubkey × PaySessionView) → List Pubkey
keep_derived pda subscription [] = []
keep_derived pda subscription ((address, view) ∷ rest) =
    let out = keep_derived pda subscription rest in
    if derive_pay_session_pda pda subscription view.session_id == address
    then address ∷ out
    else out

unfoldable pub alive_sessions :
    Pda → Crates → Rpc → ResubscribeArgs → Pubkey → Option ℕ → Result ResubscribeError (List Pubkey)
alive_sessions pda crates node args subscription state =
    elim (args.close_alive_pay_sessions && is_tombstone state) [
      | true ↦
          list_alive_pay_sessions crates node args.program_id subscription
          >>= (λ listed. ok (keep_derived pda subscription listed))
      | false ↦ ok []
    ]

unfoldable pub resubscribe_or_subscribe :
    Pda → Crates → Rpc → ResubscribeArgs → Result ResubscribeError String
resubscribe_or_subscribe pda crates node args = do
  let subscription = derive_subscription_pda pda args.subscriber args.plan
  found ← ok_or (node.get_account subscription) rpc
  state ← observe_state crates args found
  refuse_alive state
  sessions ← alive_sessions pda crates node args subscription state
  ixs ← build_resubscribe_ixs pda crates args state sessions
  blockhash ← ok_or node.get_latest_blockhash rpc
  let message : Message = record {
    instructions = ixs;
    payer = args.subscriber;
    blockhash = blockhash;
  }
  let predicted_size = crates.message_size message + 1 + 64
  require (not (ltb tx_size_limit_bytes predicted_size)) (envelope_too_large predicted_size)
  ok_or (node.send_and_confirm_transaction message) rpc
