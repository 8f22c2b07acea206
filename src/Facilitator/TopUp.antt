-- ===== src/Facilitator/TopUp.antt =====
-- handlers/top_up.rs of the facilitator: it checks a request, builds a top-up for the subscription
-- that it reads from the chain, signs it and sends it.
pub mod Guards
use nakama_sol_x.Prelude.{
  ℕ, ltb, not, ◌==◌, Bool, true, false, Option, String, Result, ok, err, ok_or, ◌>>=◌, ◌>>◌,
  require, List, [], ◌∷◌, if◌then◌else◌,
}
use nakama_sol_x.Program.State.{Pubkey}
use nakama_sol_x.Program.Accounts.{Pda, vault_seeds}
use nakama_sol_x.Client.Views.{SubscriptionView, SubscriptionStateByte, from_byte}
use nakama_sol_x.Client.Decode.{RawAccount, AccountDecodeError, decode_program_owned}
use nakama_sol_x.Client.Addresses.{derive_grace_pda, derive_vault_pda}
use nakama_sol_x.Client.Wire.{AccountMeta, new, new_readonly}

-- error.rs, without the messages.
pub data ApiError : Type 0 where
  bad_request not_found unauthorized signing_unavailable rpc internal : ApiError
  decode : AccountDecodeError → ApiError

-- `Config` and `AppState`: the fields that the handler reads.
pub record AppState : Type 0 where
  pub program_id : Pubkey
  pub max_top_up_amount : ℕ
  pub demo_subscriber : Option Pubkey

-- The top-up instruction: its accounts, and the amount in its data.
pub record TopUpInstruction : Type 0 where
  pub accounts : List AccountMeta
  pub amount : ℕ

-- What the handler calls: the parser of keys, the associated token addresses, Borsh with the
-- discriminator of `Subscription`, and the RPC node.
pub record Outside : Type 0 where
  pub parse_pubkey : String → Option Pubkey
  pub associated_token_address : Pubkey → Pubkey → Pubkey
  pub subscription_discriminator : List ℕ
  pub try_from_slice : List ℕ → Option SubscriptionView
  pub token_program : Pubkey
  pub get_account : Pubkey → Result ApiError (Option RawAccount)
  pub get_latest_blockhash : Result ApiError ℕ
  pub send_and_confirm_transaction : TopUpInstruction → ℕ → Pubkey → Result ApiError String

abbrev pub is_grace_byte : SubscriptionStateByte → Bool
is_grace_byte SubscriptionStateByte.grace_period = true
is_grace_byte _ = false

-- The satellite stands in its slot exactly in the grace period; otherwise the program's own address
-- spells an absent account.
unfoldable pub build_top_up_metas :
    Pubkey
    → Pubkey
    → Pubkey
    → Pubkey
    → Pubkey
    → Pubkey
    → Pubkey
    → SubscriptionStateByte
    → List AccountMeta
build_top_up_metas subscriber subscription program_id grace_pda vault_pda subscriber_ata
      token_program byte =
    new subscriber true
    ∷ new subscription false
    ∷ (if is_grace_byte byte then new grace_pda false else new_readonly program_id false)
    ∷ new vault_pda false
    ∷ new subscriber_ata false
    ∷ new_readonly token_program false
    ∷ []

-- `?` on a decoding.
abbrev pub decoded : {A : Type 0} → Result AccountDecodeError A → Result ApiError A
decoded (ok v) = ok v
decoded (err x) = err (ApiError.decode x)

-- The subscription as the handler reads it.
unfoldable pub read_subscription : Outside → AppState → Pubkey → Result ApiError SubscriptionView
read_subscription outside state sub_pda = do
  found ← outside.get_account sub_pda
  account ← ok_or found not_found
  decoded (
      decode_program_owned outside.try_from_slice account state.program_id
        outside.subscription_discriminator)

unfoldable pub handle : Pda → Outside → AppState → String → ℕ → Result ApiError String
handle pda outside state path amount = do
  sub_pda ← ok_or (outside.parse_pubkey path) bad_request
  require (not (amount == 0)) bad_request
  require (not (ltb state.max_top_up_amount amount)) bad_request
  signer ← ok_or state.demo_subscriber signing_unavailable
  subscription ← read_subscription outside state sub_pda
  require (signer == subscription.subscriber) bad_request
  let accounts =
      build_top_up_metas signer sub_pda state.program_id (derive_grace_pda pda sub_pda)
        (derive_vault_pda pda sub_pda)
        (outside.associated_token_address signer subscription.token_mint) outside.token_program
        (from_byte subscription.state)
  blockhash ← outside.get_latest_blockhash
  outside.send_and_confirm_transaction (record { accounts = accounts; amount = amount }) blockhash
      signer
