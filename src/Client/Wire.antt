-- ===== src/Client/Wire.antt =====
-- Instructions and transactions as they go over the wire: the types of the Solana crates that the
-- clients fill in, and the discriminators of crates/nakama-client/src/discriminator.rs.
use nakama_sol_x.Prelude.{ℕ, Bool, true, false, Option, String, List, [], ◌∷◌}
use nakama_sol_x.Program.State.{Pubkey}
use nakama_sol_x.Client.Views.{SubscriptionView, PlanView, PaySessionView}
use nakama_sol_x.Client.Decode.{RawAccount, take, account_discriminator_len}

-- `AccountMeta`: `new` is writable, `new_readonly` is not.
pub record AccountMeta : Type 0 where
  pub pubkey : Pubkey
  pub is_signer : Bool
  pub is_writable : Bool

abbrev pub new : Pubkey → Bool → AccountMeta
new k signs = record { pubkey = k; is_signer = signs; is_writable = true }

abbrev pub new_readonly : Pubkey → Bool → AccountMeta
new_readonly k signs = record { pubkey = k; is_signer = signs; is_writable = false }

-- `payload` is the `data` of an instruction.
pub record Instruction : Type 0 where
  pub program_id : Pubkey
  pub accounts : List AccountMeta
  pub payload : List ℕ

-- `Message::new_with_blockhash`
pub record Message : Type 0 where
  pub instructions : List Instruction
  pub payer : Pubkey
  pub blockhash : ℕ

-- `UiAccountData` with the encodings that the client tells apart.
pub data UiAccountData : Type 0 where
  base64 other_encoding legacy_binary : String → UiAccountData
  json : UiAccountData

-- A filter of `getProgramAccounts`: these bytes at this offset.
pub record Memcmp : Type 0 where
  pub offset : ℕ
  pub raw_bytes : List ℕ

-- What the clients call of other crates: SHA-256 of some strings after one another, the bytes of a
-- key, associated token addresses, Base64, Borsh, and the size of a serialized message.
pub record Crates : Type 0 where
  pub sha256 : List String → List ℕ
  pub to_bytes : Pubkey → List ℕ
  pub get_associated_token_address : Pubkey → Pubkey → Pubkey
  pub base64_decode : String → Option (List ℕ)
  pub subscription_try_from_slice : List ℕ → Option SubscriptionView
  pub plan_try_from_slice : List ℕ → Option PlanView
  pub pay_session_try_from_slice : List ℕ → Option PaySessionView
  pub message_size : Message → ℕ

-- The RPC node; `none` is an `RpcClientError`. The message is sent with the signature of its payer.
pub record Rpc : Type 0 where
  pub get_account : Pubkey → Option (Option RawAccount)
  pub get_program_ui_accounts : Pubkey → List Memcmp → Option (List (Pubkey × UiAccountData))
  pub get_latest_blockhash : Option ℕ
  pub send_and_confirm_transaction : Message → Option String

abbrev pub compute : Crates → String → List ℕ
compute crates global_name =
    take account_discriminator_len (crates.sha256 ("global:" ∷ global_name ∷ []))

abbrev pub compute_account_discriminator : Crates → String → List ℕ
compute_account_discriminator crates name =
    take account_discriminator_len (crates.sha256 ("account:" ∷ name ∷ []))

abbrev pub cleanup_discriminator : Crates → List ℕ
cleanup_discriminator crates = compute crates "cleanup"

abbrev pub subscribe_discriminator : Crates → List ℕ
subscribe_discriminator crates = compute crates "subscribe"

abbrev pub close_session_discriminator : Crates → List ℕ
close_session_discriminator crates = compute crates "close_session"

abbrev pub cancel_discriminator : Crates → List ℕ
cancel_discriminator crates = compute crates "cancel"

-- The keys that the Base58 constants spell.
abbrev pub spl_token_program_id : Pubkey
spl_token_program_id = 3106054211088883198575105191760876350940303353676611666299516346430146937001

abbrev pub system_program_id : Pubkey
system_program_id = 0

abbrev pub sysvar_rent_id : Pubkey
sysvar_rent_id = 3010411246019284437244212147455409835011261068170932596721577831542904848384
