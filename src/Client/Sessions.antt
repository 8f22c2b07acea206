-- ===== src/Client/Sessions.antt =====
-- crates/nakama-client/src/resubscribe.rs: the pay sessions of a subscription that are open, as an
-- RPC node lists them.
pub mod Listed
pub mod Derived
use nakama_sol_x.Prelude.{
  ℕ, ◌==◌, ◌&&◌, if◌then◌else◌, none, some, Result, ok, err, ok_or, ◌>>=◌, ◌>>◌, List, [], ◌∷◌,
}
use nakama_sol_x.Program.State.{Pubkey}
use nakama_sol_x.Client.Views.{PaySessionView}
use nakama_sol_x.Client.Decode.{AccountDecodeError, account_discriminator_len, try_decode}
use nakama_sol_x.Client.Wire.{
  Crates, Rpc, Memcmp, UiAccountData, base64, other_encoding, legacy_binary, json,
  compute_account_discriminator,
}

-- The messages are left out.
pub data ResubscribeError : Type 0 where
  subscription_alive : (state : ℕ) → ResubscribeError
  too_many_pay_sessions : (n : ℕ) → ResubscribeError
  envelope_too_large : (size : ℕ) → ResubscribeError
  account_decode : AccountDecodeError → ResubscribeError
  rpc borsh ui_account_decode unsupported_legacy_binary_encoding : ResubscribeError

-- `?` on a decoding.
abbrev pub decoded : {A : Type 0} → Result AccountDecodeError A → Result ResubscribeError A
decoded (ok v) = ok v
decoded (err x) = err (account_decode x)

unfoldable pub decode_ui_account_data : Crates → UiAccountData → Result ResubscribeError (List ℕ)
decode_ui_account_data crates (base64 s) = ok_or (crates.base64_decode s) ui_account_decode
decode_ui_account_data crates (legacy_binary s) = err unsupported_legacy_binary_encoding
decode_ui_account_data crates (other_encoding s) = err ui_account_decode
decode_ui_account_data crates json = err ui_account_decode

-- The loop over the listed accounts: the first one that does not decode is the error; one of
-- another subscription or one that is not open is skipped.
unfoldable pub collect_open :
    Crates
    → Pubkey
    → List (Pubkey × UiAccountData)
    → Result ResubscribeError (List (Pubkey × PaySessionView))
unfolding decode_ui_account_data try_decode
collect_open crates subscription [] = ok []
collect_open crates subscription ((address, ui) ∷ rest) = do
  raw ← decode_ui_account_data crates ui
  view ← decoded (try_decode crates.pay_session_try_from_slice raw)
  out ← collect_open crates subscription rest
  ok (if view.subscription == subscription && view.state == 0 then (address, view) ∷ out else out)

-- Two filters: the type of the account, and its subscription right after.
abbrev pub session_filters : Crates → Pubkey → List Memcmp
session_filters crates subscription =
    record { offset = 0; raw_bytes = compute_account_discriminator crates "PaySession" }
    ∷ record { offset = account_discriminator_len; raw_bytes = crates.to_bytes subscription }
    ∷ []

unfoldable pub list_alive_pay_sessions :
    Crates → Rpc → Pubkey → Pubkey → Result ResubscribeError (List (Pubkey × PaySessionView))
unfolding collect_open
list_alive_pay_sessions crates node program_id subscription = do
  ui_accounts ←
      ok_or (node.get_program_ui_accounts program_id (session_filters crates subscription)) rpc
  collect_open crates subscription ui_accounts
