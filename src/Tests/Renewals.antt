-- ===== src/Tests/Renewals.antt =====
-- The composite transactions at concrete inputs: a tombstone with one open pay session.
use nakama_sol_x.Prelude.{pos, ◌≡◌, refl, true, some, ok, err, List, [], ◌∷◌, ◌++◌, arith}
use nakama_sol_x.Program.State.{Pubkey, Subscription, SubscriptionState}
use nakama_sol_x.Program.Accounts.{pay_session_seeds}
use nakama_sol_x.Client.Views.{PaySessionView, PlanView, view_of}
use nakama_sol_x.Client.Decode.{length, decode_program_owned, try_decode, strip_discriminator}
use nakama_sol_x.Client.Wire.{Crates, Rpc, Instruction, Message, UiAccountData, base64}
use nakama_sol_x.Client.Sessions.{decode_ui_account_data, collect_open, list_alive_pay_sessions}
use nakama_sol_x.Client.Resubscribe.{
  ResubscribeArgs, build_resubscribe_ixs, compose_ixs, observe_state, alive_sessions,
  resubscribe_or_subscribe,
}
use nakama_sol_x.Client.Resubscribe.Requests.{
  requests_for, spelled, addresses_of, build_resubscribe_ixs-spelled,
}
use nakama_sol_x.Client.Resubscribe.Sent.{Sent, resubscribe_or_subscribe-Sent}
use nakama_sol_x.Client.ChangeRate.{ChangeRateOptions, build_change_rate_tx}
use nakama_sol_x.Client.ChangeRate.Built.{IsMigration, build_change_rate_tx-IsMigration}
use nakama_sol_x.Tests.Token.{addresses}
use nakama_sol_x.Tests.Fixtures.{
  plan_key, mint, merchant, subscriber, facilitator, sub_key, merchant_ata, subscriber_ata, running,
}
use nakama_sol_x.Tests.Decoding.{raw, tag}

abbrev session_key : Pubkey
session_key = addresses.address (pay_session_seeds sub_key 9) 255

abbrev pub open_view : PaySessionView
open_view = record {
  subscription = sub_key;
  merchant = merchant;
  merchant_ata = merchant_ata;
  facilitator = facilitator;
  session_id = 9;
  opened_at = pos 1000;
  last_settle_at = pos 0;
  usage_amount = 0;
  reservation_cap = 0;
  state = 0;
  bump = 255;
}

abbrev plan_view : PlanView
plan_view = record {
  merchant = merchant;
  plan_id = 1;
  price = 3000000;
  period = pos 60;
  token_mint = mint;
  merchant_ata = merchant_ata;
  bump = 255;
}

abbrev pub tombstone : Subscription
tombstone = record (running 1000000) { state = SubscriptionState.cancelled }

-- Every account has the tag of the fixtures, and the message is short.
abbrev pub crates : Crates
crates = record {
  sha256 = λ names. tag;
  to_bytes = λ k. k ∷ [];
  get_associated_token_address = λ owner m. subscriber_ata;
  base64_decode = λ s. some (tag ++ 42 ∷ []);
  subscription_try_from_slice = λ bytes. some (view_of tombstone);
  plan_try_from_slice = λ bytes. some plan_view;
  pay_session_try_from_slice = λ bytes. some open_view;
  message_size = λ m. 700;
}

abbrev listed : List (Pubkey × UiAccountData)
listed = (session_key, base64 "x") ∷ (77, base64 "y") ∷ []

abbrev pub node : Rpc
node = record {
  get_account = λ k. some (some raw);
  get_program_ui_accounts = λ program filters. some listed;
  get_latest_blockhash = some 5;
  send_and_confirm_transaction = λ message. some "signature";
}

abbrev args : ResubscribeArgs
args = record {
  program_id = 99;
  plan = plan_key;
  token_mint = mint;
  periods_to_prefund = 2;
  subscriber = subscriber;
  close_alive_pay_sessions = true;
}

abbrev out : List (Pubkey × PaySessionView)
out = (session_key, open_view) ∷ (77, open_view) ∷ []

build_resubscribe_ixs-spelled_example :
    (ixs : List Instruction) × (build_resubscribe_ixs addresses crates args
        (some 4)
        (addresses_of addresses crates args (9 ∷ []))
      ≡ ok ixs)
    × (spelled addresses crates args (requests_for addresses crates args (some 4) (9 ∷ []))
        ≡ some ixs)
build_resubscribe_ixs-spelled_example =
    build_resubscribe_ixs-spelled addresses crates args (some 4) (9 ∷ []) refl (omega arith)

-- The listed account at a wrong address is not closed.
sends : resubscribe_or_subscribe addresses crates node args ≡ ok "signature"
unfolding resubscribe_or_subscribe observe_state alive_sessions build_resubscribe_ixs compose_ixs
    list_alive_pay_sessions collect_open decode_ui_account_data try_decode strip_discriminator
    decode_program_owned
sends = refl

resubscribe_or_subscribe-Sent_example : Sent addresses crates node args "signature"
resubscribe_or_subscribe-Sent_example =
    resubscribe_or_subscribe-Sent addresses crates node args "signature" sends

-- A chain on which the subscription is still active.
abbrev active_crates : Crates
active_crates = record crates { subscription_try_from_slice = λ bytes. some (view_of (running 0)) }

abbrev options : ChangeRateOptions
options = record {
  program_id = 99;
  subscriber = subscriber;
  old_plan = plan_key;
  new_plan = 55;
  new_deposit_periods = 3;
  close_alive_pay_sessions = true;
}

-- What the client builds, or an empty message.
abbrev built : Message
built = elim (build_change_rate_tx addresses active_crates node options 5) [
  | ok m ↦ m
  | err x ↦ record { instructions = []; payer = 0; blockhash = 0 }
]

builds : build_change_rate_tx addresses active_crates node options 5 ≡ ok built
unfolding build_change_rate_tx decode_program_owned list_alive_pay_sessions
builds = refl

build_change_rate_tx-IsMigration_example : IsMigration addresses active_crates node options built
build_change_rate_tx-IsMigration_example =
    build_change_rate_tx-IsMigration addresses active_crates node options 5 built builds

four_instructions : length built.instructions ≡ 4
unfolding build_change_rate_tx decode_program_owned list_alive_pay_sessions
four_instructions = refl
