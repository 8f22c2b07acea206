-- ===== src/Tests/Facilitators.antt =====
-- The facilitator at concrete inputs.
use Prim.Native.String.{◌++◌}
use nakama_sol_x.Prelude.{
  ℕ, pos, ◌≡◌, ◌≢◌, ◌↔◌, ◌==◌, if◌then◌else◌, refl, false, some, ok, List, [], ◌∷◌, arith,
}
use nakama_sol_x.Program.State.{Pubkey}
use nakama_sol_x.Client.Views.{SubscriptionView, view_of, graced_view, paused_view}
use nakama_sol_x.Client.Decode.{decode_program_owned}
use nakama_sol_x.Facilitator.TopUp.{AppState, Outside, handle, read_subscription}
use nakama_sol_x.Facilitator.TopUp.Guards.{Sent, handle-Sent}
use nakama_sol_x.Client.Status.{ComputedStatus, derive_status}
use nakama_sol_x.Client.Status.Dispatch.{is_corrupt}
use nakama_sol_x.Facilitator.ComputedStatus.{GracedCodec, HasEscrow, handle as serve, handle-Live}
use nakama_sol_x.Facilitator.Auth.{require_bearer, require_bearer_iff}
use nakama_sol_x.Tests.Token.{addresses}
use nakama_sol_x.Tests.Fixtures.{running, sub_key, subscriber, subscriber_ata}
use nakama_sol_x.Tests.Decoding.{raw, tag}
use nakama_sol_x.Tests.Clients.{grace_sub, escrow, escrow-Live}

abbrev pub outside : Outside
outside = record {
  parse_pubkey = λ path. some sub_key;
  associated_token_address = λ owner mint. subscriber_ata;
  subscription_discriminator = tag;
  try_from_slice = λ bytes. some (view_of (running 0));
  token_program = 88;
  get_account = λ k. ok (some raw);
  get_latest_blockhash = ok 5;
  send_and_confirm_transaction = λ instruction blockhash signer. ok "signature";
}

abbrev state : AppState
state = record {
  program_id = 99;
  max_top_up_amount = 1000000000;
  demo_subscriber = some subscriber;
}

handled : handle addresses outside state "path" 5000 ≡ ok "signature"
unfolding handle read_subscription decode_program_owned
handled = refl

handle-Sent_example :
    (sub_pda : Pubkey) × (signer : Pubkey) × (v : SubscriptionView) × (blockhash : ℕ) × (some
        sub_key
      ≡ some sub_pda)
    × Sent addresses outside state 5000 "signature" sub_pda signer v blockhash
handle-Sent_example = handle-Sent addresses outside state "path" 5000 "signature" handled

require_bearer_iff_example :
    (require_bearer (some "hunter2") (some "Bearer hunter2") ≡ ok tt)
    ↔ (some "Bearer hunter2" ≡ some ("Bearer " ++ "hunter2"))
require_bearer_iff_example = require_bearer_iff "hunter2" (some "Bearer hunter2") (omega arith)

-- The chain of a subscription in its grace period: the satellite's data are told apart by the key.
abbrev graced_tag : List ℕ
graced_tag = 1 ∷ 2 ∷ 3 ∷ 4 ∷ 5 ∷ 6 ∷ 7 ∷ 8 ∷ []

abbrev pub codec : GracedCodec
codec = record { discriminator = graced_tag; try_from_slice = λ bytes. graced_view escrow.graced }

abbrev chain : Outside
chain = record outside {
  try_from_slice = λ bytes. some (view_of grace_sub);
  get_account =
      λ k. ok (some (if k == sub_key then raw else record { owner = 99; bytes = graced_tag }));
}

holds : HasEscrow codec addresses chain 99 sub_key grace_sub (graced_view escrow.graced)
holds = record {
  account = raw;
  satellite = some (record { owner = 99; bytes = graced_tag });
  found = refl;
  encoded = record { body = 42 ∷ []; owned = refl; laid = refl; read = refl };
  looked_up = refl;
  absent = λ free. ground arith;
  present = λ g there. (
    record { owner = 99; bytes = graced_tag },
    refl,
    record { body = []; owned = refl; laid = refl; read = there },
  );
}

handle-Live_example :
    (status : ComputedStatus) × (serve codec addresses chain state "path" (pos 2000) ≡ ok status)
    × (status
        ≡ derive_status
            (view_of grace_sub)
            (graced_view escrow.graced)
            (paused_view escrow.paused)
            (pos 2000))
    × (is_corrupt status ≡ false)
    × (status ≢ ComputedStatus.exhausted)
handle-Live_example =
    handle-Live codec addresses chain state "path" (pos 2000) sub_key grace_sub escrow escrow-Live
      refl refl refl holds
