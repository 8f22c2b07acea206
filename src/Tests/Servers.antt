-- ===== src/Tests/Servers.antt =====
-- The facilitator's server at a concrete environment, and its account lists.
use text.Mathlib.Text
use Prim.Native.String.{len, ◌++◌}
use nakama_sol_x.Prelude.{
  Bool, ◌⊎◌, pos, ◌<◌, ◌≡◌, ◌≢◌, if◌then◌else◌, refl, true, Option, some, none, ok, ℕ, zero, suc,
  [], ◌∷◌, String, List,
}
use nakama_sol_x.Escrow.{Request, top_up, open_session, settle_usage, close_session}
use nakama_sol_x.Escrow.Wire.{instruction_of}
use nakama_sol_x.Client.Views.{from_byte}
use nakama_sol_x.Client.Addresses.{derive_grace_pda, derive_pay_session_pda}
use nakama_sol_x.Client.Wire.{AccountMeta, spl_token_program_id, system_program_id}
use nakama_sol_x.Facilitator.TopUp.{build_top_up_metas}
use nakama_sol_x.Facilitator.Metas.{
  build_open_session_metas, build_settle_usage_metas, build_close_session_metas, accounts_of,
  metas-Live,
}
use nakama_sol_x.Facilitator.Config.{Config, Parsers, from_env, is_loopback_bind, required_key}
use nakama_sol_x.Facilitator.Server.{Route, is_protected, refused, router}
use nakama_sol_x.Facilitator.Start.{
  Host, run, demo_keypair, read_demo_keypair_from_stdin, parse_keypair_json, IsRead, IsOptIn,
  run-router,
}
use nakama_sol_x.Program.State.{Pubkey}
use nakama_sol_x.Tests.Token.{addresses}
use nakama_sol_x.Tests.Fixtures.{
  plan_key, subscriber, facilitator, sub_key, vault_key, subscriber_ata,
}
use nakama_sol_x.Tests.Clients.{grace_sub, escrow, escrow-Live}
use nakama_sol_x.Tests.Facilitators.{codec, outside}
use nakama_sol_x.Tests.Renewals.{crates}

abbrev spells : Request → List AccountMeta
spells r = accounts_of (instruction_of crates addresses 99 plan_key sub_key r)

metas-Live_example :
    (build_top_up_metas subscriber sub_key 99
        (derive_grace_pda addresses sub_key)
        vault_key
        subscriber_ata
        spl_token_program_id
        (from_byte 2)
      ≡ spells (top_up subscriber vault_key subscriber_ata true 5000))
    × (build_open_session_metas sub_key
          (derive_pay_session_pda addresses sub_key 9)
          subscriber
          system_program_id
        ≡ spells (open_session subscriber 9 facilitator 0))
    × (build_settle_usage_metas sub_key
          (derive_pay_session_pda addresses sub_key 9)
          vault_key
          subscriber_ata
          facilitator
          spl_token_program_id
        ≡ spells (settle_usage facilitator vault_key subscriber_ata 9 5000))
    × (build_close_session_metas sub_key (derive_pay_session_pda addresses sub_key 9) subscriber
        ≡ spells (close_session subscriber 9))
metas-Live_example =
    metas-Live crates addresses 99 plan_key sub_key grace_sub escrow subscriber vault_key
      subscriber_ata 5000 9 facilitator 0 escrow-Live

abbrev parsers : Parsers
parsers = record {
  parse_socket_addr = λ s. some (Text.◌==◌ s "127.0.0.1:8080");
  parse_pubkey = λ s. some 99;
  parse_u64 = λ s. some 5000;
}

abbrev env : String → Option String
env name =
    if Text.◌==◌ name "NAKAMA_FACILITATOR_API_KEY"
    then some "hunter2"
    else if Text.◌==◌ name "NAKAMA_READ_DEMO_KEYPAIR_FROM_STDIN"
    then some "1"
    else none

abbrev filled : ℕ → List ℕ
filled zero = []
filled (suc n) = 7 ∷ filled n

abbrev host : Host
host = record {
  stdin = some "[1, 2]";
  json_bytes = λ s. some (filled 64);
  keypair = λ bytes. some subscriber;
  bind = λ s. true;
}

abbrev config : Config
config = record {
  rpc_url = "https://api.devnet.solana.com";
  bind_addr = "127.0.0.1:8080";
  program_id = 99;
  read_demo_keypair_from_stdin = true;
  api_key = some "hunter2";
  max_top_up_amount = 1000000000;
}

starts : run host parsers env ≡ ok (config, some subscriber)
unfolding run demo_keypair read_demo_keypair_from_stdin parse_keypair_json from_env is_loopback_bind
    required_key
starts = refl

run-router_example :
    (key : String) × (env "NAKAMA_FACILITATOR_API_KEY" ≡ some key)
    × (0 < len key)
    × (loopback : Bool) × (parsers.parse_socket_addr config.bind_addr ≡ some loopback)
    × ((loopback ≡ true) ⊎ IsOptIn (env "NAKAMA_FACILITATOR_ALLOW_PUBLIC_BIND"))
    × ((k : Pubkey) → some subscriber ≡ some k → IsRead host config k)
    × ((header : Option String) (route : Route)
        → is_protected route ≡ true
        → header ≢ some ("Bearer " ++ key)
        → router codec addresses outside config (some subscriber) (pos 2000) header route
          ≡ refused 401 "unauthorized")
run-router_example =
    run-router host codec addresses outside (pos 2000) parsers env config (some subscriber) starts
