-- ===== src/Facilitator/Config.antt =====
-- config.rs of the facilitator: what it starts with. The environment is a function; `none` is a
-- variable that is not set or not text. The parsers of the standard library and of `Pubkey` are
-- parameters.
use text.Mathlib.Text
use Prim.Native.String.{len}
use nakama_sol_x.Prelude.{
  ℕ, ◌==◌, ◌||◌, Bool, false, if◌then◌else◌, Option, none, some, is_some, String, Result, ok, err,
  ok_or, ◌>>=◌, ◌>>◌, require,
}
use nakama_sol_x.Program.State.{Pubkey}

abbrev pub default_rpc_url : String
default_rpc_url = "https://api.devnet.solana.com"

abbrev pub default_bind_addr : String
default_bind_addr = "127.0.0.1:8080"

abbrev pub default_program_id : String
default_program_id = "HSbykjMFKgX4HhPBdBzDwMBrRVugatiCXrQEC1J9Ccfm"

abbrev pub default_max_top_up_amount : ℕ
default_max_top_up_amount = 1000000000

pub record Config : Type 0 where
  pub rpc_url : String
  pub bind_addr : String
  pub program_id : Pubkey
  pub read_demo_keypair_from_stdin : Bool
  pub api_key : Option String
  pub max_top_up_amount : ℕ

-- The errors of the start, by what they say.
pub data StartError : Type 0 where
  not_loopback invalid_program_id no_api_key invalid_max_top_up_amount : StartError
  no_stdin not_json invalid_keypair invalid_address not_bound : StartError
  wrong_length : ℕ → StartError

-- `parse_socket_addr` returns whether the address is a loopback one.
pub record Parsers : Type 0 where
  pub parse_socket_addr : String → Option Bool
  pub parse_pubkey : String → Option Pubkey
  pub parse_u64 : String → Option ℕ

unfoldable pub is_loopback_bind : Parsers → String → Bool
is_loopback_bind parsers bind_addr = elim (parsers.parse_socket_addr bind_addr) [
  | none ↦ false
  | some loopback ↦ loopback
]

abbrev pub or_default : Option String → String → String
or_default none d = d
or_default (some v) d = v

-- `matches!(v.as_str(), "1" | "true" | "TRUE")`
abbrev pub is_opt_in : Option String → Bool
is_opt_in none = false
is_opt_in (some v) = Text.◌==◌ v "1" || Text.◌==◌ v "true" || Text.◌==◌ v "TRUE"

unfoldable pub required_key : Option String → Result StartError String
required_key none = err no_api_key
required_key (some key) = if len key == 0 then err no_api_key else ok key

abbrev pub parsed_limit : Parsers → Option String → Result StartError ℕ
parsed_limit parsers none = ok default_max_top_up_amount
parsed_limit parsers (some v) = ok_or (parsers.parse_u64 v) invalid_max_top_up_amount

unfoldable pub from_env : Parsers → (String → Option String) → Result StartError Config
from_env parsers env = do
  let bind_addr = or_default (env "NAKAMA_BIND_ADDR") default_bind_addr
  require
      (is_loopback_bind parsers bind_addr || is_opt_in (env "NAKAMA_FACILITATOR_ALLOW_PUBLIC_BIND"))
      not_loopback
  program_id ←
      ok_or (parsers.parse_pubkey (or_default (env "NAKAMA_PROGRAM_ID") default_program_id))
        invalid_program_id
  api_key ← required_key (env "NAKAMA_FACILITATOR_API_KEY")
  max_top_up_amount ← parsed_limit parsers (env "NAKAMA_FACILITATOR_MAX_TOP_UP_AMOUNT")
  ok (record {
    rpc_url = or_default (env "NAKAMA_RPC_URL") default_rpc_url;
    bind_addr = bind_addr;
    program_id = program_id;
    read_demo_keypair_from_stdin = is_some (env "NAKAMA_READ_DEMO_KEYPAIR_FROM_STDIN");
    api_key = some api_key;
    max_top_up_amount = max_top_up_amount;
  })
