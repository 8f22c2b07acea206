-- ===== src/Facilitator/Server.antt =====
-- lib.rs of the facilitator: the router, with the middleware in front of the protected routes, and
-- the statuses and codes that error.rs answers with. The headers that the router adds to every
-- response are left out.
use Prim.Native.String.{len, ◌++◌}
use nakama_sol_x.Prelude.{
  ℕ, ℤ, ◌<◌, ◌≡◌, ◌≢◌, refl, sym, ap, inl, inr, ◌||◌, Bool, true, false, Option, none, some, String,
  Result, ok, err, ok_or, ◌>>◌, require, arith, Option-cases, Result-cases, >>=-eq-ok, >>-eq-ok,
}
use nakama_sol_x.Program.State.{Pubkey}
use nakama_sol_x.Program.Accounts.{Pda}
use nakama_sol_x.Client.Status.{ComputedStatus}
use nakama_sol_x.Client.Decode.{wrong_owner, wrong_discriminator, too_short, borsh}
use nakama_sol_x.Facilitator.TopUp.{
  ApiError, bad_request, not_found, unauthorized, signing_unavailable, rpc, internal, decode,
  AppState, Outside,
}
use nakama_sol_x.Facilitator.TopUp as TopUp
use nakama_sol_x.Facilitator.ComputedStatus.{GracedCodec}
use nakama_sol_x.Facilitator.ComputedStatus as ComputedStatusRoute
use nakama_sol_x.Facilitator.Auth.{require_bearer, extract_bearer, require_bearer_iff}
use nakama_sol_x.Facilitator.Config.{
  Config, Parsers, StartError, from_env, required_key, is_loopback_bind, is_opt_in, or_default,
  default_bind_addr, parsed_limit, not_loopback, invalid_program_id, default_program_id,
}

abbrev pub code : ApiError → String
code bad_request = "bad_request"
code not_found = "not_found"
code unauthorized = "unauthorized"
code signing_unavailable = "signing_unavailable"
code (decode (wrong_owner expected actual)) = "not_found"
code (decode (wrong_discriminator expected actual)) = "not_found"
code (decode too_short) = "decode_error"
code (decode borsh) = "decode_error"
code rpc = "rpc_error"
code internal = "internal_error"

abbrev pub status : ApiError → ℕ
status bad_request = 400
status not_found = 404
status unauthorized = 401
status signing_unavailable = 503
status (decode (wrong_owner expected actual)) = 404
status (decode (wrong_discriminator expected actual)) = 404
status (decode too_short) = 502
status (decode borsh) = 502
status rpc = 502
status internal = 500

-- The routes with their parameters.
pub data Route : Type 0 where
  top_up : (sub_pda : String) (amount : ℕ) → Route
  computed_status : (sub_pda : String) → Route
  healthz : Route

pub data Response : Type 0 where
  alive : Response
  sent : (signature : String) → Response
  derived : ComputedStatus → Response
  refused : (status : ℕ) (code : String) → Response

abbrev pub respond : {A : Type 0} → (A → Response) → Result ApiError A → Response
respond present (ok a) = present a
respond present (err x) = refused (status x) (code x)

abbrev pub is_protected : Route → Bool
is_protected (top_up path amount) = true
is_protected (computed_status path) = true
is_protected healthz = false

ok-injective : (a b : Config) → ◌≡◌ {A = Result StartError Config} (ok a) (ok b) → a ≡ b
ok-injective a b h = cc

require_lem : (b : Bool) (x : StartError) → require b x ≡ ok tt → b ≡ true
require_lem true x h = refl
require_lem false x h = cc

-- `config` is what the server started with.
module _ (codec : GracedCodec) (pda : Pda) (outside : Outside) (config : Config)
    (demo_subscriber : Option Pubkey) (now : ℤ) where
  abbrev pub app_state : AppState
  app_state = record {
    program_id = config.program_id;
    max_top_up_amount = config.max_top_up_amount;
    demo_subscriber = demo_subscriber;
  }

  unfoldable pub router : Option String → Route → Response
  router header (top_up path amount) =
      respond sent
        (require_bearer config.api_key header >> TopUp.handle pda outside app_state path amount)
  router header (computed_status path) = respond derived (
      require_bearer config.api_key header
      >> ComputedStatusRoute.handle codec pda outside app_state path now)
  router header healthz = alive

  stranger_refused :
      (key : String) (header : Option String)
      → 0 < len key
      → header ≢ some ("Bearer " ++ key)
      → require_bearer (some key) header ≡ err unauthorized
  unfolding require_bearer
  stranger_refused key header long other = elim (Result-cases (require_bearer (some key) header)) [
    | inl (done, passes) ↦
        absurd (other ((require_bearer_iff key header long).0 (ground (arith, passes))))
    | inr (x, fails) ↦ elim (Option-cases (extract_bearer header)) [
      | inl missing ↦ ground (arith, missing)
      | inr (token, presented) ↦ ground (arith, presented, fails)
    ]
  ]

  router-refuses :
      (key : String) (header : Option String) (route : Route)
      → config.api_key ≡ some key
      → 0 < len key
      → is_protected route ≡ true
      → header ≢ some ("Bearer " ++ key)
      → router header route ≡ refused 401 "unauthorized"
  unfolding router
  router-refuses key header (top_up path amount) configured long protected other =
      rw configured (rw (stranger_refused key header long other) refl)
  router-refuses key header (computed_status path) configured long protected other =
      rw configured (rw (stranger_refused key header long other) refl)
  router-refuses key header healthz configured long protected other =
      absurd (ground (arith, protected))

  required_key_lem :
      (o : Option String) (key : String) → required_key o ≡ ok key → (o ≡ some key) × (0 < len key)
  unfolding required_key
  required_key_lem none key h = ground (arith, h)
  required_key_lem (some k) key h = ground (arith, h)

  -- A server that starts on an environment has the key that the environment sets, which is not
  -- empty, listens on a loopback address or was told to do otherwise, and answers every request to
  -- a protected route that lacks the header of that key with 401, whatever the chain holds.
  pub from_env-router :
      (parsers : Parsers) (env : String → Option String)
      → from_env parsers env ≡ ok config
      → (key : String) × (env "NAKAMA_FACILITATOR_API_KEY" ≡ some key)
        × (0 < len key)
        × ((is_loopback_bind parsers config.bind_addr
              || is_opt_in (env "NAKAMA_FACILITATOR_ALLOW_PUBLIC_BIND"))
            ≡ true)
        × ((header : Option String) (route : Route)
            → is_protected route ≡ true
            → header ≢ some ("Bearer " ++ key)
            → router header route ≡ refused 401 "unauthorized")
  unfolding from_env
  from_env-router parsers env h =
      let bind_addr = or_default (env "NAKAMA_BIND_ADDR") default_bind_addr in
      let (bound, h1) =
        >>-eq-ok
          (require
            (is_loopback_bind parsers bind_addr
              || is_opt_in (env "NAKAMA_FACILITATOR_ALLOW_PUBLIC_BIND"))
            not_loopback)
          _ h in
      let (program_id, parsed, h2) =
        >>=-eq-ok
          (ok_or (parsers.parse_pubkey (or_default (env "NAKAMA_PROGRAM_ID") default_program_id))
            invalid_program_id)
          _ h1 in
      let (key, required, h3) = >>=-eq-ok (required_key (env "NAKAMA_FACILITATOR_API_KEY")) _ h2 in
      let (limit, limited, h4) =
        >>=-eq-ok (parsed_limit parsers (env "NAKAMA_FACILITATOR_MAX_TOP_UP_AMOUNT")) _ h3 in
      let same = ok-injective _ config h4 in
      let (set, long) = required_key_lem (env "NAKAMA_FACILITATOR_API_KEY") key required in
      (
        key,
        set,
        long,
        rw (sym (ap (λ c. c.bind_addr) same)) (require_lem _ not_loopback bound),
        λ header route. router-refuses key header route (sym (ap (λ c. c.api_key) same)) long,
      )
