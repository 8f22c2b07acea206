-- ===== src/Facilitator/Start.antt =====
-- lib.rs and state.rs of the facilitator: the start of the server, with the demo keypair that it
-- may read. The standard input, the parsers and the socket are what the record Host holds.
use text.Mathlib.Text
use text.Mathlib.TextEquality
use Prim.Native.String.{len, ◌++◌}
use nakama_sol_x.Prelude.{
  ℕ, ℤ, ◌<◌, ◌≡◌, ◌≢◌, ◌∙◌, ap, ◌==◌, ◌||◌, inl, inr, Bool, true, if◌then◌else◌, Option, none, some,
  is_some, String, Result, ok, ok_or, ◌>>=◌, ◌>>◌, require, List, Result-cases, Option-cases,
  Bool-cases, ◌⊎◌, refl, arith,
}
use nakama_sol_x.Program.State.{Pubkey}
use nakama_sol_x.Program.Accounts.{Pda}
use nakama_sol_x.Client.Decode.{length}
use nakama_sol_x.Facilitator.TopUp.{Outside}
use nakama_sol_x.Facilitator.ComputedStatus.{GracedCodec}
use nakama_sol_x.Facilitator.Config.{
  Config, Parsers, StartError, from_env, is_loopback_bind, is_opt_in, no_stdin, not_json,
  wrong_length, invalid_keypair, invalid_address, not_bound,
}
use nakama_sol_x.Facilitator.Server.{Route, is_protected, refused, router, from_env-router}

-- `json_bytes` reads a JSON array of bytes, `keypair` is the public key of 64 bytes that are a
-- keypair, `bind` whether the address can be listened on.
pub record Host : Type 0 where
  pub stdin : Option String
  pub json_bytes : String → Option (List ℕ)
  pub keypair : List ℕ → Option Pubkey
  pub bind : String → Bool

-- The three words that allow an address that is not a loopback one.
abbrev pub IsOptIn : Option String → Type 0
IsOptIn word = (word ≡ some "1") ⊎ ((word ≡ some "true") ⊎ (word ≡ some "TRUE"))

is_opt_in-IsOptIn : (word : Option String) → is_opt_in word ≡ true → IsOptIn word
is_opt_in-IsOptIn none h = absurd (ground arith)
is_opt_in-IsOptIn (some v) h = elim (Bool-cases (Text.◌==◌ v "1")) [
  | inl one ↦ inl (ap (λ w. some w) ((TextEquality.eq_iff v "1").0 one))
  | inr other ↦ elim (Bool-cases (Text.◌==◌ v "true")) [
    | inl small ↦ inr (inl (ap (λ w. some w) ((TextEquality.eq_iff v "true").0 small)))
    | inr neither ↦
        let large : Text.◌==◌ v "TRUE" ≡ true = ground (arith, h, other, neither) in
        inr (inr (ap (λ w. some w) ((TextEquality.eq_iff v "TRUE").0 large)))
  ]
]

parses_lem : (o : Option Bool) → is_some o ≡ true → (loopback : Bool) × (o ≡ some loopback)
parses_lem none h = absurd (ground arith)
parses_lem (some loopback) h = (loopback, refl)

is_loopback_bind_lem :
    (parsers : Parsers) (bind_addr : String) (loopback : Bool) (word : Option String)
    → parsers.parse_socket_addr bind_addr ≡ some loopback
    → (is_loopback_bind parsers bind_addr || is_opt_in word) ≡ true
    → (loopback ≡ true) ⊎ IsOptIn word
unfolding is_loopback_bind
is_loopback_bind_lem parsers bind_addr loopback word parsed h = elim (Bool-cases loopback) [
  | inl near ↦ inl near
  | inr far ↦ inr (is_opt_in-IsOptIn word (ground (arith, parsed, far, h)))
]

module _ (host : Host) where
  unfoldable pub parse_keypair_json : String → Result StartError Pubkey
  parse_keypair_json body = do
    bytes ← ok_or (host.json_bytes body) not_json
    require (length bytes == 64) (wrong_length (length bytes))
    ok_or (host.keypair bytes) invalid_keypair

  unfoldable pub read_demo_keypair_from_stdin : Result StartError Pubkey
  read_demo_keypair_from_stdin = do body ← ok_or host.stdin no_stdin; parse_keypair_json body

  abbrev read_keypair : Result StartError (Option Pubkey)
  read_keypair = do k ← read_demo_keypair_from_stdin; ok (some k)

  unfoldable pub demo_keypair : Config → Result StartError (Option Pubkey)
  demo_keypair config = if config.read_demo_keypair_from_stdin then read_keypair else ok none

  -- What the server then serves with.
  unfoldable pub run :
      Parsers → (String → Option String) → Result StartError (Config × Option Pubkey)
  run parsers env = do
    config ← from_env parsers env
    demo ← demo_keypair config
    require (is_some (parsers.parse_socket_addr config.bind_addr)) invalid_address
    require (host.bind config.bind_addr) not_bound
    ok (config, demo)

  -- A keypair that the server has is one that it was told to read, 64 bytes on the standard input.
  abbrev pub IsRead : Config → Pubkey → Type 0
  IsRead config k =
      (config.read_demo_keypair_from_stdin ≡ true)
      × (body : String) × (bytes : List ℕ) × (host.stdin ≡ some body)
      × (host.json_bytes body ≡ some bytes)
      × (length bytes ≡ 64)
      × (host.keypair bytes ≡ some k)

  parse_keypair_json_lem :
      (body : String) (k : Pubkey)
      → parse_keypair_json body ≡ ok k
      → (bytes : List ℕ) × (host.json_bytes body ≡ some bytes)
        × (length bytes ≡ 64)
        × (host.keypair bytes ≡ some k)
  unfolding parse_keypair_json
  parse_keypair_json_lem body k h = elim (Option-cases (host.json_bytes body)) [
    | inl other ↦ absurd (ground arith)
    | inr (bytes, read) ↦ (bytes, read, ground arith, ground arith)
  ]

  read_demo_keypair_from_stdin_lem :
      (k : Pubkey)
      → read_demo_keypair_from_stdin ≡ ok k
      → (body : String) × (host.stdin ≡ some body) × (parse_keypair_json body ≡ ok k)
  unfolding read_demo_keypair_from_stdin
  read_demo_keypair_from_stdin_lem k h = elim (Option-cases host.stdin) [
    | inl closed ↦ absurd (ground arith)
    | inr (body, given) ↦ (body, given, ground arith)
  ]

  demo_keypair_lem :
      (config : Config) (k : Pubkey)
      → demo_keypair config ≡ ok (some k)
      → (config.read_demo_keypair_from_stdin ≡ true) × (read_demo_keypair_from_stdin ≡ ok k)
  unfolding demo_keypair
  demo_keypair_lem config k h = (ground arith, ground arith)

  demo_keypair-IsRead :
      (config : Config) (k : Pubkey) → demo_keypair config ≡ ok (some k) → IsRead config k
  demo_keypair-IsRead config k h =
      let (told, got) = demo_keypair_lem config k h in
      let (body, given, parsed) = read_demo_keypair_from_stdin_lem k got in
      let (bytes, read, whole, valid) = parse_keypair_json_lem body k parsed in
      (told, body, bytes, given, read, whole, valid)

  run_lem :
      (parsers : Parsers) (env : String → Option String) (config : Config) (demo : Option Pubkey)
      → run parsers env ≡ ok (config, demo)
      → (from_env parsers env ≡ ok config)
        × (demo_keypair config ≡ ok demo)
        × (is_some (parsers.parse_socket_addr config.bind_addr) ≡ true)
        × (host.bind config.bind_addr ≡ true)
  unfolding run
  run_lem parsers env config demo h = elim (Result-cases (from_env parsers env)) [
    | inr (x, i) ↦ absurd (ground arith)
    | inl (c, i) ↦ elim (Result-cases (demo_keypair c)) [
      | inr (x, j) ↦ absurd (ground arith)
      | inl (d, j) ↦ (ground arith, ground arith, ground arith, ground arith)
    ]
  ]

  -- A server that starts on an environment has the key that the environment sets, which is not
  -- empty, and listens on an address that parses. That is a loopback one, unless
  -- NAKAMA_FACILITATOR_ALLOW_PUBLIC_BIND is `1`, `true` or `TRUE`. A keypair that it signs with is one that it was told to read: 64 bytes in JSON on the
  -- standard input. It answers every request to a protected route that lacks the header of the key
  -- with 401, whatever the chain holds.
  pub run-router :
      (codec : GracedCodec) (pda : Pda) (outside : Outside) (now : ℤ) (parsers : Parsers)
      (env : String → Option String) (config : Config) (demo : Option Pubkey)
      → run parsers env ≡ ok (config, demo)
      → (key : String) × (env "NAKAMA_FACILITATOR_API_KEY" ≡ some key)
        × (0 < len key)
        × (loopback : Bool) × (parsers.parse_socket_addr config.bind_addr ≡ some loopback)
        × ((loopback ≡ true) ⊎ IsOptIn (env "NAKAMA_FACILITATOR_ALLOW_PUBLIC_BIND"))
        × ((k : Pubkey) → demo ≡ some k → IsRead config k)
        × ((header : Option String) (route : Route)
            → is_protected route ≡ true
            → header ≢ some ("Bearer " ++ key)
            → router codec pda outside config demo now header route ≡ refused 401 "unauthorized")
  run-router codec pda outside now parsers env config demo h =
      let (loaded, read, parses, bound) = run_lem parsers env config demo h in
      let (key, set, long, near, refuses) =
        from_env-router codec pda outside config demo now parsers env loaded in
      let (loopback, parsed) = parses_lem (parsers.parse_socket_addr config.bind_addr) parses in
      (
        key,
        set,
        long,
        loopback,
        parsed,
        is_loopback_bind_lem parsers config.bind_addr loopback
            (env "NAKAMA_FACILITATOR_ALLOW_PUBLIC_BIND") parsed near,
        λ k held. demo_keypair-IsRead config k (read ∙ ap (λ d. ok d) held),
        refuses,
      )
