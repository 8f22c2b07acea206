-- ===== src/Escrow/Wire.antt =====
-- The instruction that a request stands for: the accounts in the order in which the `Accounts`
-- structs of nakama/programs/nakama/src/instructions declare them, with what they have to be
-- (`mut`, `Signer`), and Anchor's discriminator followed by the arguments in Borsh.
use nakama_sol_x.Prelude.{
  ℕ, suc, zero, ◌/◌, ◌%◌, Bool, true, false, Option, none, some, List, [], ◌∷◌, ◌++◌, String,
}
use nakama_sol_x.Program.State.{Pubkey}
use nakama_sol_x.Program.Accounts.{Pda, grace_seeds, paused_sub_seeds, pay_session_seeds}
use nakama_sol_x.Client.Wire.{
  AccountMeta, new, new_readonly, Instruction, Crates, compute, spl_token_program_id,
  system_program_id, sysvar_rent_id,
}
use nakama_sol_x.Escrow.{
  Request, subscribe, charge, cancel, cleanup, top_up, pause, resume, open_session, settle_usage,
  close_session, token_transfer,
}

-- `w` bytes of a number, the lowest first.
abbrev pub le_bytes : ℕ → ℕ → List ℕ
le_bytes zero n = []
le_bytes (suc w) n = n % 256 ∷ le_bytes w (n / 256)

-- The discriminator with the arguments after it.
abbrev pub followed : List ℕ → List ℕ → List ℕ
followed tag [] = tag
followed tag (a ∷ args) = tag ++ a ∷ args

abbrev joined : {A : Type 0} → Option A → Option (List A) → Option (List A)
joined none xs = none
joined (some x) none = none
joined (some x) (some xs) = some (x ∷ xs)

module _ (crates : Crates) (pda : Pda) (program_id plan_key key : Pubkey) where
  abbrev grace_pda : Pubkey
  grace_pda = pda.address (grace_seeds key) (pda.canonical_bump (grace_seeds key))

  abbrev paused_pda : Pubkey
  paused_pda = pda.address (paused_sub_seeds key) (pda.canonical_bump (paused_sub_seeds key))

  abbrev session_pda : ℕ → Pubkey
  session_pda id =
      pda.address (pay_session_seeds key id) (pda.canonical_bump (pay_session_seeds key id))

  abbrev pub instruction : List AccountMeta → String → List ℕ → Option Instruction
  instruction accounts name args = some (record {
    program_id = program_id;
    accounts = accounts;
    payload = followed (compute crates name) args;
  })

  -- An optional account that others follow; the program's own address spells that it is absent.
  abbrev pub optional_meta : Bool → Pubkey → AccountMeta
  optional_meta true k = new k false
  optional_meta false k = new_readonly program_id false

  abbrev pub subscribe_account_metas : Pubkey → Pubkey → Pubkey → Pubkey → List AccountMeta
  subscribe_account_metas signer mint vault ata =
      new signer true
      ∷ new_readonly plan_key false
      ∷ new_readonly mint false
      ∷ new key false
      ∷ new vault false
      ∷ new ata false
      ∷ new_readonly spl_token_program_id false
      ∷ new_readonly system_program_id false
      ∷ new_readonly sysvar_rent_id false
      ∷ []

  abbrev pub charge_account_metas : Pubkey → Pubkey → Pubkey → Pubkey → Bool → List AccountMeta
  charge_account_metas signer plan vault ata attach =
      new key false
      ∷ new_readonly plan false
      ∷ new vault false
      ∷ new ata false
      ∷ new_readonly spl_token_program_id false
      ∷ new signer true
      ∷ optional_meta attach grace_pda
      ∷ new_readonly system_program_id false
      ∷ []

  -- The optional accounts at the end, which `allow-missing-optionals` lets be left out: the first
  -- one is spelled where the second one is there.
  abbrev pub trailing : Bool → Bool → List AccountMeta
  trailing false false = []
  trailing true false = new grace_pda false ∷ []
  trailing graced true = optional_meta graced grace_pda ∷ new paused_pda false ∷ []

  abbrev pub cancel_account_metas :
      Pubkey → Pubkey → Pubkey → Pubkey → Pubkey → Bool → Bool → List AccountMeta
  cancel_account_metas signer subscriber vault ata sub_ata graced paused =
      (new_readonly signer true
        ∷ new key false
        ∷ new subscriber false
        ∷ new vault false
        ∷ new ata false
        ∷ new sub_ata false
        ∷ new_readonly spl_token_program_id false
        ∷ [])
      ++ trailing graced paused

  abbrev pub cleanup_account_metas : Pubkey → List AccountMeta
  cleanup_account_metas signer = new key false ∷ new signer true ∷ []

  abbrev pub top_up_account_metas : Pubkey → Pubkey → Pubkey → Bool → List AccountMeta
  top_up_account_metas signer vault ata attach =
      new signer true
      ∷ new key false
      ∷ optional_meta attach grace_pda
      ∷ new vault false
      ∷ new ata false
      ∷ new_readonly spl_token_program_id false
      ∷ []

  abbrev pub pause_account_metas : Pubkey → List AccountMeta
  pause_account_metas signer =
      new key false
      ∷ new paused_pda false
      ∷ new signer true
      ∷ new_readonly system_program_id false
      ∷ []

  abbrev pub resume_account_metas : Pubkey → List AccountMeta
  resume_account_metas signer = new key false ∷ new paused_pda false ∷ new signer true ∷ []

  abbrev pub open_session_account_metas : Pubkey → ℕ → List AccountMeta
  open_session_account_metas signer id =
      new_readonly key false
      ∷ new (session_pda id) false
      ∷ new signer true
      ∷ new_readonly system_program_id false
      ∷ []

  abbrev pub settle_usage_account_metas : Pubkey → Pubkey → Pubkey → ℕ → List AccountMeta
  settle_usage_account_metas signer vault ata id =
      new key false
      ∷ new (session_pda id) false
      ∷ new vault false
      ∷ new ata false
      ∷ new_readonly signer true
      ∷ new_readonly spl_token_program_id false
      ∷ []

  abbrev pub close_session_account_metas : Pubkey → ℕ → List AccountMeta
  close_session_account_metas signer id =
      new_readonly key false ∷ new (session_pda id) false ∷ new signer true ∷ []

  -- `none` is not an instruction of the program.
  unfoldable pub instruction_of : Request → Option Instruction
  instruction_of (subscribe signer mint vault ata periods) =
      instruction (subscribe_account_metas signer mint vault ata) "subscribe" (periods ∷ [])
  instruction_of (charge signer plan vault ata attach) =
      instruction (charge_account_metas signer plan vault ata attach) "charge" []
  instruction_of (cancel signer subscriber vault ata sub_ata graced paused) =
      instruction (cancel_account_metas signer subscriber vault ata sub_ata graced paused) "cancel"
        []
  instruction_of (cleanup signer) = instruction (cleanup_account_metas signer) "cleanup" []
  instruction_of (top_up signer vault ata attach amount) =
      instruction (top_up_account_metas signer vault ata attach) "top_up" (le_bytes 8 amount)
  instruction_of (pause signer) = instruction (pause_account_metas signer) "pause" []
  instruction_of (resume signer) = instruction (resume_account_metas signer) "resume" []
  instruction_of (open_session signer id facilitator limit) =
      instruction (open_session_account_metas signer id) "open_session"
        (le_bytes 8 id ++ crates.to_bytes facilitator ++ le_bytes 8 limit)
  instruction_of (settle_usage signer vault ata id amount) =
      instruction (settle_usage_account_metas signer vault ata id) "settle_usage"
        (le_bytes 8 amount)
  instruction_of (close_session signer id) =
      instruction (close_session_account_metas signer id) "close_session" []
  instruction_of (token_transfer signer source target amount) = none

  -- The instructions of a list of requests, where all of them are the program's.
  unfoldable pub instructions_of : List Request → Option (List Instruction)
  unfolding instruction_of
  instructions_of [] = some []
  instructions_of (r ∷ rest) = joined (instruction_of r) (instructions_of rest)
