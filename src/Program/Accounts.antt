-- ===== src/Program/Accounts.antt =====
-- What the handlers work on and do not implement: program-derived addresses, and the token program.
-- An account that an instruction names is its address with its decoded contents.
use nakama_sol_x.Prelude.{
  ℕ, ◌+◌, ◌<◌, ◌≤◌, ◌≡◌, ◌≢◌, Option, none, some, List, [], ◌∷◌, String, ◌==◌, ok, err, require,
  ok_or, u64_bound,
}
use nakama_sol_x.Program.State.{Pubkey, GracedSubscription}
use nakama_sol_x.Program.Errors.{anchor, AnchorError, Checked}

pub record Account (A : Type 0) : Type 0 where
  pub key : Pubkey
  pub info : A

-- One entry of `seeds = [...]`: a constant, the bytes of a key, the little-endian bytes of a `u64`.
pub data Seed : Type 0 where
  text : String → Seed
  key : Pubkey → Seed
  le_bytes : ℕ → Seed

-- `find_program_address` and `create_program_address` of the runtime.
pub record Pda : Type 0 where
  pub address : List Seed → ℕ → Pubkey
  pub canonical_bump : List Seed → ℕ

-- `seeds = [...], bump = stored`
abbrev pub check_seeds : Pda → Pubkey → List Seed → ℕ → Checked (Unit {0})
check_seeds pda k seeds bump =
    require (k == pda.address seeds bump) (anchor AnchorError.constraint_seeds)

abbrev pub plan_seeds : Pubkey → ℕ → List Seed
plan_seeds merchant plan_id = text "plan" ∷ key merchant ∷ le_bytes plan_id ∷ []

abbrev pub sub_seeds : Pubkey → Pubkey → List Seed
sub_seeds subscriber plan = text "sub" ∷ key subscriber ∷ key plan ∷ []

abbrev pub vault_seeds : Pubkey → List Seed
vault_seeds subscription = text "vault" ∷ key subscription ∷ []

abbrev pub grace_seeds : Pubkey → List Seed
grace_seeds subscription = text "grace" ∷ key subscription ∷ []

abbrev pub paused_sub_seeds : Pubkey → List Seed
paused_sub_seeds subscription = text "paused_sub" ∷ key subscription ∷ []

abbrev pub pay_session_seeds : Pubkey → ℕ → List Seed
pay_session_seeds subscription session_id =
    text "pay_session" ∷ key subscription ∷ le_bytes session_id ∷ []

-- `seeds = [GRACE_SEED, subscription], bump` on an optional satellite.
abbrev pub check_graced : Pda → Pubkey → Option (Account GracedSubscription) → Checked (Unit {0})
check_graced pda subscription none = ok tt
check_graced pda subscription (some g) =
    check_seeds pda g.key (grace_seeds subscription) (pda.canonical_bump (grace_seeds subscription))

pub record TokenAccount : Type 0 where
  pub mint : Pubkey
  pub authority : Pubkey
  pub amount : ℕ

-- The token accounts of the chain; `none` is an account that is not open. An issuer's freeze of an
-- account is left out.
abbrev pub Tokens : Type 0
Tokens = Pubkey → Option TokenAccount

abbrev pub amount_of : Option TokenAccount → ℕ
amount_of none = 0
amount_of (some a) = a.amount

abbrev pub balance : Tokens → Pubkey → ℕ
balance t k = amount_of (t k)

abbrev pub authority_of : Option TokenAccount → Option Pubkey
authority_of none = none
authority_of (some a) = some a.authority

abbrev pub mint_of : Option TokenAccount → Option Pubkey
mint_of none = none
mint_of (some a) = some a.mint

abbrev pub load_token : Tokens → Pubkey → Checked TokenAccount
load_token t k = ok_or (t k) (anchor AnchorError.account_not_initialized)

-- `token::mint = …`
abbrev pub check_mint : TokenAccount → Pubkey → Checked (Unit {0})
check_mint a mint = require (a.mint == mint) (anchor AnchorError.constraint_token_mint)

-- `token::authority = …`
abbrev pub check_authority : TokenAccount → Pubkey → Checked (Unit {0})
check_authority a k = require (a.authority == k) (anchor AnchorError.constraint_token_owner)

-- The SPL token program, which the program calls: `transfer from to amount` and `close_account`,
-- with the account creation that Anchor's `init` performs.
pub record SplToken : Type 0 where
  pub transfer : Pubkey → Pubkey → ℕ → Tokens → Option Tokens
  pub close_account : Pubkey → Tokens → Option Tokens
  pub init_account : Pubkey → Pubkey → Pubkey → Tokens → Option Tokens

-- Its documented behaviour. A transfer moves the amount between two accounts of one mint and
-- touches no other; only an empty account can be closed.
pub record SplLaws (spl : SplToken) : Type 0 where
  pub transfer_debits :
      (a b : Pubkey) (n : ℕ) (t t' : Tokens)
      → a ≢ b
      → spl.transfer a b n t ≡ some t'
      → balance t a ≡ balance t' a + n
  pub transfer_credits :
      (a b : Pubkey) (n : ℕ) (t t' : Tokens)
      → a ≢ b
      → spl.transfer a b n t ≡ some t'
      → balance t' b ≡ balance t b + n
  pub transfer_frame :
      (a b c : Pubkey) (n : ℕ) (t t' : Tokens)
      → c ≢ a
      → c ≢ b
      → spl.transfer a b n t ≡ some t'
      → t' c ≡ t c
  pub transfer_succeeds :
      (a b : Pubkey) (n : ℕ) (t : Tokens)
      → t a ≢ none
      → t b ≢ none
      → mint_of (t a) ≡ mint_of (t b)
      → n ≤ balance t a
      → balance t b + n < u64_bound
      → (t' : Tokens) × (spl.transfer a b n t ≡ some t')
  pub transfer_authority :
      (a b c : Pubkey) (n : ℕ) (t t' : Tokens)
      → spl.transfer a b n t ≡ some t'
      → authority_of (t' c) ≡ authority_of (t c)
  pub transfer_mint :
      (a b c : Pubkey) (n : ℕ) (t t' : Tokens)
      → spl.transfer a b n t ≡ some t'
      → mint_of (t' c) ≡ mint_of (t c)
  pub close_empty : (a : Pubkey) (t t' : Tokens) → spl.close_account a t ≡ some t' → balance t a ≡ 0
  pub close_gone : (a : Pubkey) (t t' : Tokens) → spl.close_account a t ≡ some t' → t' a ≡ none
  pub close_frame :
      (a c : Pubkey) (t t' : Tokens) → c ≢ a → spl.close_account a t ≡ some t' → t' c ≡ t c
  pub close_succeeds :
      (a : Pubkey) (t : Tokens)
      → t a ≢ none
      → balance t a ≡ 0
      → (t' : Tokens) × (spl.close_account a t ≡ some t')
  pub init_empty :
      (a mint authority : Pubkey) (t t' : Tokens)
      → spl.init_account a mint authority t ≡ some t'
      → (t a ≡ none) × (t' a ≡ some (record { mint = mint; authority = authority; amount = 0 }))
  pub init_frame :
      (a mint authority c : Pubkey) (t t' : Tokens)
      → c ≢ a
      → spl.init_account a mint authority t ≡ some t'
      → t' c ≡ t c

-- `init` on a program account: the slot must be free.
abbrev pub check_free : {A : Type 0} → Option A → Checked (Unit {0})
check_free none = ok tt
check_free (some _) = err (anchor AnchorError.account_already_in_use)

-- Loading an account that the instruction requires to exist.
abbrev pub load : {A : Type 0} → Option A → Checked A
load slot = ok_or slot (anchor AnchorError.account_not_initialized)
