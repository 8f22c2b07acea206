-- ===== src/Tests/Token.antt =====
-- A token program and an address scheme that behave as the model assumes.
use Prim.Native.Nat.{Ordering}
use Prim.Native.String.{compare}
use nakama_sol_x.Prelude.{
  ℕ, ◌+◌, ◌-◌, ◌*◌, ◌<◌, ◌≤◌, ◌≡◌, ◌≢◌, inl, inr, Bool, true, false, Option, none, some, List, [],
  ◌∷◌, String, ◌==◌, leb, ltb, ◌&&◌, if◌then◌else◌, arith, u64_bound, Option-cases,
}
use nakama_sol_x.Program.State.{Pubkey}
use nakama_sol_x.Program.Accounts.{
  Seed, text, key, le_bytes, Pda, SplToken, SplLaws, Tokens, TokenAccount, balance, mint_of,
}

abbrev pub put : Tokens → Pubkey → Option TokenAccount → Tokens
put t k v j = if j == k then v else t j

abbrev moved : Pubkey → Pubkey → ℕ → Tokens → TokenAccount → TokenAccount → Tokens
moved a b n t x y =
    put (put t a (some (record x { amount = x.amount - n }))) b
      (some (record y { amount = y.amount + n }))

-- Between open accounts of one mint; an account that pays itself keeps its balance.
abbrev between :
    Pubkey → Pubkey → ℕ → Tokens → Option TokenAccount → Option TokenAccount → Option Tokens
between a b n t (some x) (some y) =
    if (x.mint == y.mint) && leb n x.amount && ltb (y.amount + n) u64_bound
    then some (if a == b then t else moved a b n t x y)
    else none
between a b n t _ _ = none

unfoldable pub transfer : Pubkey → Pubkey → ℕ → Tokens → Option Tokens
transfer a b n t = between a b n t (t a) (t b)

abbrev closed_from : Pubkey → Tokens → Option TokenAccount → Option Tokens
closed_from a t none = none
closed_from a t (some x) = if x.amount == 0 then some (put t a none) else none

unfoldable pub close_account : Pubkey → Tokens → Option Tokens
close_account a t = closed_from a t (t a)

abbrev opened_at : Pubkey → TokenAccount → Tokens → Option TokenAccount → Option Tokens
opened_at a x t none = some (put t a (some x))
opened_at a x t (some y) = none

unfoldable pub init_account : Pubkey → Pubkey → Pubkey → Tokens → Option Tokens
init_account a mint authority t =
    opened_at a (record { mint = mint; authority = authority; amount = 0 }) t (t a)

abbrev pub token_program : SplToken
token_program = record {
  transfer = transfer;
  close_account = close_account;
  init_account = init_account;
}

-- A transfer that goes through.
record Moved (a b : Pubkey) (n : ℕ) (t t' : Tokens) (x y : TokenAccount) : Type 0 where
  source : t a ≡ some x
  target : t b ≡ some y
  same_mint : x.mint ≡ y.mint
  covered : n ≤ x.amount
  result : t' ≡ (if a == b then t else moved a b n t x y)

transfer-Moved :
    (a b : Pubkey) (n : ℕ) (t t' : Tokens)
    → transfer a b n t ≡ some t'
    → (x : TokenAccount) × (y : TokenAccount) × Moved a b n t t' x y
unfolding transfer
transfer-Moved a b n t t' h = elim (Option-cases (t a)) [
  | inl shut ↦ absurd (ground arith)
  | inr (x, ex) ↦ elim (Option-cases (t b)) [
    | inl shut ↦ absurd (ground arith)
    | inr (y, ey) ↦ (x, y, ground arith)
  ]
]

transfer_total :
    (a b : Pubkey) (n : ℕ) (t : Tokens)
    → t a ≢ none
    → t b ≢ none
    → mint_of (t a) ≡ mint_of (t b)
    → n ≤ balance t a
    → balance t b + n < u64_bound
    → (t' : Tokens) × (transfer a b n t ≡ some t')
unfolding transfer
transfer_total a b n t ao bo mint covered room = elim (Option-cases (t a)) [
  | inl shut ↦ absurd (ao shut)
  | inr (x, ex) ↦ elim (Option-cases (t b)) [
    | inl shut ↦ absurd (bo shut)
    | inr (y, ey) ↦ (if a == b then t else moved a b n t x y, ground arith)
  ]
]

close_total :
    (a : Pubkey) (t : Tokens)
    → t a ≢ none
    → balance t a ≡ 0
    → (t' : Tokens) × (close_account a t ≡ some t')
unfolding close_account
close_total a t open_account empty = elim (Option-cases (t a)) [
  | inl shut ↦ absurd (open_account shut)
  | inr (x, ex) ↦ (put t a none, ground arith)
]

pub token_program-SplLaws : SplLaws token_program
unfolding close_account init_account
token_program-SplLaws = record {
  transfer_debits = λ a b n t t' ne h.
      let (x, y, m) = transfer-Moved a b n t t' h in
      rw m.result (ground (arith, m.source, m.target, m.covered));
  transfer_credits = λ a b n t t' ne h.
      let (x, y, m) = transfer-Moved a b n t t' h in
      rw m.result (ground (arith, m.source, m.target, m.covered));
  transfer_frame = λ a b c n t t' ca cb h.
      let (x, y, m) = transfer-Moved a b n t t' h in rw m.result (ground arith);
  transfer_succeeds = transfer_total;
  transfer_authority = λ a b c n t t' h.
      let (x, y, m) = transfer-Moved a b n t t' h in
      rw m.result (ground (arith, m.source, m.target));
  transfer_mint = λ a b c n t t' h.
      let (x, y, m) = transfer-Moved a b n t t' h in
      rw m.result (ground (arith, m.source, m.target));
  close_empty = λ a t t' h. elim (Option-cases (t a)) [
    | inl shut ↦ absurd (ground arith)
    | inr (x, ex) ↦ ground arith
  ];
  close_gone = λ a t t' h. elim (Option-cases (t a)) [
    | inl shut ↦ absurd (ground arith)
    | inr (x, ex) ↦ let e : t' ≡ put t a none = ground arith in rw e (ground arith)
  ];
  close_frame = λ a c t t' ne h. elim (Option-cases (t a)) [
    | inl shut ↦ absurd (ground arith)
    | inr (x, ex) ↦ let e : t' ≡ put t a none = ground arith in rw e (ground arith)
  ];
  close_succeeds = close_total;
  init_empty = λ a mint authority t t' h. elim (Option-cases (t a)) [
    | inr (x, ex) ↦ absurd (ground arith)
    | inl free ↦
        let e : t' ≡ put t a (some (record { mint = mint; authority = authority; amount = 0 })) =
          ground arith in
        (free, rw e (ground arith))
  ];
  init_frame = λ a mint authority c t t' ne h. elim (Option-cases (t a)) [
    | inr (x, ex) ↦ absurd (ground arith)
    | inl free ↦
        let e : t' ≡ put t a (some (record { mint = mint; authority = authority; amount = 0 })) =
          ground arith in
        rw e (ground arith)
  ];
}

-- Each kind of address in a range of its own.
abbrev same_text : String → String → Bool
same_text s t = elim (compare s t) [ Ordering.eq ↦ true | _ ↦ false ]

abbrev base : String → ℕ
base t =
    if same_text t "plan"
    then 10000
    else if same_text t "sub"
    then 20000
    else if same_text t "vault"
    then 30000
    else if same_text t "grace"
    then 40000
    else if same_text t "paused_sub"
    then 50000
    else 60000

abbrev seed_value : Seed → ℕ
seed_value (text t) = base t
seed_value (key k) = k
seed_value (le_bytes n) = 100 * n

abbrev total : List Seed → ℕ
total [] = 0
total (s ∷ seeds) = seed_value s + total seeds

abbrev pub addresses : Pda
addresses = record { address = λ seeds bump. total seeds + bump; canonical_bump = λ seeds. 255 }
