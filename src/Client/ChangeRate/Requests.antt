-- ===== src/Client/ChangeRate/Requests.antt =====
-- The transaction that changes the rate, as requests to the program on the two subscriptions.

use nakama_sol_x.Prelude.{
  refl, ℕ, ◌≡◌, ap, ◌==◌, Bool, Bool-cases, ==_iff, inl, inr, is_some, Option, some, ok, arith,
  List, [], ◌∷◌, ◌++◌, none, false, true, if◌then◌else◌,
}
use nakama_sol_x.Program.State.{Pubkey}
use nakama_sol_x.Program.Accounts.{Pda}
use nakama_sol_x.Escrow.{Request, subscribe, cancel, cleanup}
use nakama_sol_x.Escrow.Wire.{trailing, instruction_of, instructions_of}
use nakama_sol_x.Escrow.Transactions.{closings, leaving}
use nakama_sol_x.Client.Views.{
  PaySessionView, PlanView, SubscriptionView, SubscriptionStateByte, unknown, from_byte,
}
use nakama_sol_x.Client.Addresses.{
  derive_subscription_pda, derive_vault_pda, derive_pay_session_pda, derive_grace_pda,
  derive_paused_sub_pda,
}
use nakama_sol_x.Client.Wire.{
  Crates, Rpc, Instruction, AccountMeta, new, new_readonly, spl_token_program_id,
  cancel_discriminator,
}
use nakama_sol_x.Client.Sessions.Derived.{numbers}
use nakama_sol_x.Client.Satellites.{select_cancel_satellites, satellite_metas, cancel_metas}
use nakama_sol_x.Client.ChangeRate.{
  ChangeRateOptions, close_derived, build_cleanup_ix, build_cancel_ix, build_close_session_ix,
}

abbrev chosen : Bool → Pubkey → Option Pubkey
chosen true k = some k
chosen false k = none

pair_eq : {A : Type 0} {a b c d : A} → a ≡ c → b ≡ d → ◌≡◌ {A = A × A} (a, b) (c, d)
pair_eq h k = cc

-- What the runtime grants an instruction: the account that pays for the transaction is writable in
-- every instruction, whatever that instruction says.
abbrev raised : Pubkey → AccountMeta → AccountMeta
raised payer m = if m.pubkey == payer then record m { is_writable = true } else m

abbrev all_raised : Pubkey → List AccountMeta → List AccountMeta
all_raised payer [] = []
all_raised payer (m ∷ rest) = raised payer m ∷ all_raised payer rest

abbrev pub granted : Pubkey → List Instruction → List Instruction
granted payer [] = []
granted payer (ix ∷ rest) =
    record ix { accounts = all_raised payer ix.accounts } ∷ granted payer rest

pub granted-append :
    (payer : Pubkey) (xs ys zs : List Instruction)
    → granted payer ys ≡ granted payer zs
    → granted payer (xs ++ ys) ≡ granted payer (xs ++ zs)
granted-append payer [] ys zs h = h
granted-append payer (x ∷ xs) ys zs h =
    ap (λ l. record x { accounts = all_raised payer x.accounts } ∷ l)
      (granted-append payer xs ys zs h)

module _ (pda : Pda) (crates : Crates) (node : Rpc) (opts : ChangeRateOptions) where
  abbrev pub old_pda : Pubkey
  old_pda = derive_subscription_pda pda opts.subscriber opts.old_plan

  abbrev pub new_pda : Pubkey
  new_pda = derive_subscription_pda pda opts.subscriber opts.new_plan

  abbrev pub spelled_old : List Request → Option (List Instruction)
  spelled_old = instructions_of crates pda opts.program_id opts.old_plan old_pda

  abbrev pub spelled_new : List Request → Option (List Instruction)
  spelled_new = instructions_of crates pda opts.program_id opts.new_plan new_pda

  pub closings-spelled :
      (listed : List (Pubkey × PaySessionView)) (rest : List Request) (ixs : List Instruction)
      → spelled_old rest ≡ some ixs
      → spelled_old (closings opts.subscriber (numbers pda old_pda listed) ++ rest)
        ≡ some (close_derived pda crates opts old_pda listed ++ ixs)
  unfolding instructions_of instruction_of build_close_session_ix
  closings-spelled [] rest ixs h = h
  closings-spelled ((address, view) ∷ listed) rest ixs h =
      let deep = closings-spelled listed rest ixs h in
      elim (Bool-cases (derive_pay_session_pda pda old_pda view.session_id == address)) [
        | inl derived ↦
            let at : derive_pay_session_pda pda old_pda view.session_id ≡ address =
              (==_iff _ address).0 derived in
            rw derived (
              rw deep (
                ap
                  (λ a. some (
                    build_close_session_ix crates opts.program_id old_pda a opts.subscriber
                    ∷ (close_derived pda crates opts old_pda listed ++ ixs)))
                  at))
        | inr other ↦ rw other deep
      ]

  -- The instructions that leave the old subscription, as requests.
  abbrev pub leaving_for : SubscriptionView → Bool → Bool → List ℕ → List Request
  leaving_for view graced paused ids =
      leaving opts.subscriber (derive_vault_pda pda old_pda) view.merchant_ata
        (crates.get_associated_token_address opts.subscriber view.token_mint) graced paused ids

  abbrev pub final : PlanView → List Request
  final plan =
      subscribe opts.subscriber plan.token_mint (derive_vault_pda pda new_pda)
        (crates.get_associated_token_address opts.subscriber plan.token_mint)
        opts.new_deposit_periods
      ∷ []

  satellites_lem :
      (byte : SubscriptionStateByte) (g p : Option Pubkey)
      → select_cancel_satellites byte pda old_pda ≡ ok (g, p)
      → (chosen (is_some g) (derive_grace_pda pda old_pda) ≡ g)
        × (chosen (is_some p) (derive_paused_sub_pda pda old_pda) ≡ p)
  unfolding select_cancel_satellites
  satellites_lem SubscriptionStateByte.active g p h = (ground arith, ground arith)
  satellites_lem SubscriptionStateByte.exhausted g p h = (ground arith, ground arith)
  satellites_lem SubscriptionStateByte.cancelled g p h = (ground arith, ground arith)
  satellites_lem SubscriptionStateByte.grace_period g p h = (ground arith, ground arith)
  satellites_lem SubscriptionStateByte.paused g p h = (ground arith, ground arith)
  satellites_lem (unknown b) g p h = absurd (ground arith)

  trailing_lem :
      (graced paused : Bool)
      → trailing crates pda opts.program_id opts.old_plan old_pda graced paused
        ≡ satellite_metas opts.program_id
            (chosen graced (derive_grace_pda pda old_pda))
            (chosen paused (derive_paused_sub_pda pda old_pda))
  unfolding satellite_metas
  trailing_lem false false = refl
  trailing_lem true false = refl
  trailing_lem false true = refl
  trailing_lem true true = refl

  -- The client's cancel instruction with the signer as the program declares it, read-only.
  abbrev pub declared_cancel : SubscriptionView → Option Pubkey → Option Pubkey → Instruction
  declared_cancel view g p = record {
    program_id = opts.program_id;
    accounts =
        (new_readonly opts.subscriber true
          ∷ new old_pda false
          ∷ new opts.subscriber false
          ∷ new (derive_vault_pda pda old_pda) false
          ∷ new view.merchant_ata false
          ∷ new (crates.get_associated_token_address opts.subscriber view.token_mint) false
          ∷ new_readonly spl_token_program_id false
          ∷ [])
        ++ satellite_metas opts.program_id g p;
    payload = cancel_discriminator crates;
  }

  pub cancel-spelled :
      (view : SubscriptionView) (g p : Option Pubkey)
      → select_cancel_satellites (from_byte view.state) pda old_pda ≡ ok (g, p)
      → spelled_old (
          cancel opts.subscriber opts.subscriber
            (derive_vault_pda pda old_pda)
            view.merchant_ata
            (crates.get_associated_token_address opts.subscriber view.token_mint)
            (is_some g)
            (is_some p)
          ∷ cleanup opts.subscriber
          ∷ [])
        ≡ some (
            declared_cancel view g p
            ∷ build_cleanup_ix crates opts.program_id old_pda opts.subscriber
            ∷ [])
  unfolding instructions_of instruction_of build_cleanup_ix
  cancel-spelled view g p h =
      let (graced, paused) = satellites_lem (from_byte view.state) g p h in
      rw (trailing_lem (is_some g) (is_some p)) (
        ap
          (λ w. some (
            declared_cancel view w.0 w.1
            ∷ build_cleanup_ix crates opts.program_id old_pda opts.subscriber
            ∷ []))
          (pair_eq graced paused))

  pub cancel-granted :
      (view : SubscriptionView) (g p : Option Pubkey) (rest : List Instruction)
      → granted opts.subscriber (declared_cancel view g p ∷ rest)
        ≡ granted opts.subscriber (
            build_cancel_ix crates opts.program_id opts.subscriber old_pda opts.subscriber
              (derive_vault_pda pda old_pda)
              view.merchant_ata
              (crates.get_associated_token_address opts.subscriber view.token_mint)
              (g, p)
            ∷ rest)
  unfolding build_cancel_ix cancel_metas
  cancel-granted view g p rest =
      let own : (opts.subscriber == opts.subscriber) ≡ true =
        (==_iff opts.subscriber opts.subscriber).1 refl in
      rw own refl
