-- ===== src/Client/Resubscribe/Requests.antt =====
-- The instructions that the client composes to subscribe again, as requests to the program.
use nakama_sol_x.Prelude.{
  ℕ, ◌≤◌, ◌≡◌, refl, Bool-cases, inl, inr, Option, none, some, ok, arith, if◌then◌else◌, List, [],
  ◌∷◌, ◌++◌,
}
use nakama_sol_x.Program.State.{Pubkey}
use nakama_sol_x.Program.Accounts.{Pda}
use nakama_sol_x.Escrow.{Request, subscribe, cleanup}
use nakama_sol_x.Escrow.Wire.{instruction_of, instructions_of}
use nakama_sol_x.Escrow.Transactions.{closings, renewal}
use nakama_sol_x.Client.Decode.{length}
use nakama_sol_x.Client.Addresses.{
  derive_subscription_pda, derive_vault_pda, derive_pay_session_pda,
}
use nakama_sol_x.Client.Wire.{Crates, Instruction}
use nakama_sol_x.Client.Resubscribe.{
  ResubscribeArgs, close_ixs, compose_ixs, refuse_alive, build_cleanup_ix, build_subscribe_ix,
  build_close_session_ix, build_resubscribe_ixs,
}

module _ (pda : Pda) (crates : Crates) (args : ResubscribeArgs) where
  abbrev pub own_pda : Pubkey
  own_pda = derive_subscription_pda pda args.subscriber args.plan

  abbrev pub own_ata : Pubkey
  own_ata = crates.get_associated_token_address args.subscriber args.token_mint

  -- The requests: to subscribe where there is no account, and to renew where there is a tombstone.
  abbrev pub requests_for : Option ℕ → List ℕ → List Request
  requests_for none ids =
      subscribe args.subscriber args.token_mint (derive_vault_pda pda own_pda) own_ata
        args.periods_to_prefund
      ∷ []
  requests_for (some s) ids =
      renewal args.subscriber args.token_mint (derive_vault_pda pda own_pda) own_ata
        args.periods_to_prefund (if args.close_alive_pay_sessions then ids else [])

  abbrev pub spelled : List Request → Option (List Instruction)
  spelled = instructions_of crates pda args.program_id args.plan own_pda

  abbrev pub addresses_of : List ℕ → List Pubkey
  addresses_of [] = []
  addresses_of (id ∷ ids) = derive_pay_session_pda pda own_pda id ∷ addresses_of ids

  abbrev leaves : List Pubkey → List Instruction
  leaves sessions =
      close_ixs crates args own_pda sessions
      ++ build_cleanup_ix crates args.program_id own_pda args.subscriber
        ∷ build_subscribe_ix pda crates args
        ∷ []

  pub length-addresses_of : (ids : List ℕ) → length (addresses_of ids) ≡ length ids
  length-addresses_of [] = refl
  length-addresses_of (id ∷ ids) = omega (arith, length-addresses_of ids)

  closings-spelled :
      (ids : List ℕ) (rest : List Request) (ixs : List Instruction)
      → spelled rest ≡ some ixs
      → spelled (closings args.subscriber ids ++ rest)
        ≡ some (close_ixs crates args own_pda (addresses_of ids) ++ ixs)
  unfolding instructions_of instruction_of build_close_session_ix
  closings-spelled [] rest ixs h = h
  closings-spelled (id ∷ ids) rest ixs h = rw (closings-spelled ids rest ixs h) refl

  renewed :
      (ids : List ℕ)
      → spelled (
          closings args.subscriber ids
          ++ cleanup args.subscriber
            ∷ subscribe args.subscriber args.token_mint
                (derive_vault_pda pda own_pda)
                own_ata
                args.periods_to_prefund
            ∷ [])
        ≡ some (
            close_ixs crates args own_pda (addresses_of ids)
            ++ build_cleanup_ix crates args.program_id own_pda args.subscriber
              ∷ build_subscribe_ix pda crates args
              ∷ [])
  unfolding instructions_of instruction_of build_cleanup_ix build_subscribe_ix
  renewed ids = closings-spelled ids _ _ refl

  -- Where the account is missing or a tombstone, and at most four sessions are to be closed, the
  -- builder returns exactly the instructions that the program's own account lists and arguments
  -- spell: to close these sessions where that is asked for, to clean up, and to subscribe.
  pub build_resubscribe_ixs-spelled :
      (state : Option ℕ) (ids : List ℕ)
      → refuse_alive state ≡ ok tt
      → length ids ≤ 4
      → (ixs : List Instruction) × (build_resubscribe_ixs pda crates args state (addresses_of ids)
          ≡ ok ixs)
        × (spelled (requests_for state ids) ≡ some ixs)
  unfolding build_resubscribe_ixs compose_ixs instructions_of instruction_of build_subscribe_ix
  build_resubscribe_ixs-spelled none ids fit few =
      (build_subscribe_ix pda crates args ∷ [], ground arith, refl)
  build_resubscribe_ixs-spelled (some s) ids fit few =
      let n = length-addresses_of ids in
      elim (Bool-cases args.close_alive_pay_sessions) [
        | inl closing ↦ (
          leaves (addresses_of ids),
          ground (arith, n, fit, few, closing),
          rw closing (renewed ids),
        )
        | inr keeping ↦ (leaves [], ground (arith, n, fit, few, keeping), rw keeping (renewed []))
      ]
