-- ===== src/Client/Addresses.antt =====
-- crates/nakama-client/src/pda.rs: the addresses that the clients derive. `find_program_address` is
-- the parameter `Pda`, for the program that the client talks to; the bump is left out.
use nakama_sol_x.Prelude.{ℕ}
use nakama_sol_x.Program.State.{Pubkey}
use nakama_sol_x.Program.Accounts.{
  Pda, sub_seeds, vault_seeds, grace_seeds, paused_sub_seeds, pay_session_seeds,
}

abbrev pub derive_subscription_pda : Pda → Pubkey → Pubkey → Pubkey
derive_subscription_pda pda subscriber plan =
    pda.address (sub_seeds subscriber plan) (pda.canonical_bump (sub_seeds subscriber plan))

abbrev pub derive_vault_pda : Pda → Pubkey → Pubkey
derive_vault_pda pda subscription =
    pda.address (vault_seeds subscription) (pda.canonical_bump (vault_seeds subscription))

abbrev pub derive_grace_pda : Pda → Pubkey → Pubkey
derive_grace_pda pda subscription =
    pda.address (grace_seeds subscription) (pda.canonical_bump (grace_seeds subscription))

abbrev pub derive_paused_sub_pda : Pda → Pubkey → Pubkey
derive_paused_sub_pda pda subscription =
    pda.address (paused_sub_seeds subscription) (pda.canonical_bump (paused_sub_seeds subscription))

abbrev pub derive_pay_session_pda : Pda → Pubkey → ℕ → Pubkey
derive_pay_session_pda pda subscription session_id =
    pda.address (pay_session_seeds subscription session_id)
      (pda.canonical_bump (pay_session_seeds subscription session_id))
