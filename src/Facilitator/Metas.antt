-- ===== src/Facilitator/Metas.antt =====
-- The account lists of handlers/open_session.rs, settle_usage.rs and close_session.rs of the
-- facilitator, and what all its lists spell.
use nakama_sol_x.Prelude.{
  ℕ, ◌≡◌, refl, if◌then◌else◌, Bool, true, false, is_some, Option, none, some, List, [], ◌∷◌,
}
use nakama_sol_x.Program.State.{Pubkey, Subscription}
use nakama_sol_x.Program.Accounts.{Pda}
use nakama_sol_x.Escrow.{Escrow, Request, top_up, open_session, settle_usage, close_session}
use nakama_sol_x.Escrow.Invariant.{Live}
use nakama_sol_x.Escrow.Wire.{instruction_of, optional_meta}
use nakama_sol_x.Client.Views.{from_byte, state_byte}
use nakama_sol_x.Client.Addresses.{derive_grace_pda, derive_pay_session_pda}
use nakama_sol_x.Client.Wire.{
  AccountMeta, new, new_readonly, Crates, Instruction, spl_token_program_id, system_program_id,
}
use nakama_sol_x.Facilitator.TopUp.{build_top_up_metas}
use nakama_sol_x.Facilitator.TopUp.Guards.{is_grace_byte-Live}

unfoldable pub build_open_session_metas : Pubkey → Pubkey → Pubkey → Pubkey → List AccountMeta
build_open_session_metas parent pay_session subscriber system_program =
    new_readonly parent false
    ∷ new pay_session false
    ∷ new subscriber true
    ∷ new_readonly system_program false
    ∷ []

unfoldable pub build_settle_usage_metas :
    Pubkey → Pubkey → Pubkey → Pubkey → Pubkey → Pubkey → List AccountMeta
build_settle_usage_metas parent pay_session vault merchant_ata facilitator token_program =
    new parent false
    ∷ new pay_session false
    ∷ new vault false
    ∷ new merchant_ata false
    ∷ new_readonly facilitator true
    ∷ new_readonly token_program false
    ∷ []

unfoldable pub build_close_session_metas : Pubkey → Pubkey → Pubkey → List AccountMeta
build_close_session_metas parent pay_session subscriber =
    new_readonly parent false ∷ new pay_session false ∷ new subscriber true ∷ []

-- The accounts of an instruction.
abbrev pub accounts_of : Option Instruction → List AccountMeta
accounts_of none = []
accounts_of (some i) = i.accounts

module _ (crates : Crates) (pda : Pda) (program_id plan_key key : Pubkey) where
  abbrev spells : Request → List AccountMeta
  spells r = accounts_of (instruction_of crates pda program_id plan_key key r)

  -- A satellite that may be absent, spelled with a test.
  slot_lem :
      (attach : Bool) {signer vault ata : Pubkey}
      → ◌≡◌ {A = List AccountMeta}
          (new signer true
            ∷ new key false
            ∷ (if attach
                then new (derive_grace_pda pda key) false
                else new_readonly program_id false)
            ∷ new vault false
            ∷ new ata false
            ∷ new_readonly spl_token_program_id false
            ∷ [])
          (new signer true
            ∷ new key false
            ∷ optional_meta crates pda program_id plan_key key attach (derive_grace_pda pda key)
            ∷ new vault false
            ∷ new ata false
            ∷ new_readonly spl_token_program_id false
            ∷ [])
  slot_lem true = refl
  slot_lem false = refl

  -- For an escrow that satisfies the program's invariant, the facilitator's account list of a
  -- top-up is that of the program's own declaration with the grace satellite attached exactly if it
  -- exists, and its lists for the pay sessions are those of the program's declarations.
  pub metas-Live :
      (s : Subscription) (e : Escrow) (signer vault ata : Pubkey) (amount id : ℕ)
      (facilitator : Pubkey) (limit : ℕ)
      → Live pda key s e
      → (build_top_up_metas signer key program_id
            (derive_grace_pda pda key)
            vault
            ata
            spl_token_program_id
            (from_byte (state_byte s.state))
          ≡ spells (top_up signer vault ata (is_some e.graced) amount))
        × (build_open_session_metas key (derive_pay_session_pda pda key id) signer system_program_id
            ≡ spells (open_session signer id facilitator limit))
        × (build_settle_usage_metas key
              (derive_pay_session_pda pda key id)
              vault
              ata
              facilitator
              spl_token_program_id
            ≡ spells (settle_usage facilitator vault ata id amount))
        × (build_close_session_metas key (derive_pay_session_pda pda key id) signer
            ≡ spells (close_session signer id))
  unfolding instruction_of build_top_up_metas build_open_session_metas build_settle_usage_metas
      build_close_session_metas
  metas-Live s e signer vault ata amount id facilitator limit live =
      let right = is_grace_byte-Live pda key s e live in
      (rw right (slot_lem (is_some e.graced)), refl, refl, refl)
