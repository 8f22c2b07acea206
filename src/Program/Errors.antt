-- ===== src/Program/Errors.antt =====
-- nakama/programs/nakama/src/error.rs, with the other ways in which a transaction fails: a
-- declarative Anchor constraint, a failed token instruction, a panic of checked arithmetic.
use nakama_sol_x.Prelude.{Result}

pub data NakamaError : Type 0 where
  zero_period zero_price zero_periods_to_fund zero_rate_per_second : NakamaError
  insufficient_unlocked_funds clock_backwards math_overflow : NakamaError
  illegal_state_for_cancel illegal_state_for_charge unauthorized_cancel : NakamaError
  duplicate_ata_and_vault ata_mismatch mint_mismatch vault_owner_mismatch : NakamaError
  illegal_state_for_cleanup unauthorized_cleanup illegal_state_for_top_up : NakamaError
  illegal_amount_for_top_up missing_grace_satellite no_cancel_authority : NakamaError
  subscriber_account_mismatch unauthorized_open_session parent_not_active : NakamaError
  reservation_cap_exceeds_escrow illegal_amount_for_settle illegal_state_for_settle : NakamaError
  reservation_cap_exceeded unauthorized_facilitator pay_session_parent_mismatch : NakamaError
  illegal_state_for_close unauthorized_close arithmetic_overflow : NakamaError
  pay_session_merchant_ata_mismatch unauthorized_pause illegal_state_for_pause : NakamaError
  unauthorized_resume illegal_state_for_resume unexpected_grace_satellite : NakamaError
  invalid_period : NakamaError

-- The built-in errors of the account attributes that the program declares.
pub data AnchorError : Type 0 where
  account_not_initialized account_already_in_use constraint_has_one : AnchorError
  constraint_address constraint_seeds constraint_token_mint constraint_token_owner : AnchorError

pub data Error : Type 0 where
  custom : NakamaError → Error
  anchor : AnchorError → Error
  token_error panic : Error

abbrev pub Checked : Type 0 → Type 0
Checked A = Result Error A
