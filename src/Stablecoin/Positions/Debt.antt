-- ===== src/Stablecoin/Positions/Debt.antt =====
-- Borrowing and repaying: programs/stablecoin/src/generate_debt.rs and repay_debt.rs.
use lez_programs.Shared.{
  ℕ, not, ◌==◌, List, [], ◌∷◌, ◌++◌, Result, ok, ◌>>=◌, ◌>>◌, guard, expect, checked_add,
  checked_sub,
}
use lez_programs.Host.{AccountId, AccountWithMetadata, AccountStateDiff, new, unchanged}
use lez_programs.Token.Core.{Instruction}
use lez_programs.Amm.Core.{ChainedCall}
use lez_programs.Stablecoin.Core.{Panic, fixed_point_one}
use lez_programs.Stablecoin.Math.{mul_div, mul_div_ceil}
use lez_programs.Stablecoin.State.{
  Position, ProtocolParameters, StabilityFeeAccumulator, RedemptionPriceState, StablecoinHost,
  compute_stablecoin_definition_pda_seed, compute_redemption_price_state_pda,
}
use lez_programs.Stablecoin.Checks.{
  accrue_fees, assert_secure, token_call, initialized, read_global, read_parameters,
  read_accumulator, read_clock, read_position, read_holding, surplus_mint_call,
}

pub record GenerateAccounts (Data : Type 0) : Type 0 where
  pub owner : AccountWithMetadata Data
  pub position : AccountWithMetadata Data
  pub stablecoin_definition : AccountWithMetadata Data
  pub user_stablecoin_holding : AccountWithMetadata Data
  pub stablecoin_master_holding : AccountWithMetadata Data
  pub stability_fee_accumulator : AccountWithMetadata Data
  pub redemption_price_state : AccountWithMetadata Data
  pub protocol_parameters : AccountWithMetadata Data
  pub clock : AccountWithMetadata Data

pub record RepayAccounts (Data : Type 0) : Type 0 where
  pub owner : AccountWithMetadata Data
  pub position : AccountWithMetadata Data
  pub stablecoin_definition : AccountWithMetadata Data
  pub user_stablecoin_holding : AccountWithMetadata Data
  pub stablecoin_master_holding : AccountWithMetadata Data
  pub stability_fee_accumulator : AccountWithMetadata Data
  pub protocol_parameters : AccountWithMetadata Data
  pub clock : AccountWithMetadata Data

-- The debt of a new loan, rounded up, on the position and on the total.
unfoldable pub borrow :
    Position → StabilityFeeAccumulator → ℕ → Result Panic (Position × StabilityFeeAccumulator)
borrow position accrued amount = do
  debt_delta ← mul_div_ceil amount fixed_point_one accrued.accumulated_rate_at_last_accrual
  new_debt ← expect (checked_add position.normalized_debt_amount debt_delta) Panic.debt_overflow
  total ← expect (checked_add accrued.total_normalized_debt debt_delta) Panic.total_debt_overflow
  ok (
    record position { normalized_debt_amount = new_debt },
    record accrued { total_normalized_debt = total },
  )

-- The debt that a payment settles, rounded down, off the position and the total.
unfoldable pub settle :
    Position → StabilityFeeAccumulator → ℕ → Result Panic (Position × StabilityFeeAccumulator)
settle position accrued amount = do
  debt_delta ← mul_div amount fixed_point_one accrued.accumulated_rate_at_last_accrual
  new_debt ← expect (checked_sub position.normalized_debt_amount debt_delta) Panic.debt_underflow
  total ← expect (checked_sub accrued.total_normalized_debt debt_delta) Panic.total_debt_underflow
  ok (
    record position { normalized_debt_amount = new_debt },
    record accrued { total_normalized_debt = total },
  )

module _ {Data : Type 0} (h : StablecoinHost Data) where
  -- The checks of `generate_debt`, and what it reads.
  unfoldable pub check_generate :
      GenerateAccounts Data
      → AccountId
      → Result Panic
          (Position × ProtocolParameters × StabilityFeeAccumulator × RedemptionPriceState × ℕ)
  check_generate a program = do
    guard a.owner.is_authorized Panic.not_authorized
    position ← read_position h a.owner a.position program
    parameters ← read_parameters h a.protocol_parameters program
    guard (not parameters.is_frozen) Panic.frozen
    accumulator ← read_accumulator h a.stability_fee_accumulator program
    redemption ←
        read_global h h.redemptions a.redemption_price_state
          (compute_redemption_price_state_pda h program) program
    now ← read_clock h a.clock
    guard (a.stablecoin_definition.account_id == parameters.stablecoin_definition_id)
        Panic.wrong_definition
    initialized h a.stablecoin_definition
    initialized h a.user_stablecoin_holding
    guard
        (a.user_stablecoin_holding.account.program_owner
          == a.stablecoin_definition.account.program_owner)
        Panic.wrong_token_program
    _ ← read_holding h a.user_stablecoin_holding a.stablecoin_definition.account_id
    ok (position, parameters, accumulator, redemption, now)

  abbrev pub generate_diffs :
      GenerateAccounts Data → Position → StabilityFeeAccumulator → List (AccountStateDiff Data)
  generate_diffs a position accumulator =
      unchanged a.owner
      ∷ new a.position (h.positions.into position)
      ∷ unchanged a.stablecoin_definition
      ∷ unchanged a.user_stablecoin_holding
      ∷ unchanged a.stablecoin_master_holding
      ∷ new a.stability_fee_accumulator (h.accumulators.into accumulator)
      ∷ unchanged a.redemption_price_state
      ∷ unchanged a.protocol_parameters
      ∷ unchanged a.clock
      ∷ []

  abbrev pub mint_call : GenerateAccounts Data → ℕ → ChainedCall
  mint_call a amount =
      token_call a.stablecoin_definition.account.program_owner
        (a.stablecoin_definition.account_id ∷ a.user_stablecoin_holding.account_id ∷ [])
        (Instruction.mint amount) (compute_stablecoin_definition_pda_seed h ∷ [])

  unfoldable pub generate_debt :
      GenerateAccounts Data
      → AccountId
      → ℕ
      → Result Panic (List (AccountStateDiff Data) × List ChainedCall)
  generate_debt a stablecoin_program_id amount = do
    (position, parameters, accumulator, redemption, now) ← check_generate a stablecoin_program_id
    accrual ← accrue_fees parameters accumulator now
    surplus_mint ←
        surplus_mint_call h a.stablecoin_definition a.stablecoin_master_holding parameters
          stablecoin_program_id accrual.accrued_fees
    (position', accumulator') ← borrow position accrual.accumulator amount
    assert_secure position' accrual.accumulator.accumulated_rate_at_last_accrual redemption now
        parameters
    ok (generate_diffs a position' accumulator', surplus_mint ++ (mint_call a amount ∷ []))

  -- The checks of `repay_debt`, and what it reads.
  unfoldable pub check_repay :
      RepayAccounts Data
      → AccountId
      → Result Panic (Position × ProtocolParameters × StabilityFeeAccumulator × ℕ)
  check_repay a program = do
    guard a.owner.is_authorized Panic.not_authorized
    position ← read_position h a.owner a.position program
    guard a.user_stablecoin_holding.is_authorized Panic.not_authorized
    parameters ← read_parameters h a.protocol_parameters program
    guard (a.stablecoin_definition.account_id == parameters.stablecoin_definition_id)
        Panic.wrong_definition
    initialized h a.user_stablecoin_holding
    initialized h a.stablecoin_definition
    guard
        (a.user_stablecoin_holding.account.program_owner
          == a.stablecoin_definition.account.program_owner)
        Panic.wrong_token_program
    _ ← read_holding h a.user_stablecoin_holding a.stablecoin_definition.account_id
    accumulator ← read_accumulator h a.stability_fee_accumulator program
    now ← read_clock h a.clock
    ok (position, parameters, accumulator, now)

  abbrev pub repay_diffs :
      RepayAccounts Data → Position → StabilityFeeAccumulator → List (AccountStateDiff Data)
  repay_diffs a position accumulator =
      unchanged a.owner
      ∷ new a.position (h.positions.into position)
      ∷ unchanged a.stablecoin_definition
      ∷ unchanged a.user_stablecoin_holding
      ∷ unchanged a.stablecoin_master_holding
      ∷ new a.stability_fee_accumulator (h.accumulators.into accumulator)
      ∷ unchanged a.protocol_parameters
      ∷ unchanged a.clock
      ∷ []

  abbrev pub burn_call : RepayAccounts Data → ℕ → ChainedCall
  burn_call a amount =
      token_call a.user_stablecoin_holding.account.program_owner
        (a.stablecoin_definition.account_id ∷ a.user_stablecoin_holding.account_id ∷ [])
        (Instruction.burn amount) []

  unfoldable pub repay_debt :
      RepayAccounts Data
      → AccountId
      → ℕ
      → Result Panic (List (AccountStateDiff Data) × List ChainedCall)
  repay_debt a stablecoin_program_id amount = do
    (position, parameters, accumulator, now) ← check_repay a stablecoin_program_id
    accrual ← accrue_fees parameters accumulator now
    surplus_mint ←
        surplus_mint_call h a.stablecoin_definition a.stablecoin_master_holding parameters
          stablecoin_program_id accrual.accrued_fees
    (position', accumulator') ← settle position accrual.accumulator amount
    ok (repay_diffs a position' accumulator', surplus_mint ++ (burn_call a amount ∷ []))
