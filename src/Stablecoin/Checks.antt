-- ===== src/Stablecoin/Checks.antt =====
-- The checks that the handlers of programs/stablecoin/src share: checks.rs, the clock and the fees
-- of accrue_stability_fee.rs.
use lez_programs.Shared.{
  ℕ, not, ltb, ◌==◌, if◌then◌else◌, List, [], ◌∷◌, Result, ok, ◌>>=◌, ◌>>◌, guard, expect,
  checked_sub,
}
use lez_programs.Host.{AccountId, AccountWithMetadata, Codec}
use lez_programs.Token.Core.{TokenHolding, Instruction, definition_id}
use lez_programs.Amm.Core.{ChainedCall, CallInstruction}
use lez_programs.Stablecoin.Core.{Panic, fixed_point_one}
use lez_programs.Stablecoin.Math.{
  mul_div, compute_current_accumulated_rate, compute_current_redemption_price_wide,
}
use lez_programs.Stablecoin.Collateralization.{collateralization_values, is_collateralized}
use lez_programs.Stablecoin.State.{
  Position, ProtocolParameters, RedemptionPriceState, StabilityFeeAccumulator, StablecoinHost,
  compute_stablecoin_master_holding_pda, compute_stablecoin_definition_pda_seed,
  compute_protocol_parameters_pda, compute_stability_fee_accumulator_pda,
  verify_position_and_get_seed,
}

unfoldable pub assert_position_is_collateralized : Position → ℕ → ℕ → ℕ → Result Panic (Unit {0})
assert_position_is_collateralized position current_accumulator current_redemption_price
      minimum_collateralization_ratio =
    if position.normalized_debt_amount == 0
    then ok tt
    else guard
        (is_collateralized (
          collateralization_values position.collateral_amount position.normalized_debt_amount
            current_accumulator current_redemption_price minimum_collateralization_ratio))
        Panic.undercollateralized

-- The redemption price, projected to now, is not 0, and the position is collateralized at it.
unfoldable pub assert_secure :
    Position → ℕ → RedemptionPriceState → ℕ → ProtocolParameters → Result Panic (Unit {0})
assert_secure position current_accumulator redemption now parameters = do
  current_redemption_price ←
      compute_current_redemption_price_wide redemption.redemption_price_at_last_update
        redemption.redemption_rate_per_millisecond redemption.last_updated_at now
  guard (not (current_redemption_price == 0)) Panic.price_is_zero
  assert_position_is_collateralized position current_accumulator current_redemption_price
      parameters.minimum_collateralization_ratio

-- A call of the token program.
abbrev pub token_call : AccountId → List AccountId → Instruction → List ℕ → ChainedCall
token_call program accounts instruction seeds = record {
  program_id = program;
  account_ids = accounts;
  instruction = CallInstruction.token instruction;
  pda_seeds = seeds;
}

-- The accumulator advanced to now, and the fees that accrued.
pub record FeeAccrual : Type 0 where
  pub accumulator : StabilityFeeAccumulator
  pub accrued_fees : ℕ

unfoldable pub accrue_fees :
    ProtocolParameters → StabilityFeeAccumulator → ℕ → Result Panic FeeAccrual
accrue_fees params accumulator now = do
  current ←
      compute_current_accumulated_rate accumulator.accumulated_rate_at_last_accrual
        params.stability_fee_per_millisecond accumulator.last_accrued_at now
  rate_delta ←
      expect (checked_sub current accumulator.accumulated_rate_at_last_accrual)
        Panic.accumulator_decreased
  accrued_fees ← mul_div accumulator.total_normalized_debt rate_delta fixed_point_one
  ok (record {
    accumulator = record {
      accumulated_rate_at_last_accrual = current;
      last_accrued_at = now;
      total_normalized_debt = accumulator.total_normalized_debt;
    };
    accrued_fees = accrued_fees;
  })

module _ {Data : Type 0} (h : StablecoinHost Data) where
  -- `assert_ne!(account.account, Account::default())`
  abbrev pub initialized : AccountWithMetadata Data → Result Panic (Unit {0})
  initialized a = guard (not (h.is_default a.account)) Panic.not_initialized

  unfoldable pub decode_global :
      AccountWithMetadata Data → AccountId → AccountId → Result Panic Data
  decode_global a expected_id stablecoin_program_id = do
    initialized a
    guard (a.account.program_owner == stablecoin_program_id) Panic.not_owned
    guard (a.account_id == expected_id) Panic.wrong_address
    ok a.account.account_data

  -- `ProtocolParameters::try_from(&decode_global(...)).expect(...)`, and so on.
  abbrev pub read_global :
      {A : Type 0}
      → Codec Data A
      → AccountWithMetadata Data
      → AccountId
      → AccountId
      → Result Panic A
  read_global codec a expected_id stablecoin_program_id = do
    content ← decode_global a expected_id stablecoin_program_id
    expect (codec.try_from content) Panic.invalid_data

  abbrev pub read_parameters :
      AccountWithMetadata Data → AccountId → Result Panic ProtocolParameters
  read_parameters a stablecoin_program_id =
      read_global h.parameters a (compute_protocol_parameters_pda h stablecoin_program_id)
        stablecoin_program_id

  abbrev pub read_accumulator :
      AccountWithMetadata Data → AccountId → Result Panic StabilityFeeAccumulator
  read_accumulator a stablecoin_program_id =
      read_global h.accumulators a (compute_stability_fee_accumulator_pda h stablecoin_program_id)
        stablecoin_program_id

  unfoldable pub read_clock : AccountWithMetadata Data → Result Panic ℕ
  read_clock clock = do
    guard (clock.account_id == h.clock_01_program_account_id) Panic.wrong_clock
    initialized clock
    expect (h.clock_timestamp clock.account.account_data) Panic.invalid_data

  -- The checks of a position that the handlers repeat: it is initialized, the program's own, at
  -- the address of its owner and nonce, and names its owner.
  unfoldable pub read_position :
      AccountWithMetadata Data → AccountWithMetadata Data → AccountId → Result Panic Position
  read_position owner position stablecoin_program_id = do
    initialized position
    guard (position.account.program_owner == stablecoin_program_id) Panic.not_owned
    position_data ← expect (h.positions.try_from position.account.account_data) Panic.invalid_data
    _ ←
        verify_position_and_get_seed h position owner position_data.position_nonce
          stablecoin_program_id
    guard (position_data.owner_account_id == owner.account_id) Panic.wrong_owner
    ok position_data

  -- A holding of the token that the definition names.
  unfoldable pub read_holding : AccountWithMetadata Data → AccountId → Result Panic TokenHolding
  read_holding a definition = do
    held ← expect (h.token_holdings.try_from a.account.account_data) Panic.invalid_data
    guard (definition_id held == definition) Panic.wrong_definition
    ok held

  unfoldable pub surplus_mint_call :
      AccountWithMetadata Data
      → AccountWithMetadata Data
      → ProtocolParameters
      → AccountId
      → ℕ
      → Result Panic (List ChainedCall)
  surplus_mint_call stablecoin_definition stablecoin_master_holding parameters stablecoin_program_id
        accrued_fees =
      do
        guard (stablecoin_definition.account_id == parameters.stablecoin_definition_id)
            Panic.wrong_definition
        initialized stablecoin_definition
        guard
            (stablecoin_master_holding.account_id
              == compute_stablecoin_master_holding_pda h stablecoin_program_id)
            Panic.wrong_address
        initialized stablecoin_master_holding
        let token_program_id = stablecoin_definition.account.program_owner
        guard (stablecoin_master_holding.account.program_owner == token_program_id)
            Panic.wrong_token_program
        ok (
            if ltb 0 accrued_fees
            then token_call token_program_id
                (stablecoin_definition.account_id ∷ stablecoin_master_holding.account_id ∷ [])
                (Instruction.mint accrued_fees) (compute_stablecoin_definition_pda_seed h ∷ [])
              ∷ []
            else [])
