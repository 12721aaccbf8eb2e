-- ===== src/Stablecoin/Admin/Bootstrap.antt =====
-- The bootstrap of the stablecoin: programs/stablecoin/src/initialize_program.rs.
use Prim.Native.String.{String}
use lez_programs.Shared.{
  ℕ, not, leb, ◌==◌, Bool, true, false, bytes_of, List, [], ◌∷◌, some, ℤ, pos, Result, ok, ◌>>=◌,
  ◌>>◌, guard, expect,
}
use lez_programs.Host.{AccountId, AccountWithMetadata, AccountStateDiff, new, unchanged}
use lez_programs.Token.Core.{TokenDefinition, Instruction}
use lez_programs.Amm.Core.{ChainedCall, CallInstruction}
use lez_programs.Stablecoin.Core.{
  Panic, fixed_point_one, minimum_redemption_price, maximum_redemption_price,
}
use lez_programs.Stablecoin.State.{
  ProtocolParameters, StabilityFeeAccumulator, RedemptionPriceState, StablecoinHost,
  compute_protocol_parameters_pda, compute_stability_fee_accumulator_pda,
  compute_redemption_price_state_pda, compute_stablecoin_definition_pda,
  compute_stablecoin_definition_pda_seed, compute_stablecoin_master_holding_pda,
  compute_stablecoin_master_holding_pda_seed,
}
use lez_programs.Stablecoin.Checks.{initialized, read_clock}
use lez_programs.Stablecoin.Admin.{
  assert_stability_fee_in_band, assert_collateralization_ratio_in_band,
  assert_controller_gains_in_band, assert_timing_milliseconds_in_band, assert_quotes,
}

pub record InitializeAccounts (Data : Type 0) : Type 0 where
  pub admin : AccountWithMetadata Data
  pub protocol_parameters : AccountWithMetadata Data
  pub stability_fee_accumulator : AccountWithMetadata Data
  pub redemption_price_state : AccountWithMetadata Data
  pub stablecoin_definition : AccountWithMetadata Data
  pub stablecoin_master_holding : AccountWithMetadata Data
  pub collateral_definition : AccountWithMetadata Data
  pub market_price_oracle : AccountWithMetadata Data
  pub clock : AccountWithMetadata Data

pub record InitializeProgramParams : Type 0 where
  pub freeze_authority_account_id : AccountId
  pub initial_stability_fee_per_millisecond : ℕ
  pub initial_controller_proportional_gain : ℤ
  pub initial_controller_integral_gain : ℤ
  pub initial_minimum_collateralization_ratio : ℕ
  pub minimum_milliseconds_between_rate_updates : ℕ
  pub maximum_oracle_price_age_milliseconds : ℕ
  pub initial_redemption_price : ℕ
  pub stablecoin_name : String

abbrev is_fungible : TokenDefinition → Bool
is_fungible (TokenDefinition.fungible _ _ _ _) = true
is_fungible (TokenDefinition.non_fungible _ _ _) = false

abbrev is_empty : List ℕ → Bool
is_empty [] = true
is_empty (b ∷ bs) = false

-- The bounds on the numbers.
unfoldable pub check_bounds : InitializeProgramParams → Result Panic (Unit {0})
check_bounds params = do
  assert_stability_fee_in_band params.initial_stability_fee_per_millisecond
  assert_collateralization_ratio_in_band params.initial_minimum_collateralization_ratio
  assert_controller_gains_in_band params.initial_controller_proportional_gain
      params.initial_controller_integral_gain
  assert_timing_milliseconds_in_band params.minimum_milliseconds_between_rate_updates
  assert_timing_milliseconds_in_band params.maximum_oracle_price_age_milliseconds
  guard (leb minimum_redemption_price params.initial_redemption_price) Panic.out_of_band
  guard (leb params.initial_redemption_price maximum_redemption_price) Panic.out_of_band
  guard (not (is_empty (bytes_of params.stablecoin_name))) Panic.empty_name

abbrev pub initial_parameters :
    {Data : Type 0} → InitializeAccounts Data → InitializeProgramParams → ProtocolParameters
initial_parameters a params = record {
  admin_account_id = a.admin.account_id;
  freeze_authority_account_id = params.freeze_authority_account_id;
  stablecoin_definition_id = a.stablecoin_definition.account_id;
  collateral_definition_id = a.collateral_definition.account_id;
  market_price_oracle_id = a.market_price_oracle.account_id;
  stability_fee_per_millisecond = params.initial_stability_fee_per_millisecond;
  controller_proportional_gain = params.initial_controller_proportional_gain;
  controller_integral_gain = params.initial_controller_integral_gain;
  minimum_collateralization_ratio = params.initial_minimum_collateralization_ratio;
  minimum_milliseconds_between_rate_updates = params.minimum_milliseconds_between_rate_updates;
  maximum_oracle_price_age_milliseconds = params.maximum_oracle_price_age_milliseconds;
  is_frozen = false;
}

abbrev pub initial_accumulator : ℕ → StabilityFeeAccumulator
initial_accumulator now = record {
  accumulated_rate_at_last_accrual = fixed_point_one;
  last_accrued_at = now;
  total_normalized_debt = 0;
}

abbrev pub initial_redemption : InitializeProgramParams → ℕ → RedemptionPriceState
initial_redemption params now = record {
  redemption_price_at_last_update = params.initial_redemption_price;
  redemption_rate_per_millisecond = fixed_point_one;
  integral_term = pos 0;
  last_updated_at = now;
}

module _ {Data : Type 0} (h : StablecoinHost Data) where
  -- The five accounts to be made are new, and at their addresses.
  unfoldable pub check_targets : InitializeAccounts Data → AccountId → Result Panic (Unit {0})
  check_targets a program = do
    guard (h.is_default a.protocol_parameters.account) Panic.already_initialized
    guard (h.is_default a.stability_fee_accumulator.account) Panic.already_initialized
    guard (h.is_default a.redemption_price_state.account) Panic.already_initialized
    guard (h.is_default a.stablecoin_definition.account) Panic.already_initialized
    guard (h.is_default a.stablecoin_master_holding.account) Panic.already_initialized
    guard (a.protocol_parameters.account_id == compute_protocol_parameters_pda h program)
        Panic.wrong_address
    guard
        (a.stability_fee_accumulator.account_id == compute_stability_fee_accumulator_pda h program)
        Panic.wrong_address
    guard (a.redemption_price_state.account_id == compute_redemption_price_state_pda h program)
        Panic.wrong_address
    guard (a.stablecoin_definition.account_id == compute_stablecoin_definition_pda h program)
        Panic.wrong_address
    guard
        (a.stablecoin_master_holding.account_id == compute_stablecoin_master_holding_pda h program)
        Panic.wrong_address

  unfoldable pub check_collateral : AccountWithMetadata Data → Result Panic (Unit {0})
  check_collateral collateral_definition = do
    initialized h collateral_definition
    collateral_def ←
        expect (h.token_definitions.try_from collateral_definition.account.account_data)
          Panic.invalid_data
    guard (is_fungible collateral_def) Panic.not_fungible

  unfoldable pub initialize_program :
      InitializeAccounts Data
      → AccountId
      → InitializeProgramParams
      → Result Panic (List (AccountStateDiff Data) × List ChainedCall)
  initialize_program a stablecoin_program_id params = do
    guard a.admin.is_authorized Panic.not_authorized
    check_targets a stablecoin_program_id
    now ← read_clock h a.clock
    check_collateral a.collateral_definition
    assert_quotes h a.market_price_oracle a.stablecoin_definition.account_id
        a.collateral_definition.account_id
    check_bounds params
    ok (
      unchanged a.admin
          ∷ new a.protocol_parameters (h.parameters.into (initial_parameters a params))
          ∷ new a.stability_fee_accumulator (h.accumulators.into (initial_accumulator now))
          ∷ new a.redemption_price_state (h.redemptions.into (initial_redemption params now))
          ∷ unchanged a.stablecoin_definition
          ∷ unchanged a.stablecoin_master_holding
          ∷ unchanged a.collateral_definition
          ∷ unchanged a.market_price_oracle
          ∷ unchanged a.clock
          ∷ [],
      record {
        program_id = a.collateral_definition.account.program_owner;
        account_ids =
            a.stablecoin_definition.account_id ∷ a.stablecoin_master_holding.account_id ∷ [];
        instruction = CallInstruction.token (
            Instruction.new_fungible_definition params.stablecoin_name 0
              (some a.stablecoin_definition.account_id));
        pda_seeds =
            compute_stablecoin_definition_pda_seed h
            ∷ compute_stablecoin_master_holding_pda_seed h
            ∷ [];
      }
          ∷ [],
    )
