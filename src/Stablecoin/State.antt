-- ===== src/Stablecoin/State.antt =====
-- The accounts of the stablecoin and their addresses: programs/stablecoin/core/src/lib.rs,
-- protocol_parameters.rs, stability_fee_accumulator.rs and redemption_price_state.rs.
use lez_programs.Shared.{ℕ, Bool, List, ◌++◌, Option, bytes_of, ℤ, Result, ok, ◌>>◌, guard, ◌==◌}
use lez_programs.Host.{AccountId, Account, AccountWithMetadata, Codec}
use lez_programs.Token.Core.{TokenDefinition, TokenHolding}
use lez_programs.Twap.Core.{OraclePriceAccount, le_bytes}
use lez_programs.Stablecoin.Core.{Panic}

pub record Position : Type 0 where
  pub owner_account_id : AccountId
  pub position_nonce : ℕ
  pub vault_account_id : AccountId
  pub collateral_amount : ℕ
  pub normalized_debt_amount : ℕ
  pub opened_at : ℕ

pub record ProtocolParameters : Type 0 where
  pub admin_account_id : AccountId
  pub freeze_authority_account_id : AccountId
  pub stablecoin_definition_id : AccountId
  pub collateral_definition_id : AccountId
  pub market_price_oracle_id : AccountId
  pub stability_fee_per_millisecond : ℕ
  pub controller_proportional_gain : ℤ
  pub controller_integral_gain : ℤ
  pub minimum_collateralization_ratio : ℕ
  pub minimum_milliseconds_between_rate_updates : ℕ
  pub maximum_oracle_price_age_milliseconds : ℕ
  pub is_frozen : Bool

pub record StabilityFeeAccumulator : Type 0 where
  pub accumulated_rate_at_last_accrual : ℕ
  pub last_accrued_at : ℕ
  pub total_normalized_debt : ℕ

pub record RedemptionPriceState : Type 0 where
  pub redemption_price_at_last_update : ℕ
  pub redemption_rate_per_millisecond : ℕ
  pub integral_term : ℤ
  pub last_updated_at : ℕ

-- What the handlers take from the execution layer, as `AmmHost` does.
pub record StablecoinHost (Data : Type 0) : Type 0 where
  pub positions : Codec Data Position
  pub parameters : Codec Data ProtocolParameters
  pub accumulators : Codec Data StabilityFeeAccumulator
  pub redemptions : Codec Data RedemptionPriceState
  pub token_definitions : Codec Data TokenDefinition
  pub token_holdings : Codec Data TokenHolding
  pub oracle_prices : Codec Data OraclePriceAccount
  pub is_default : Account Data → Bool
  pub default_data : Data
  pub hash_bytes : List ℕ → ℕ
  pub to_bytes : AccountId → List ℕ
  pub for_public_pda : AccountId → ℕ → AccountId
  pub clock_01_program_account_id : AccountId
  pub clock_timestamp : Data → Option ℕ

module _ {Data : Type 0} (h : StablecoinHost Data) where
  unfoldable pub compute_position_pda_seed : AccountId → ℕ → ℕ
  compute_position_pda_seed owner_id position_nonce =
      h.hash_bytes (h.to_bytes owner_id ++ (le_bytes 8 position_nonce ++ bytes_of "POSITION"))

  unfoldable pub compute_position_vault_pda_seed : AccountId → ℕ
  compute_position_vault_pda_seed position_id =
      h.hash_bytes (h.to_bytes position_id ++ bytes_of "POSITION_VAULT")

  unfoldable pub compute_stablecoin_definition_pda_seed : ℕ
  compute_stablecoin_definition_pda_seed =
      h.hash_bytes (bytes_of "STABLECOIN__DEFINITION__________")

  unfoldable pub compute_stablecoin_definition_pda : AccountId → AccountId
  compute_stablecoin_definition_pda stablecoin_program_id =
      h.for_public_pda stablecoin_program_id compute_stablecoin_definition_pda_seed

  unfoldable pub compute_stablecoin_master_holding_pda_seed : ℕ
  compute_stablecoin_master_holding_pda_seed =
      h.hash_bytes (bytes_of "STABLECOIN__MASTER_HOLDING______")

  unfoldable pub compute_stablecoin_master_holding_pda : AccountId → AccountId
  compute_stablecoin_master_holding_pda stablecoin_program_id =
      h.for_public_pda stablecoin_program_id compute_stablecoin_master_holding_pda_seed

  unfoldable pub compute_protocol_parameters_pda : AccountId → AccountId
  compute_protocol_parameters_pda stablecoin_program_id =
      h.for_public_pda stablecoin_program_id
        (h.hash_bytes (bytes_of "STABLECOIN__PROTOCOL_PARAMS_____"))

  unfoldable pub compute_stability_fee_accumulator_pda : AccountId → AccountId
  compute_stability_fee_accumulator_pda stablecoin_program_id =
      h.for_public_pda stablecoin_program_id (h.hash_bytes (bytes_of "STABILITY_FEE_ACCUMULATOR"))

  unfoldable pub compute_redemption_price_state_pda : AccountId → AccountId
  compute_redemption_price_state_pda stablecoin_program_id =
      h.for_public_pda stablecoin_program_id (h.hash_bytes (bytes_of "REDEMPTION_PRICE_STATE"))

  -- The position is at the address of its owner and nonce.
  unfoldable pub verify_position_and_get_seed :
      AccountWithMetadata Data → AccountWithMetadata Data → ℕ → AccountId → Result Panic ℕ
  verify_position_and_get_seed position owner position_nonce stablecoin_program_id = do
    let seed = compute_position_pda_seed owner.account_id position_nonce
    guard (position.account_id == h.for_public_pda stablecoin_program_id seed) Panic.wrong_address
    ok seed

  unfoldable pub verify_position_vault_and_get_seed :
      AccountWithMetadata Data → AccountId → AccountId → Result Panic ℕ
  verify_position_vault_and_get_seed vault position_id stablecoin_program_id = do
    let seed = compute_position_vault_pda_seed position_id
    guard (vault.account_id == h.for_public_pda stablecoin_program_id seed) Panic.wrong_vault
    ok seed
