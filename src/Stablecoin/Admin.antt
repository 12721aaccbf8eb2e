-- ===== src/Stablecoin/Admin.antt =====
-- The administration of the stablecoin: programs/stablecoin/src/admin.rs, with the bands of
-- checks.rs.
pub mod Bootstrap
pub mod Bands
pub mod Founding
pub mod Tuning
pub mod History
pub mod Accrual
mod Examples
use lez_programs.Shared.{
  ℕ, ◌+◌, ◌*◌, ◌/◌, not, leb, ◌==◌, ◌++◌, if◌then◌else◌, List, [], ◌∷◌, ℤ, pos, leb_ℤ, Result, ok,
  ◌>>=◌, ◌>>◌, guard, expect,
}
use lez_programs.Host.{AccountId, AccountWithMetadata, AccountStateDiff, new, unchanged}
use lez_programs.Amm.Core.{ChainedCall}
use lez_programs.Stablecoin.Core.{Panic, fixed_point_one}
use lez_programs.Stablecoin.State.{ProtocolParameters, StablecoinHost}
use lez_programs.Stablecoin.Checks.{
  FeeAccrual, accrue_fees, read_parameters, read_accumulator, read_clock, surplus_mint_call,
}

abbrev pub max_stability_fee_per_millisecond : ℕ
max_stability_fee_per_millisecond = fixed_point_one + 21965000000000000

abbrev pub min_collateralization_ratio : ℕ
min_collateralization_ratio = fixed_point_one * 110 / 100

abbrev pub max_collateralization_ratio : ℕ
max_collateralization_ratio = fixed_point_one * 10

abbrev pub maximum_controller_proportional_gain : ℕ
maximum_controller_proportional_gain = fixed_point_one * 1000

abbrev pub maximum_controller_integral_gain : ℕ
maximum_controller_integral_gain = fixed_point_one

abbrev pub max_timing_milliseconds : ℕ
max_timing_milliseconds = 86400000

unfoldable pub assert_stability_fee_in_band : ℕ → Result Panic (Unit {0})
assert_stability_fee_in_band rate = do
  guard (leb fixed_point_one rate) Panic.out_of_band
  guard (leb rate max_stability_fee_per_millisecond) Panic.out_of_band

unfoldable pub assert_collateralization_ratio_in_band : ℕ → Result Panic (Unit {0})
assert_collateralization_ratio_in_band ratio = do
  guard (leb min_collateralization_ratio ratio) Panic.out_of_band
  guard (leb ratio max_collateralization_ratio) Panic.out_of_band

-- `(0..=maximum).contains(&gain)`
unfoldable pub assert_gain_in_band : ℤ → ℕ → Result Panic (Unit {0})
assert_gain_in_band gain maximum = do
  guard (leb_ℤ (pos 0) gain) Panic.out_of_band
  guard (leb_ℤ gain (pos maximum)) Panic.out_of_band

unfoldable pub assert_controller_gains_in_band : ℤ → ℤ → Result Panic (Unit {0})
assert_controller_gains_in_band proportional_gain integral_gain = do
  assert_gain_in_band proportional_gain maximum_controller_proportional_gain
  assert_gain_in_band integral_gain maximum_controller_integral_gain

unfoldable pub assert_timing_milliseconds_in_band : ℕ → Result Panic (Unit {0})
assert_timing_milliseconds_in_band milliseconds = do
  guard (leb 1 milliseconds) Panic.out_of_band
  guard (leb milliseconds max_timing_milliseconds) Panic.out_of_band

-- The new parameters that the setters' closures compute.
unfoldable pub tune_ratio : ℕ → ProtocolParameters → Result Panic ProtocolParameters
tune_ratio new_ratio parameters = do
  assert_collateralization_ratio_in_band new_ratio
  ok (record parameters { minimum_collateralization_ratio = new_ratio })

unfoldable pub tune_gains : ℤ → ℤ → ProtocolParameters → Result Panic ProtocolParameters
tune_gains new_proportional_gain new_integral_gain parameters = do
  assert_controller_gains_in_band new_proportional_gain new_integral_gain
  ok (record parameters {
    controller_proportional_gain = new_proportional_gain;
    controller_integral_gain = new_integral_gain;
  })

unfoldable pub tune_timing : ℕ → ℕ → ProtocolParameters → Result Panic ProtocolParameters
tune_timing new_minimum_interval new_maximum_age parameters = do
  assert_timing_milliseconds_in_band new_minimum_interval
  assert_timing_milliseconds_in_band new_maximum_age
  ok (record parameters {
    minimum_milliseconds_between_rate_updates = new_minimum_interval;
    maximum_oracle_price_age_milliseconds = new_maximum_age;
  })

-- The parameters of `SetStabilityFeePerMillisecond` and of the other instructions of the admin.
pub data AdminInstruction : Type 0 where
  set_stability_fee_per_millisecond set_minimum_collateralization_ratio : ℕ → AdminInstruction
  set_controller_gains : ℤ → ℤ → AdminInstruction
  set_market_price_oracle : AdminInstruction
  set_timing_parameters : ℕ → ℕ → AdminInstruction
  set_admin set_freeze_authority : AccountId → AdminInstruction

-- The accounts that these instructions take.
pub record AdminAccounts (Data : Type 0) : Type 0 where
  pub admin : AccountWithMetadata Data
  pub protocol_parameters : AccountWithMetadata Data
  pub stability_fee_accumulator : AccountWithMetadata Data
  pub stablecoin_definition : AccountWithMetadata Data
  pub stablecoin_master_holding : AccountWithMetadata Data
  pub clock : AccountWithMetadata Data
  pub new_oracle : AccountWithMetadata Data

module _ {Data : Type 0} (h : StablecoinHost Data) where
  unfoldable pub assert_admin_authorized :
      AccountWithMetadata Data → ProtocolParameters → Result Panic (Unit {0})
  assert_admin_authorized admin parameters = do
    guard admin.is_authorized Panic.not_authorized
    guard (admin.account_id == parameters.admin_account_id) Panic.not_admin

  unfoldable pub update_parameters :
      (admin protocol_parameters : AccountWithMetadata Data)
      → AccountId
      → (ProtocolParameters → Result Panic ProtocolParameters)
      → Result Panic (List (AccountStateDiff Data) × List ChainedCall)
  update_parameters admin protocol_parameters stablecoin_program_id mutate = do
    parameters ← read_parameters h protocol_parameters stablecoin_program_id
    assert_admin_authorized admin parameters
    mutated ← mutate parameters
    ok (unchanged admin ∷ new protocol_parameters (h.parameters.into mutated) ∷ [], [])

  -- An oracle that exists decodes, and quotes the stablecoin in collateral.
  unfoldable pub assert_quotes :
      AccountWithMetadata Data → AccountId → AccountId → Result Panic (Unit {0})
  assert_quotes oracle_account stablecoin_definition_id collateral_definition_id =
      if h.is_default oracle_account.account then ok tt else (do
        oracle ←
            expect (h.oracle_prices.try_from oracle_account.account.account_data) Panic.invalid_data
        guard (oracle.base_asset == stablecoin_definition_id) Panic.wrong_oracle
        guard (oracle.quote_asset == collateral_definition_id) Panic.wrong_oracle)

  unfoldable pub tune_oracle :
      AccountWithMetadata Data → ProtocolParameters → Result Panic ProtocolParameters
  tune_oracle new_oracle parameters = do
    assert_quotes new_oracle parameters.stablecoin_definition_id parameters.collateral_definition_id
    ok (record parameters { market_price_oracle_id = new_oracle.account_id })

  unfoldable pub set_stability_fee :
      AdminAccounts Data
      → AccountId
      → ℕ
      → Result Panic (List (AccountStateDiff Data) × List ChainedCall)
  set_stability_fee a stablecoin_program_id new_rate = do
    parameters ← read_parameters h a.protocol_parameters stablecoin_program_id
    assert_admin_authorized a.admin parameters
    assert_stability_fee_in_band new_rate
    accumulator ← read_accumulator h a.stability_fee_accumulator stablecoin_program_id
    now ← read_clock h a.clock
    accrual ← accrue_fees parameters accumulator now
    surplus_mint ←
        surplus_mint_call h a.stablecoin_definition a.stablecoin_master_holding parameters
          stablecoin_program_id accrual.accrued_fees
    ok (
      unchanged a.admin
          ∷ new a.protocol_parameters
              (h.parameters.into (record parameters { stability_fee_per_millisecond = new_rate }))
          ∷ new a.stability_fee_accumulator (h.accumulators.into accrual.accumulator)
          ∷ unchanged a.stablecoin_definition
          ∷ unchanged a.stablecoin_master_holding
          ∷ unchanged a.clock
          ∷ [],
      surplus_mint,
    )

  unfoldable pub set_oracle :
      (admin protocol_parameters new_oracle : AccountWithMetadata Data)
      → AccountId
      → Result Panic (List (AccountStateDiff Data) × List ChainedCall)
  set_oracle admin protocol_parameters new_oracle stablecoin_program_id = do
    (state_diffs, chained_calls) ←
        update_parameters admin protocol_parameters stablecoin_program_id (tune_oracle new_oracle)
    ok (state_diffs ++ (unchanged new_oracle ∷ []), chained_calls)

  unfoldable pub run_admin :
      AdminAccounts Data
      → AccountId
      → AdminInstruction
      → Result Panic (List (AccountStateDiff Data) × List ChainedCall)
  run_admin a program (AdminInstruction.set_stability_fee_per_millisecond rate) =
      set_stability_fee a program rate
  run_admin a program (AdminInstruction.set_minimum_collateralization_ratio ratio) =
      update_parameters a.admin a.protocol_parameters program (tune_ratio ratio)
  run_admin a program (AdminInstruction.set_controller_gains proportional integral) =
      update_parameters a.admin a.protocol_parameters program (tune_gains proportional integral)
  run_admin a program AdminInstruction.set_market_price_oracle =
      set_oracle a.admin a.protocol_parameters a.new_oracle program
  run_admin a program (AdminInstruction.set_timing_parameters interval age) =
      update_parameters a.admin a.protocol_parameters program (tune_timing interval age)
  run_admin a program (AdminInstruction.set_admin id) =
      update_parameters a.admin a.protocol_parameters program
        (λ parameters. ok (record parameters { admin_account_id = id }))
  run_admin a program (AdminInstruction.set_freeze_authority id) =
      update_parameters a.admin a.protocol_parameters program
        (λ parameters. ok (record parameters { freeze_authority_account_id = id }))
