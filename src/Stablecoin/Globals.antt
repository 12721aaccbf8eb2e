-- ===== src/Stablecoin/Globals.antt =====
-- The instructions on the global accounts of the stablecoin: programs/stablecoin/src/
-- accrue_stability_fee.rs, update_redemption_rate.rs, refresh_globals.rs,
-- reset_redemption_rate_controller.rs and freeze.rs.
pub mod Accruals
pub mod Updates
pub mod Advances
use lez_programs.Shared.{
  ℕ, ◌-◌, ◌≡◌, Bool, true, false, not, leb, ltb, ◌==◌, ◌&&◌, ◌||◌, if◌then◌else◌, List, [], ◌∷◌,
  Option, some, none, pos, Result, ok, ◌>>=◌, ◌>>◌, guard, expect, min, max,
}
use lez_programs.Host.{AccountId, AccountWithMetadata, AccountStateDiff, new, unchanged}
use lez_programs.Amm.Core.{ChainedCall}
use lez_programs.Twap.Core.{OraclePriceAccount}
use lez_programs.Stablecoin.Core.{Panic, fixed_point_one}
use lez_programs.Stablecoin.Math.{
  compute_current_redemption_price_wide, oracle_price_to_fixed_point,
}
use lez_programs.Stablecoin.Controller.{bound_redemption_price, run_controller_tick}
use lez_programs.Stablecoin.State.{
  ProtocolParameters, StabilityFeeAccumulator, RedemptionPriceState, StablecoinHost,
  compute_redemption_price_state_pda, compute_stability_fee_accumulator_pda,
}
use lez_programs.Stablecoin.Checks.{
  FeeAccrual, accrue_fees, initialized, decode_global, read_global, read_parameters, read_clock,
  surplus_mint_call,
}

-- The accounts that the fee accrual and the combined refresh share.
pub record AccrueAccounts (Data : Type 0) : Type 0 where
  pub caller : AccountWithMetadata Data
  pub protocol_parameters : AccountWithMetadata Data
  pub stability_fee_accumulator : AccountWithMetadata Data
  pub stablecoin_definition : AccountWithMetadata Data
  pub stablecoin_master_holding : AccountWithMetadata Data
  pub clock : AccountWithMetadata Data

pub record UpdateAccounts (Data : Type 0) : Type 0 where
  pub caller : AccountWithMetadata Data
  pub protocol_parameters : AccountWithMetadata Data
  pub redemption_price_state : AccountWithMetadata Data
  pub market_price_oracle : AccountWithMetadata Data
  pub clock : AccountWithMetadata Data

-- The state with the price projected to now, and the controller's next rate.
unfoldable pub advance_redemption_price :
    ProtocolParameters → RedemptionPriceState → ℕ → ℕ → Result Panic RedemptionPriceState
advance_redemption_price params redemption oracle_price now = do
  projection ←
      compute_current_redemption_price_wide redemption.redemption_price_at_last_update
        redemption.redemption_rate_per_millisecond redemption.last_updated_at now
  let current_price = bound_redemption_price projection
  output ←
      run_controller_tick current_price (oracle_price_to_fixed_point oracle_price)
        redemption.integral_term params.controller_proportional_gain params.controller_integral_gain
        (now - redemption.last_updated_at)
  ok (record {
    redemption_price_at_last_update = current_price;
    redemption_rate_per_millisecond = output.redemption_rate_per_millisecond;
    integral_term = output.controller_integral_term;
    last_updated_at = now;
  })

-- The state with the price projected to now, and a controller at rest.
unfoldable pub reset_redemption : RedemptionPriceState → ℕ → Result Panic RedemptionPriceState
reset_redemption redemption now = do
  projection ←
      compute_current_redemption_price_wide redemption.redemption_price_at_last_update
        redemption.redemption_rate_per_millisecond redemption.last_updated_at now
  ok (record {
    redemption_price_at_last_update = bound_redemption_price projection;
    redemption_rate_per_millisecond = fixed_point_one;
    integral_term = pos 0;
    last_updated_at = now;
  })

-- Whether the oracle's price may be used, and enough time has passed to use it.
abbrev pub is_fresh : OraclePriceAccount → ProtocolParameters → ℕ → Bool
is_fresh oracle params now =
    leb (now - oracle.price_timestamp) params.maximum_oracle_price_age_milliseconds

abbrev pub interval_due : RedemptionPriceState → ProtocolParameters → ℕ → Bool
interval_due redemption params now =
    leb params.minimum_milliseconds_between_rate_updates (now - redemption.last_updated_at)

-- The price that `refresh_globals` uses, if any.
abbrev pub usable_price : Option OraclePriceAccount → ProtocolParameters → ℕ → Option ℕ
usable_price none params now = none
usable_price (some oracle) params now =
    if is_fresh oracle params now && ltb 0 oracle.price then some oracle.price else none

-- The redemption half of `refresh_globals`: none if it skips.
unfoldable pub refresh_redemption :
    ProtocolParameters
    → RedemptionPriceState
    → Option ℕ
    → ℕ
    → Result Panic (Option RedemptionPriceState)
refresh_redemption params redemption none now = ok none
refresh_redemption params redemption (some price) now =
    if interval_due redemption params now
    then (do advanced ← advance_redemption_price params redemption price now; ok (some advanced))
    else ok none

module _ {Data : Type 0} (h : StablecoinHost Data) where
  unfoldable pub decode_fee_accrual_inputs :
      AccountWithMetadata Data
      → AccountWithMetadata Data
      → AccountId
      → Result Panic (ProtocolParameters × StabilityFeeAccumulator)
  decode_fee_accrual_inputs protocol_parameters stability_fee_accumulator program = do
    initialized h protocol_parameters
    guard (protocol_parameters.account.program_owner == program) Panic.not_owned
    content ←
        decode_global h stability_fee_accumulator (compute_stability_fee_accumulator_pda h program)
          program
    params ←
        expect (h.parameters.try_from protocol_parameters.account.account_data) Panic.invalid_data
    accumulator ← expect (h.accumulators.try_from content) Panic.invalid_data
    ok (params, accumulator)

  unfoldable pub decode_redemption_inputs :
      AccountWithMetadata Data
      → AccountWithMetadata Data
      → AccountId
      → Result Panic (ProtocolParameters × RedemptionPriceState)
  decode_redemption_inputs protocol_parameters redemption_price_state program = do
    initialized h protocol_parameters
    guard (protocol_parameters.account.program_owner == program) Panic.not_owned
    content ←
        decode_global h redemption_price_state (compute_redemption_price_state_pda h program)
          program
    params ←
        expect (h.parameters.try_from protocol_parameters.account.account_data) Panic.invalid_data
    redemption ← expect (h.redemptions.try_from content) Panic.invalid_data
    ok (params, redemption)

  -- The price that quotes the stablecoin in collateral, if the account has one.
  abbrev quoted : ProtocolParameters → Option OraclePriceAccount → Option OraclePriceAccount
  quoted params none = none
  quoted params (some oracle) =
      if (oracle.base_asset == params.stablecoin_definition_id)
        && (oracle.quote_asset == params.collateral_definition_id)
      then some oracle
      else none

  unfoldable pub read_oracle :
      AccountWithMetadata Data → ProtocolParameters → Result Panic (Option OraclePriceAccount)
  read_oracle market_price_oracle params = do
    guard (market_price_oracle.account_id == params.market_price_oracle_id) Panic.wrong_oracle
    ok (
        if h.is_default market_price_oracle.account
        then none
        else quoted params (h.oracle_prices.try_from market_price_oracle.account.account_data))

  unfoldable pub accrue_stability_fee :
      AccrueAccounts Data
      → AccountId
      → Result Panic (List (AccountStateDiff Data) × List ChainedCall)
  accrue_stability_fee a stablecoin_program_id = do
    guard a.caller.is_authorized Panic.not_authorized
    (params, accumulator) ←
        decode_fee_accrual_inputs a.protocol_parameters a.stability_fee_accumulator
          stablecoin_program_id
    now ← read_clock h a.clock
    accrual ← accrue_fees params accumulator now
    surplus_mint ←
        surplus_mint_call h a.stablecoin_definition a.stablecoin_master_holding params
          stablecoin_program_id accrual.accrued_fees
    ok (
      unchanged a.caller
          ∷ unchanged a.protocol_parameters
          ∷ new a.stability_fee_accumulator (h.accumulators.into accrual.accumulator)
          ∷ unchanged a.stablecoin_definition
          ∷ unchanged a.stablecoin_master_holding
          ∷ unchanged a.clock
          ∷ [],
      surplus_mint,
    )

  unfoldable pub update_redemption_rate :
      UpdateAccounts Data
      → AccountId
      → Result Panic (List (AccountStateDiff Data) × List ChainedCall)
  update_redemption_rate a stablecoin_program_id = do
    guard a.caller.is_authorized Panic.not_authorized
    (params, redemption) ←
        decode_redemption_inputs a.protocol_parameters a.redemption_price_state
          stablecoin_program_id
    initialized h a.market_price_oracle
    read ← read_oracle a.market_price_oracle params
    oracle ← expect read Panic.no_oracle_price
    now ← read_clock h a.clock
    guard (is_fresh oracle params now) Panic.oracle_stale
    guard (ltb 0 oracle.price) Panic.zero_oracle_price
    guard (interval_due redemption params now) Panic.too_soon
    advanced ← advance_redemption_price params redemption oracle.price now
    ok (
      unchanged a.caller
          ∷ unchanged a.protocol_parameters
          ∷ new a.redemption_price_state (h.redemptions.into advanced)
          ∷ unchanged a.market_price_oracle
          ∷ unchanged a.clock
          ∷ [],
      [],
    )

  abbrev pub redemption_diff :
      AccountWithMetadata Data → Option RedemptionPriceState → AccountStateDiff Data
  redemption_diff a none = unchanged a
  redemption_diff a (some state) = new a (h.redemptions.into state)

  unfoldable pub refresh_globals :
      AccrueAccounts Data
      → AccountWithMetadata Data
      → AccountWithMetadata Data
      → AccountId
      → Result Panic (List (AccountStateDiff Data) × List ChainedCall)
  refresh_globals a redemption_price_state market_price_oracle stablecoin_program_id = do
    guard a.caller.is_authorized Panic.not_authorized
    (params, accumulator) ←
        decode_fee_accrual_inputs a.protocol_parameters a.stability_fee_accumulator
          stablecoin_program_id
    (_, redemption) ←
        decode_redemption_inputs a.protocol_parameters redemption_price_state stablecoin_program_id
    oracle ← read_oracle market_price_oracle params
    now ← read_clock h a.clock
    accrual ← accrue_fees params accumulator now
    surplus_mint ←
        surplus_mint_call h a.stablecoin_definition a.stablecoin_master_holding params
          stablecoin_program_id accrual.accrued_fees
    refreshed ← refresh_redemption params redemption (usable_price oracle params now) now
    ok (
      unchanged a.caller
          ∷ unchanged a.protocol_parameters
          ∷ new a.stability_fee_accumulator (h.accumulators.into accrual.accumulator)
          ∷ unchanged a.stablecoin_definition
          ∷ unchanged a.stablecoin_master_holding
          ∷ redemption_diff redemption_price_state refreshed
          ∷ unchanged market_price_oracle
          ∷ unchanged a.clock
          ∷ [],
      surplus_mint,
    )

  unfoldable pub reset_redemption_rate_controller :
      (authority protocol_parameters redemption_price_state clock : AccountWithMetadata Data)
      → AccountId
      → Result Panic (List (AccountStateDiff Data) × List ChainedCall)
  reset_redemption_rate_controller authority protocol_parameters redemption_price_state clock
        stablecoin_program_id =
      do
        guard authority.is_authorized Panic.not_authorized
        parameters ← read_parameters h protocol_parameters stablecoin_program_id
        guard
            ((authority.account_id == parameters.admin_account_id)
              || (authority.account_id == parameters.freeze_authority_account_id))
            Panic.not_admin
        redemption ←
            read_global h h.redemptions redemption_price_state
              (compute_redemption_price_state_pda h stablecoin_program_id) stablecoin_program_id
        now ← read_clock h clock
        reset ← reset_redemption redemption now
        ok (
          unchanged authority
              ∷ unchanged protocol_parameters
              ∷ new redemption_price_state (h.redemptions.into reset)
              ∷ unchanged clock
              ∷ [],
          [],
        )

  unfoldable pub set_frozen :
      (freeze_authority protocol_parameters : AccountWithMetadata Data)
      → AccountId
      → Bool
      → Result Panic (List (AccountStateDiff Data) × List ChainedCall)
  set_frozen freeze_authority protocol_parameters stablecoin_program_id is_frozen = do
    guard freeze_authority.is_authorized Panic.not_authorized
    parameters ← read_parameters h protocol_parameters stablecoin_program_id
    guard (freeze_authority.account_id == parameters.freeze_authority_account_id)
        Panic.not_freeze_authority
    ok (
      unchanged freeze_authority
          ∷ new protocol_parameters
              (h.parameters.into (record parameters { is_frozen = is_frozen }))
          ∷ [],
      [],
    )
