-- ===== src/Stablecoin/Runs.antt =====
-- Runs of the handlers of programs/stablecoin/src on a small execution layer, and the theorems on
-- them at these runs.
use lez_programs.Shared.{
  ℕ, ◌+◌, ◌*◌, ◌≡◌, ◌≢◌, ◌^◌, refl, arith, Bool, true, false, Option, none, some, List, [], ◌∷◌,
  pos, ok, err,
}
use lez_programs.Host.{AccountId, AccountWithMetadata, AccountStateDiff, new, unchanged}
use lez_programs.Token.Core.{TokenDefinition, TokenHolding, Instruction}
use lez_programs.Amm.Core.{ChainedCall}
use lez_programs.Twap.Core.{OraclePriceAccount}
use lez_programs.Stablecoin.Core.{Panic}
use lez_programs.Stablecoin.State.{
  Position, ProtocolParameters, StabilityFeeAccumulator, RedemptionPriceState, StablecoinHost,
  compute_position_pda_seed, compute_position_vault_pda_seed,
  compute_stablecoin_definition_pda_seed, compute_stablecoin_master_holding_pda,
  compute_protocol_parameters_pda, compute_stability_fee_accumulator_pda,
  compute_redemption_price_state_pda, verify_position_and_get_seed,
  verify_position_vault_and_get_seed, compute_stablecoin_master_holding_pda_seed,
}
use lez_programs.Stablecoin.Checks.{
  FeeAccrual, accrue_fees, read_parameters, token_call, read_position, decode_global, read_clock,
  read_holding, surplus_mint_call, assert_secure, assert_position_is_collateralized,
}
use lez_programs.Stablecoin.Math.{
  compute_current_accumulated_rate, compound_rate, compound_loop, multiply_if, mul_div,
  mul_div_ceil, compute_current_redemption_price_wide, project_forward_wide, compound_rate_wide,
  compound_rate_wide_result, compound_wide_loop, wide_multiply_if, wide_product,
  compute_current_accumulated_rate_wide, oracle_price_to_fixed_point,
}
use lez_programs.Stablecoin.Controller.{
  bound_redemption_price, run_controller_tick, clamp_to_magnitude, bounded_rate,
}
use lez_programs.Stablecoin.Collateralization.{
  is_collateralized, collateralization_values, requirement,
}
use lez_programs.Stablecoin.Positions.Debt.{
  GenerateAccounts, borrow, settle, check_generate, generate_diffs, mint_call, generate_debt,
}
use lez_programs.Stablecoin.Positions.Collateral.{
  WithdrawAccounts, check_withdraw, withdraw_diffs, release_call, withdraw_collateral, release,
  assert_withdrawal,
}
use lez_programs.Stablecoin.Positions.Lifecycle.{OpenAccounts, open_position, new_position}
use lez_programs.Stablecoin.Positions.Backing.{
  Protocol, opened, borrowed, settled, Reachable, started, next, IsOwed,
}
use lez_programs.Stablecoin.Positions.Circulation.{Reachable-IsOwed}
use lez_programs.Stablecoin.Positions.Security.{Outcome, Loan, generate_debt-Loan}
use lez_programs.Stablecoin.Positions.Withdrawals.{Withdrawal, withdraw_collateral-Withdrawal}
use lez_programs.Stablecoin.Positions.Freezing.{frozen-Refused}
use lez_programs.Stablecoin.Globals.{
  AccrueAccounts, update_redemption_rate, refresh_globals, decode_redemption_inputs,
  decode_fee_accrual_inputs, read_oracle, advance_redemption_price, refresh_redemption,
}
use lez_programs.Stablecoin.Globals.Advances.{Refreshed, update_redemption_rate-refresh_globals}

-- What an account may hold.
pub data Content : Type 0 where
  empty : Content
  position : Position → Content
  parameters : ProtocolParameters → Content
  accumulator : StabilityFeeAccumulator → Content
  redemption : RedemptionPriceState → Content
  definition : TokenDefinition → Content
  holding : TokenHolding → Content
  oracle : OraclePriceAccount → Content
  block_time : ℕ → Content

abbrev pub as_position : Content → Option Position
as_position (position p) = some p
as_position _ = none

abbrev pub as_parameters : Content → Option ProtocolParameters
as_parameters (parameters p) = some p
as_parameters _ = none

abbrev pub as_accumulator : Content → Option StabilityFeeAccumulator
as_accumulator (accumulator a) = some a
as_accumulator _ = none

abbrev pub as_redemption : Content → Option RedemptionPriceState
as_redemption (redemption r) = some r
as_redemption _ = none

abbrev pub as_definition : Content → Option TokenDefinition
as_definition (definition d) = some d
as_definition _ = none

abbrev pub as_holding : Content → Option TokenHolding
as_holding (holding t) = some t
as_holding _ = none

abbrev pub as_oracle : Content → Option OraclePriceAccount
as_oracle (oracle o) = some o
as_oracle _ = none

abbrev pub as_time : Content → Option ℕ
as_time (block_time t) = some t
as_time _ = none

abbrev pub is_empty : Content → Bool
is_empty empty = true
is_empty _ = false

abbrev pub digest : List ℕ → ℕ
digest [] = 0
digest (b ∷ bs) = b + 7 * digest bs

abbrev pub host : StablecoinHost Content
host = record {
  positions = record { try_from = as_position; into = position };
  parameters = record { try_from = as_parameters; into = parameters };
  accumulators = record { try_from = as_accumulator; into = accumulator };
  redemptions = record { try_from = as_redemption; into = redemption };
  token_definitions = record { try_from = as_definition; into = definition };
  token_holdings = record { try_from = as_holding; into = holding };
  oracle_prices = record { try_from = as_oracle; into = oracle };
  is_default = λ a. is_empty a.account_data;
  default_data = empty;
  hash_bytes = digest;
  to_bytes = λ id. id ∷ [];
  for_public_pda = λ program seed. program + seed;
  clock_01_program_account_id = 5;
  clock_timestamp = as_time;
}

abbrev pub program : AccountId
program = 70

abbrev pub held_by : AccountId → AccountId → Content → AccountWithMetadata Content
held_by owner id content = record {
  account = record { program_owner = owner; balance = 0; account_data = content; nonce = 0 };
  is_authorized = true;
  account_id = id;
}

-- A fee of ten percent a millisecond, to make one millisecond visible.
abbrev pub live_parameters : ProtocolParameters
live_parameters = record {
  admin_account_id = 1;
  freeze_authority_account_id = 2;
  stablecoin_definition_id = 11;
  collateral_definition_id = 12;
  market_price_oracle_id = 13;
  stability_fee_per_millisecond = 11 * 10 ^ 26;
  controller_proportional_gain = pos 0;
  controller_integral_gain = pos 0;
  minimum_collateralization_ratio = 15 * 10 ^ 26;
  minimum_milliseconds_between_rate_updates = 1;
  maximum_oracle_price_age_milliseconds = 10;
  is_frozen = false;
}

abbrev frozen_parameters : ProtocolParameters
frozen_parameters = record live_parameters { is_frozen = true }

abbrev pub old_accumulator : StabilityFeeAccumulator
old_accumulator = record {
  accumulated_rate_at_last_accrual = 2 * 10 ^ 27;
  last_accrued_at = 1000;
  total_normalized_debt = 100;
}

abbrev old_redemption : RedemptionPriceState
old_redemption = record {
  redemption_price_at_last_update = 10 ^ 27;
  redemption_rate_per_millisecond = 10 ^ 27;
  integral_term = pos 0;
  last_updated_at = 1000;
}

abbrev owner_account : AccountWithMetadata Content
owner_account = held_by 0 3 empty

abbrev position_id : AccountId
position_id = program + compute_position_pda_seed host 3 9

abbrev vault_id : AccountId
vault_id = program + compute_position_vault_pda_seed host position_id

abbrev old_position : Position
old_position = record {
  owner_account_id = 3;
  position_nonce = 9;
  vault_account_id = vault_id;
  collateral_amount = 1000;
  normalized_debt_amount = 100;
  opened_at = 500;
}

abbrev position_account : AccountWithMetadata Content
position_account = held_by program position_id (position old_position)

abbrev pub definition_account : AccountWithMetadata Content
definition_account = held_by 60 11 (block_time 0)

abbrev coin_account : AccountWithMetadata Content
coin_account = held_by 60 21 (holding (TokenHolding.fungible 11 500))

abbrev pub master_account : AccountWithMetadata Content
master_account =
    held_by 60 (compute_stablecoin_master_holding_pda host program)
      (holding (TokenHolding.fungible 11 0))

abbrev pub parameters_account : ProtocolParameters → AccountWithMetadata Content
parameters_account p = held_by program (compute_protocol_parameters_pda host program) (parameters p)

abbrev pub accumulator_account : AccountWithMetadata Content
accumulator_account =
    held_by program (compute_stability_fee_accumulator_pda host program)
      (accumulator old_accumulator)

abbrev redemption_account : AccountWithMetadata Content
redemption_account =
    held_by program (compute_redemption_price_state_pda host program) (redemption old_redemption)

abbrev pub clock : AccountWithMetadata Content
clock = held_by 0 5 (block_time 1001)

abbrev generate_accounts : ProtocolParameters → GenerateAccounts Content
generate_accounts p = record {
  owner = owner_account;
  position = position_account;
  stablecoin_definition = definition_account;
  user_stablecoin_holding = coin_account;
  stablecoin_master_holding = master_account;
  stability_fee_accumulator = accumulator_account;
  redemption_price_state = redemption_account;
  protocol_parameters = parameters_account p;
  clock = clock;
}

abbrev new_accumulator : ℕ → StabilityFeeAccumulator
new_accumulator total = record {
  accumulated_rate_at_last_accrual = 22 * 10 ^ 26;
  last_accrued_at = 1001;
  total_normalized_debt = total;
}

abbrev surplus_call : ChainedCall
surplus_call =
    token_call 60 (11 ∷ compute_stablecoin_master_holding_pda host program ∷ [])
      (Instruction.mint 20) (compute_stablecoin_definition_pda_seed host ∷ [])

abbrev loan_outcome : Outcome Content
loan_outcome = (
  generate_diffs host (generate_accounts live_parameters)
      (record old_position { normalized_debt_amount = 150 }) (new_accumulator 150),
  surplus_call ∷ mint_call host (generate_accounts live_parameters) 110 ∷ [],
)

-- 110 coins at the rate 2.2 are a debt of 50, and the fees on 100 are 20.
loan_run : generate_debt host (generate_accounts live_parameters) program 110 ≡ ok loan_outcome
unfolding generate_debt check_generate read_position verify_position_and_get_seed
    compute_position_pda_seed decode_global compute_protocol_parameters_pda
    compute_stability_fee_accumulator_pda compute_redemption_price_state_pda read_clock read_holding
    accrue_fees compute_current_accumulated_rate compound_rate compound_loop multiply_if mul_div
    mul_div_ceil surplus_mint_call compute_stablecoin_definition_pda_seed
    compute_stablecoin_master_holding_pda compute_stablecoin_master_holding_pda_seed borrow
    assert_secure assert_position_is_collateralized compute_current_redemption_price_wide
    project_forward_wide compound_rate_wide compound_rate_wide_result compound_wide_loop
    wide_multiply_if wide_product is_collateralized collateralization_values requirement
loan_run = refl

loan_checks :
    check_generate host (generate_accounts live_parameters) program
    ≡ ok (old_position, live_parameters, old_accumulator, old_redemption, 1001)
unfolding check_generate read_position verify_position_and_get_seed compute_position_pda_seed
    decode_global compute_protocol_parameters_pda compute_stability_fee_accumulator_pda
    compute_redemption_price_state_pda read_clock read_holding
loan_checks = refl

-- 540 coins more would need a collateral of more than 1000.
excessive_loan :
    generate_debt host (generate_accounts live_parameters) program 540
    ≡ err Panic.undercollateralized
unfolding generate_debt check_generate read_position verify_position_and_get_seed
    compute_position_pda_seed decode_global compute_protocol_parameters_pda
    compute_stability_fee_accumulator_pda compute_redemption_price_state_pda read_clock read_holding
    accrue_fees compute_current_accumulated_rate compound_rate compound_loop multiply_if mul_div
    mul_div_ceil surplus_mint_call compute_stablecoin_definition_pda_seed
    compute_stablecoin_master_holding_pda compute_stablecoin_master_holding_pda_seed borrow
    assert_secure assert_position_is_collateralized compute_current_redemption_price_wide
    project_forward_wide compound_rate_wide compound_rate_wide_result compound_wide_loop
    wide_multiply_if wide_product is_collateralized collateralization_values requirement
excessive_loan = refl

generate_debt-Loan_example :
    Loan host
      (generate_accounts live_parameters)
      program
      110
      (old_position, live_parameters, old_accumulator, old_redemption, 1001)
      loan_outcome
generate_debt-Loan_example =
    generate_debt-Loan host (generate_accounts live_parameters) program 110 old_position
      live_parameters old_accumulator old_redemption 1001 (omega arith) (omega arith) loan_checks
      loan_run

abbrev withdraw_accounts : ProtocolParameters → WithdrawAccounts Content
withdraw_accounts p = record {
  owner = owner_account;
  position = position_account;
  vault = held_by 60 vault_id (holding (TokenHolding.fungible 12 1000));
  user_collateral_holding = held_by 60 22 (holding (TokenHolding.fungible 12 0));
  stability_fee_accumulator = accumulator_account;
  redemption_price_state = redemption_account;
  protocol_parameters = parameters_account p;
  clock = clock;
}

abbrev payout_outcome : Outcome Content
payout_outcome = (
  withdraw_diffs host (withdraw_accounts live_parameters)
      (record old_position { collateral_amount = 600 }),
  release_call host (withdraw_accounts live_parameters)
        (compute_position_vault_pda_seed host position_id) 400
      ∷ [],
)

payout_run :
    withdraw_collateral host (withdraw_accounts live_parameters) program 400 ≡ ok payout_outcome
unfolding withdraw_collateral check_withdraw read_position verify_position_and_get_seed
    compute_position_pda_seed decode_global compute_protocol_parameters_pda
    compute_stability_fee_accumulator_pda compute_redemption_price_state_pda read_clock read_holding
    release assert_withdrawal verify_position_vault_and_get_seed compute_position_vault_pda_seed
    compute_current_accumulated_rate_wide assert_secure assert_position_is_collateralized
    compute_current_redemption_price_wide project_forward_wide compound_rate_wide
    compound_rate_wide_result compound_wide_loop wide_multiply_if wide_product is_collateralized
    collateralization_values requirement
payout_run = refl

payout_checks :
    check_withdraw host (withdraw_accounts live_parameters) program
    ≡ ok (
      old_position,
      live_parameters,
      old_accumulator,
      old_redemption,
      1001,
      compute_position_vault_pda_seed host position_id,
    )
unfolding check_withdraw decode_global compute_protocol_parameters_pda
    compute_stability_fee_accumulator_pda compute_redemption_price_state_pda read_clock
    read_position verify_position_and_get_seed compute_position_pda_seed
    verify_position_vault_and_get_seed compute_position_vault_pda_seed read_holding
payout_checks = refl

-- The debt of 100 at 2.2 asks for 330.
excessive_payout :
    withdraw_collateral host (withdraw_accounts live_parameters) program 671
    ≡ err Panic.undercollateralized
unfolding withdraw_collateral check_withdraw read_position verify_position_and_get_seed
    compute_position_pda_seed decode_global compute_protocol_parameters_pda
    compute_stability_fee_accumulator_pda compute_redemption_price_state_pda read_clock read_holding
    release assert_withdrawal verify_position_vault_and_get_seed compute_position_vault_pda_seed
    compute_current_accumulated_rate_wide assert_secure assert_position_is_collateralized
    compute_current_redemption_price_wide project_forward_wide compound_rate_wide
    compound_rate_wide_result compound_wide_loop wide_multiply_if wide_product is_collateralized
    collateralization_values requirement
excessive_payout = refl

withdraw_collateral-Withdrawal_example :
    Withdrawal host
      (withdraw_accounts live_parameters)
      400
      (
        old_position,
        live_parameters,
        old_accumulator,
        old_redemption,
        1001,
        compute_position_vault_pda_seed host position_id,
      )
      payout_outcome
withdraw_collateral-Withdrawal_example =
    withdraw_collateral-Withdrawal host (withdraw_accounts live_parameters) program 400 old_position
      live_parameters old_accumulator old_redemption 1001
      (compute_position_vault_pda_seed host position_id) (omega arith) (omega arith) payout_checks
      payout_run

abbrev open_accounts : OpenAccounts Content
open_accounts = record {
  owner = owner_account;
  position = held_by 0 position_id empty;
  vault = held_by 0 vault_id empty;
  user_collateral_holding = held_by 60 22 (holding (TokenHolding.fungible 12 1000));
  collateral_definition = held_by 60 12 (block_time 0);
  protocol_parameters = parameters_account frozen_parameters;
  clock = clock;
}

frozen_read :
    read_parameters host (parameters_account frozen_parameters) program ≡ ok frozen_parameters
unfolding decode_global compute_protocol_parameters_pda
frozen_read = refl

frozen-Refused_example :
    (generate_debt host (generate_accounts frozen_parameters) program 110 ≢ ok loan_outcome)
    × (withdraw_collateral host (withdraw_accounts frozen_parameters) program 400
        ≢ ok payout_outcome)
    × (open_position host open_accounts program 9 1000 ≢ ok ([], []))
frozen-Refused_example =
    frozen-Refused host (generate_accounts frozen_parameters) (withdraw_accounts frozen_parameters)
      open_accounts program frozen_parameters 110 400 9 1000 loan_outcome payout_outcome ([], [])
      frozen_read refl refl refl

-- A protocol with one position that borrows 110 coins and pays back 22.
abbrev empty_accumulator : StabilityFeeAccumulator
empty_accumulator = record {
  accumulated_rate_at_last_accrual = 2 * 10 ^ 27;
  last_accrued_at = 1000;
  total_normalized_debt = 0;
}

abbrev first_position : Position
first_position = new_position 3 9 vault_id 1000 1000

abbrev in_debt : ℕ → Position
in_debt n = record first_position { normalized_debt_amount = n }

abbrev accrual_of : ℕ → ℕ → FeeAccrual
accrual_of total fees = record { accumulator = new_accumulator total; accrued_fees = fees }

first_accrual : accrue_fees live_parameters empty_accumulator 1001 ≡ ok (accrual_of 0 0)
unfolding accrue_fees compute_current_accumulated_rate compound_rate compound_loop multiply_if
    mul_div
first_accrual = refl

first_loan : borrow first_position (new_accumulator 0) 110 ≡ ok (in_debt 50, new_accumulator 50)
unfolding borrow mul_div_ceil
first_loan = refl

second_accrual : accrue_fees live_parameters (new_accumulator 50) 1001 ≡ ok (accrual_of 50 0)
unfolding accrue_fees compute_current_accumulated_rate compound_rate compound_loop multiply_if
    mul_div
second_accrual = refl

first_payment : settle (in_debt 50) (new_accumulator 50) 22 ≡ ok (in_debt 40, new_accumulator 40)
unfolding settle mul_div
first_payment = refl

abbrev after_payment : Protocol
after_payment = record {
  positions = in_debt 40 ∷ [];
  accumulator = new_accumulator 40;
  circulating = 88;
}

after_payment-Reachable : Reachable after_payment
after_payment-Reachable =
    let s₀ : Protocol = record {
      positions = [];
      accumulator = empty_accumulator;
      circulating = 0;
    } in
    let s₁ : Protocol = record s₀ { positions = first_position ∷ [] } in
    let s₂ : Protocol = record {
      positions = in_debt 50 ∷ [];
      accumulator = new_accumulator 50;
      circulating = 110;
    } in
    next
      (next (next (started (2 * 10 ^ 27) 1000) (opened s₀ 3 9 vault_id 1000 1000)) (
        borrowed s₁ live_parameters 1001 0 110 (accrual_of 0 0) first_position (in_debt 50)
          (new_accumulator 50) first_accrual refl first_loan))
      (settled s₂ live_parameters 1001 0 22 (accrual_of 50 0) (in_debt 50) (in_debt 40)
        (new_accumulator 40) second_accrual refl first_payment (omega arith))

Reachable-IsOwed_example : IsOwed after_payment
Reachable-IsOwed_example = Reachable-IsOwed after_payment-Reachable

abbrev accrue_accounts : AccrueAccounts Content
accrue_accounts = record {
  caller = owner_account;
  protocol_parameters = parameters_account live_parameters;
  stability_fee_accumulator = accumulator_account;
  stablecoin_definition = definition_account;
  stablecoin_master_holding = master_account;
  clock = clock;
}

-- The market agrees with the redemption price.
abbrev oracle_account : AccountWithMetadata Content
oracle_account = held_by 90 13 (
    oracle (record {
      base_asset = 11;
      quote_asset = 12;
      price = 2 ^ 64;
      price_timestamp = 1000;
      source_id = 17;
      confidence_interval = 0;
    }))

abbrev new_redemption : RedemptionPriceState
new_redemption = record old_redemption { last_updated_at = 1001 }

abbrev update_diffs : List (AccountStateDiff Content)
update_diffs =
    unchanged owner_account
    ∷ unchanged (parameters_account live_parameters)
    ∷ new redemption_account (redemption new_redemption)
    ∷ unchanged oracle_account
    ∷ unchanged clock
    ∷ []

abbrev refresh_diffs : List (AccountStateDiff Content)
refresh_diffs =
    unchanged owner_account
    ∷ unchanged (parameters_account live_parameters)
    ∷ new accumulator_account (accumulator (new_accumulator 100))
    ∷ unchanged definition_account
    ∷ unchanged master_account
    ∷ new redemption_account (redemption new_redemption)
    ∷ unchanged oracle_account
    ∷ unchanged clock
    ∷ []

update_run :
    update_redemption_rate host
      (record {
        caller = owner_account;
        protocol_parameters = parameters_account live_parameters;
        redemption_price_state = redemption_account;
        market_price_oracle = oracle_account;
        clock = clock;
      })
      program
    ≡ ok (update_diffs, [])
unfolding update_redemption_rate decode_redemption_inputs decode_global
    compute_redemption_price_state_pda read_oracle read_clock advance_redemption_price
    compute_current_redemption_price_wide project_forward_wide compound_rate_wide
    compound_rate_wide_result compound_wide_loop wide_multiply_if wide_product
    bound_redemption_price run_controller_tick oracle_price_to_fixed_point clamp_to_magnitude
    bounded_rate
update_run = refl

refresh_run :
    refresh_globals host accrue_accounts redemption_account oracle_account program
    ≡ ok (refresh_diffs, surplus_call ∷ [])
unfolding refresh_globals decode_redemption_inputs decode_global compute_redemption_price_state_pda
    read_oracle read_clock advance_redemption_price compute_current_redemption_price_wide
    project_forward_wide compound_rate_wide compound_rate_wide_result compound_wide_loop
    wide_multiply_if wide_product bound_redemption_price run_controller_tick
    oracle_price_to_fixed_point clamp_to_magnitude bounded_rate decode_fee_accrual_inputs
    compute_stability_fee_accumulator_pda accrue_fees compute_current_accumulated_rate compound_rate
    compound_loop multiply_if mul_div surplus_mint_call compute_stablecoin_master_holding_pda
    compute_stablecoin_master_holding_pda_seed compute_stablecoin_definition_pda_seed
    refresh_redemption
refresh_run = refl

update_redemption_rate-refresh_globals_example :
    (state : RedemptionPriceState) × (update_diffs ≡ (
      unchanged owner_account
      ∷ unchanged (parameters_account live_parameters)
      ∷ new redemption_account (redemption state)
      ∷ unchanged oracle_account
      ∷ unchanged clock
      ∷ []))
    × Refreshed host accrue_accounts redemption_account oracle_account program
        (some state)
        (refresh_diffs, surplus_call ∷ [])
update_redemption_rate-refresh_globals_example =
    update_redemption_rate-refresh_globals host accrue_accounts owner_account redemption_account
      oracle_account program update_run refresh_run
