-- ===== src/Stablecoin/Admin/Examples.antt =====
-- A bootstrap of programs/stablecoin/src/initialize_program.rs and the instructions of
-- programs/stablecoin/src/admin.rs on the execution layer of Stablecoin/Runs.antt, and the
-- theorems on them at these runs.
use lez_programs.Shared.{◌+◌, ◌*◌, ◌^◌, ◌≡◌, refl, some, none, [], ◌∷◌, pos, neg, ok, err}
use lez_programs.Host.{AccountId, AccountWithMetadata, new, unchanged}
use lez_programs.Token.Core.{TokenDefinition, Instruction}
use lez_programs.Amm.Core.{CallInstruction}
use lez_programs.Stablecoin.Core.{Panic}
use lez_programs.Stablecoin.State.{
  ProtocolParameters, compute_protocol_parameters_pda, compute_stability_fee_accumulator_pda,
  compute_redemption_price_state_pda, compute_stablecoin_definition_pda,
  compute_stablecoin_definition_pda_seed, compute_stablecoin_master_holding_pda,
  compute_stablecoin_master_holding_pda_seed,
}
use lez_programs.Stablecoin.Math.{
  compute_current_accumulated_rate, compound_rate, compound_loop, multiply_if, mul_div,
}
use lez_programs.Stablecoin.Checks.{
  accrue_fees, decode_global, read_parameters, read_clock, surplus_mint_call, token_call,
}
use lez_programs.Stablecoin.Positions.Security.{Outcome}
use lez_programs.Stablecoin.Admin.{
  assert_stability_fee_in_band, assert_collateralization_ratio_in_band, assert_gain_in_band,
  assert_controller_gains_in_band, assert_timing_milliseconds_in_band, tune_ratio, tune_gains,
  AdminInstruction, AdminAccounts, assert_admin_authorized, update_parameters, assert_quotes,
  set_stability_fee, run_admin,
}
use lez_programs.Stablecoin.Admin.Bootstrap.{
  InitializeAccounts, InitializeProgramParams, check_bounds, initial_parameters,
  initial_accumulator, initial_redemption, check_targets, check_collateral, initialize_program,
}
use lez_programs.Stablecoin.Admin.Bands.{InBands}
use lez_programs.Stablecoin.Admin.History.{Administered, Administered-InBands}
use lez_programs.Stablecoin.Admin.Accrual.{Accrued, set_stability_fee-accrue_stability_fee}
use lez_programs.Stablecoin.Runs.{
  Content, host, program, held_by, live_parameters, definition_account, master_account,
  accumulator_account, clock, parameters_account,
}

abbrev fresh : AccountId → AccountWithMetadata Content
fresh id = held_by 0 id Content.empty

abbrev admin : AccountWithMetadata Content
admin = fresh 1

abbrev launch : InitializeAccounts Content
launch = record {
  admin = admin;
  protocol_parameters = fresh (compute_protocol_parameters_pda host program);
  stability_fee_accumulator = fresh (compute_stability_fee_accumulator_pda host program);
  redemption_price_state = fresh (compute_redemption_price_state_pda host program);
  stablecoin_definition = fresh (compute_stablecoin_definition_pda host program);
  stablecoin_master_holding = fresh (compute_stablecoin_master_holding_pda host program);
  collateral_definition =
      held_by 60 12 (Content.definition (TokenDefinition.fungible "coin" 1000 none none));
  market_price_oracle = fresh 13;
  clock = clock;
}

abbrev launch_params : InitializeProgramParams
launch_params = record {
  freeze_authority_account_id = 2;
  initial_stability_fee_per_millisecond = 10 ^ 27 + 1500000000000000;
  initial_controller_proportional_gain = pos 5;
  initial_controller_integral_gain = pos 1;
  initial_minimum_collateralization_ratio = 15 * 10 ^ 26;
  minimum_milliseconds_between_rate_updates = 1000;
  maximum_oracle_price_age_milliseconds = 60000;
  initial_redemption_price = 10 ^ 27;
  stablecoin_name = "dollar";
}

abbrev launched : ProtocolParameters
launched = initial_parameters launch launch_params

abbrev launch_outcome : Outcome Content
launch_outcome = (
  unchanged admin
      ∷ new launch.protocol_parameters (Content.parameters launched)
      ∷ new launch.stability_fee_accumulator (Content.accumulator (initial_accumulator 1001))
      ∷ new launch.redemption_price_state
          (Content.redemption (initial_redemption launch_params 1001))
      ∷ unchanged launch.stablecoin_definition
      ∷ unchanged launch.stablecoin_master_holding
      ∷ unchanged launch.collateral_definition
      ∷ unchanged launch.market_price_oracle
      ∷ unchanged clock
      ∷ [],
  record {
    program_id = 60;
    account_ids =
        compute_stablecoin_definition_pda host program
        ∷ compute_stablecoin_master_holding_pda host program
        ∷ [];
    instruction = CallInstruction.token (
        Instruction.new_fungible_definition "dollar" 0
          (some (compute_stablecoin_definition_pda host program)));
    pda_seeds =
        compute_stablecoin_definition_pda_seed host
        ∷ compute_stablecoin_master_holding_pda_seed host
        ∷ [];
  }
      ∷ [],
)

launch_run : initialize_program host launch program launch_params ≡ ok launch_outcome
unfolding initialize_program check_targets read_clock check_collateral assert_quotes check_bounds
    assert_stability_fee_in_band assert_collateralization_ratio_in_band
    assert_controller_gains_in_band assert_gain_in_band assert_timing_milliseconds_in_band
    compute_protocol_parameters_pda compute_stability_fee_accumulator_pda
    compute_redemption_price_state_pda compute_stablecoin_definition_pda
    compute_stablecoin_master_holding_pda compute_stablecoin_definition_pda_seed
    compute_stablecoin_master_holding_pda_seed
launch_run = refl

abbrev admin_accounts : ProtocolParameters → AdminAccounts Content
admin_accounts p = record {
  admin = admin;
  protocol_parameters = parameters_account p;
  stability_fee_accumulator = accumulator_account;
  stablecoin_definition = definition_account;
  stablecoin_master_holding = master_account;
  clock = clock;
  new_oracle = fresh 14;
}

abbrev tightened : ProtocolParameters
tightened = record launched { minimum_collateralization_ratio = 2 * 10 ^ 27 }

abbrev tightening : AdminInstruction
tightening = AdminInstruction.set_minimum_collateralization_ratio (2 * 10 ^ 27)

abbrev tightening_outcome : Outcome Content
tightening_outcome =
    (unchanged admin ∷ new (parameters_account launched) (Content.parameters tightened) ∷ [], [])

launched_read : read_parameters host (parameters_account launched) program ≡ ok launched
unfolding decode_global compute_protocol_parameters_pda
launched_read = refl

tightening_run : run_admin host (admin_accounts launched) program tightening ≡ ok tightening_outcome
unfolding run_admin update_parameters assert_admin_authorized tune_ratio
    assert_collateralization_ratio_in_band decode_global compute_protocol_parameters_pda
tightening_run = refl

-- A negative gain is refused.
negative_gain :
    run_admin host
      (admin_accounts launched)
      program
      (AdminInstruction.set_controller_gains (neg 1) (pos 0))
    ≡ err Panic.out_of_band
unfolding run_admin update_parameters assert_admin_authorized tune_gains
    assert_controller_gains_in_band assert_gain_in_band decode_global
    compute_protocol_parameters_pda
negative_gain = refl

Administered-InBands_example :
    InBands tightened
    × (tightened.stablecoin_definition_id ≡ compute_stablecoin_definition_pda host program)
    × (tightened.collateral_definition_id ≡ 12)
Administered-InBands_example =
    Administered-InBands host (λ p. refl)
      (Administered.retuned (admin_accounts launched) program tightening tightening_outcome
        (Content.parameters tightened) [] tightened
        (Administered.bootstrapped launch program launch_params launch_outcome
          (Content.parameters launched) _ launched refl refl launch_run refl refl)
        launched_read tightening_run refl refl)

-- The debt of 100 at the old fee of ten percent owes 20 in the millisecond before the fee falls.
abbrev cheaper : ProtocolParameters
cheaper = record live_parameters { stability_fee_per_millisecond = 10 ^ 27 }

abbrev cheaper_outcome : Outcome Content
cheaper_outcome = (
  unchanged admin
      ∷ new (parameters_account live_parameters) (Content.parameters cheaper)
      ∷ new accumulator_account (
          Content.accumulator (record {
            accumulated_rate_at_last_accrual = 22 * 10 ^ 26;
            last_accrued_at = 1001;
            total_normalized_debt = 100;
          }))
      ∷ unchanged definition_account
      ∷ unchanged master_account
      ∷ unchanged clock
      ∷ [],
  token_call 60 (11 ∷ compute_stablecoin_master_holding_pda host program ∷ []) (Instruction.mint 20)
        (compute_stablecoin_definition_pda_seed host ∷ [])
      ∷ [],
)

live_read : read_parameters host (parameters_account live_parameters) program ≡ ok live_parameters
unfolding decode_global compute_protocol_parameters_pda
live_read = refl

cheaper_run :
    set_stability_fee host (admin_accounts live_parameters) program (10 ^ 27) ≡ ok cheaper_outcome
unfolding set_stability_fee assert_admin_authorized assert_stability_fee_in_band decode_global
    compute_protocol_parameters_pda compute_stability_fee_accumulator_pda read_clock accrue_fees
    compute_current_accumulated_rate compound_rate compound_loop multiply_if mul_div
    surplus_mint_call compute_stablecoin_master_holding_pda
    compute_stablecoin_master_holding_pda_seed
cheaper_run = refl

set_stability_fee-accrue_stability_fee_example :
    Accrued host live_parameters
      (admin_accounts live_parameters)
      (fresh 77)
      program
      (10 ^ 27)
      cheaper_outcome
set_stability_fee-accrue_stability_fee_example =
    set_stability_fee-accrue_stability_fee host (admin_accounts live_parameters) (fresh 77) program
      (10 ^ 27) live_parameters cheaper_outcome refl live_read cheaper_run
