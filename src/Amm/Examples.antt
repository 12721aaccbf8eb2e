-- ===== src/Amm/Examples.antt =====
-- The AMM's theorems at a concrete pool, and runs of its handlers.
use lez_programs.Shared.{
  ℕ, ◌+◌, ◌-◌, ◌*◌, ◌/◌, ◌≤◌, ◌^◌, ◌≡◌, ◌↔◌, refl, true, some, List, [], ◌∷◌, arith, ok,
}
use lez_programs.Token.Core.{TokenHolding}
use lez_programs.Amm.Core.{PoolDefinition, ChainedCall, OracleInstruction, transfer_call}
use lez_programs.Amm.Math.{
  mul_div_floor, mul_div_ceil, swap_exact_in_amounts, swap_exact_out_amounts, protocol_fee_amount,
  spot_price_q64_64,
}
use lez_programs.Amm.Math.Pricing.{effective_in, amount_out, swap_exact_in_amounts_optimal}
use lez_programs.Amm.Math.ExactOut.{swap_exact_out_amounts_least, swap_exact_in-swap_exact_out}
use lez_programs.Amm.Pda.{
  compute_pool_pda, compute_pool_pda_seed, compute_vault_pda_seed, compute_protocol_fee_pda,
  compute_protocol_fee_pda_seed, compute_current_tick_account_pda,
}
use lez_programs.Amm.Accounts.{
  read_vault_fungible_balances, read_fungible_holding, read_config, assert_pool_in_config_namespace,
  check_oracle_accounts, owned_by_token_program, oracle_call,
}
use lez_programs.Amm.Swap.{token_of, swap_calls, settle_swap, swap_logic, exact_output_swap_logic}
use lez_programs.Amm.Swap.Handlers.{
  SwapAccounts, validate_swap_setup, update_reserve, finalize_swap, check_swap, trade,
  swap_exact_input, swap_exact_output,
}
use lez_programs.Amm.Swap.Invariant.{
  HasOwnVaults, Swapped, swap_exact_input-Swapped, swap_exact_output-Swapped, swap_diffs,
}
use lez_programs.Amm.Fixture.{
  Stored, empty, pool, config, holding, host, account_at, the_pool, the_config,
}

abbrev pub accounts : SwapAccounts Stored
accounts = record {
  config = account_at 50 4 (config the_config);
  pool = account_at 4053 4 (pool the_pool);
  vault_a = account_at 8054 5 (holding (TokenHolding.fungible 1 4000));
  vault_b = account_at 8055 5 (holding (TokenHolding.fungible 2 1000));
  user_input_holding = account_at 11 5 (holding (TokenHolding.fungible 1 900));
  user_output_holding = account_at 12 5 (holding (TokenHolding.fungible 2 0));
  current_tick_account = account_at 11614 6 empty;
  clock = account_at 8 7 empty;
  protocol_fee_holding = account_at 5592 5 empty;
}

pub accounts-HasOwnVaults : HasOwnVaults host accounts
accounts-HasOwnVaults = omega arith

-- 600 in at 1% leave 594, of which 3 more go to the protocol: 129 are paid out.
abbrev pub traded : PoolDefinition
traded = record the_pool { reserve_a = 4597; reserve_b = 871 }

abbrev pub traded_calls : List ChainedCall
traded_calls =
    transfer_call 5 11 8054 600 []
    ∷ transfer_call 5 8055 12 129 (4055 ∷ [])
    ∷ transfer_call 5 8054 5592 3 (4054 ∷ 1592 ∷ [])
    ∷ oracle_call 6 11614 4053 8 (OracleInstruction.update_current_tick (871 * 2 ^ 64 / 4597)) 53
    ∷ []

pub checked : check_swap host accounts 4 ≡ ok (the_pool, the_config, true)
unfolding check_swap validate_swap_setup read_vault_fungible_balances read_fungible_holding
    read_config assert_pool_in_config_namespace compute_pool_pda compute_pool_pda_seed
    owned_by_token_program token_of compute_protocol_fee_pda compute_protocol_fee_pda_seed
    check_oracle_accounts compute_current_tick_account_pda
checked = refl

pub swapped_in :
    swap_exact_input host accounts 600 100 4 ≡ ok (swap_diffs host accounts traded, traded_calls)
unfolding swap_exact_input check_swap validate_swap_setup read_vault_fungible_balances
    read_fungible_holding read_config assert_pool_in_config_namespace compute_pool_pda
    compute_pool_pda_seed owned_by_token_program token_of compute_protocol_fee_pda
    compute_protocol_fee_pda_seed check_oracle_accounts compute_current_tick_account_pda trade
    swap_logic swap_exact_in_amounts mul_div_floor settle_swap protocol_fee_amount swap_calls
    compute_vault_pda_seed finalize_swap update_reserve spot_price_q64_64
swapped_in = refl

swap_exact_input-Swapped_example :
    Swapped host accounts the_pool (swap_diffs host accounts traded) traded_calls
swap_exact_input-Swapped_example =
    swap_exact_input-Swapped host accounts 600 100 4 the_pool the_config true accounts-HasOwnVaults
      checked (omega arith) swapped_in

abbrev bought : PoolDefinition
bought = record the_pool { reserve_a = 4596; reserve_b = 871 }

abbrev bought_calls : List ChainedCall
bought_calls =
    transfer_call 5 11 8054 599 []
    ∷ transfer_call 5 8055 12 129 (4055 ∷ [])
    ∷ transfer_call 5 8054 5592 3 (4054 ∷ 1592 ∷ [])
    ∷ oracle_call 6 11614 4053 8 (OracleInstruction.update_current_tick (871 * 2 ^ 64 / 4596)) 53
    ∷ []

swapped_out :
    swap_exact_output host accounts 129 650 4 ≡ ok (swap_diffs host accounts bought, bought_calls)
unfolding swap_exact_output check_swap validate_swap_setup read_vault_fungible_balances
    read_fungible_holding read_config assert_pool_in_config_namespace compute_pool_pda
    compute_pool_pda_seed owned_by_token_program token_of compute_protocol_fee_pda
    compute_protocol_fee_pda_seed check_oracle_accounts compute_current_tick_account_pda trade
    exact_output_swap_logic swap_exact_out_amounts mul_div_ceil mul_div_floor settle_swap
    protocol_fee_amount swap_calls compute_vault_pda_seed finalize_swap update_reserve
    spot_price_q64_64
swapped_out = refl

swap_exact_output-Swapped_example :
    Swapped host accounts the_pool (swap_diffs host accounts bought) bought_calls
swap_exact_output-Swapped_example =
    swap_exact_output-Swapped host accounts 129 650 4 the_pool the_config true accounts-HasOwnVaults
      checked (omega arith) swapped_out

swap_exact_in_amounts_optimal_example :
    (out : ℕ) × (swap_exact_in_amounts 600 4000 1000 100 ≡ ok (594, out))
    × ((129 ≤ out) ↔ (4000 * 1000 ≤ (4000 + 594) * (1000 - 129)))
swap_exact_in_amounts_optimal_example =
    swap_exact_in_amounts_optimal 600 4000 1000 100 129 (omega arith) (omega arith) (omega arith)
      (omega arith) (omega arith)

priced : swap_exact_out_amounts 129 4000 1000 100 ≡ ok (some (593, 599))
unfolding swap_exact_out_amounts mul_div_ceil
priced = refl

swap_exact_out_amounts_least_example :
    (129 ≤ amount_out 593 4000 1000)
    × (593 ≤ effective_in 599 100)
    × ((e : ℕ) → 129 ≤ amount_out e 4000 1000 → 593 ≤ e)
    × ((g : ℕ) → 593 ≤ effective_in g 100 → 599 ≤ g)
swap_exact_out_amounts_least_example = swap_exact_out_amounts_least 129 4000 1000 100 priced

swap_exact_in-swap_exact_out_example :
    (paid : ℕ × ℕ) × (swap_exact_in_amounts 599 4000 1000 100 ≡ ok paid)
    × (593 ≤ paid.0)
    × (129 ≤ paid.1)
swap_exact_in-swap_exact_out_example =
    swap_exact_in-swap_exact_out 129 4000 1000 100 (omega arith) priced (omega arith)
