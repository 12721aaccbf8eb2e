-- ===== src/Amm/Liquidity/Examples.antt =====
-- The theorems on liquidity at a concrete pool, and runs of its handlers.
use lez_programs.Shared.{ℕ, ◌≡◌, ◌≤◌, ◌*◌, ◌/◌, ◌^◌, refl, true, arith, ok, some, List, [], ◌∷◌}
use lez_programs.Token.Core.{TokenHolding, Instruction}
use lez_programs.Amm.Core.{
  PoolDefinition, ChainedCall, CallInstruction, OracleInstruction, transfer_call,
}
use lez_programs.Amm.Accounts.{
  oracle_call, read_config, owned_by_token_program, assert_pool_in_config_namespace,
  check_oracle_accounts, read_vault_fungible_balances, read_fungible_holding,
}
use lez_programs.Amm.Swap.Invariant.{swap_diffs}
use lez_programs.Amm.Fixture.{
  Stored, empty, pool, config, holding, host, host-RoundTrips, root-IsFloorSquareRoot, account_at,
  the_pool, the_config,
}
use lez_programs.Amm.Liquidity.{
  LiquidityAccounts, liquidity_diffs, mint_call, burn_call, update_tick_call,
}
use lez_programs.Amm.Liquidity.Create.{
  NewPoolAccounts, new_pool_diffs, check_new_pool, new_definition, initial_liquidity, isqrt_product,
  opened_pool, new_pool_calls,
}
use lez_programs.Amm.Swap.{token_of}
use lez_programs.Amm.Pda.{
  compute_pool_pda, compute_pool_pda_seed, compute_vault_pda, compute_vault_pda_seed,
  compute_liquidity_token_pda, compute_liquidity_token_pda_seed, compute_lp_lock_holding_pda,
  compute_lp_lock_holding_pda_seed, compute_current_tick_account_pda,
}
use lez_programs.Amm.Math.{spot_price_q64_64, mul_div_floor}
use lez_programs.Amm.Liquidity.Opening.{HasFreshVaults, Opened, new_definition-Opened}
use lez_programs.Amm.Examples.{
  accounts, accounts-HasOwnVaults, checked, swapped_in, traded, traded_calls,
}
use lez_programs.Amm.Liquidity.Add.{add_amounts, grow_pool, check_add, add_liquidity, add_calls}
use lez_programs.Amm.Liquidity.Remove.{
  remove_amounts, check_remove, remove_liquidity, shrink_pool, remove_calls,
}
use lez_programs.Amm.Liquidity.Sync.{SyncAccounts, sync_diffs, check_sync, sync_reserves}
use lez_programs.Amm.Liquidity.Calls.{HasSeparateVaults}
use lez_programs.Amm.Liquidity.Deposits.{Added, add_liquidity-Added}
use lez_programs.Amm.Liquidity.Withdrawals.{Removed, remove_liquidity-Removed}
use lez_programs.Amm.Liquidity.Synced.{Synced, sync_reserves-Synced}
use lez_programs.Amm.Liquidity.RoundTrip.{add_amounts-remove_amounts}
use lez_programs.Amm.Liquidity.Growth.{Grows, product, square}
use lez_programs.Amm.Liquidity.Pools.{Step, Life, Life-Grows}

abbrev opening : NewPoolAccounts Stored
opening = record {
  config = account_at 50 4 (config the_config);
  pool = account_at 4053 0 empty;
  vault_a = account_at 8054 0 empty;
  vault_b = account_at 8055 0 empty;
  pool_definition_lp = account_at 9235 0 empty;
  lp_lock_holding = account_at 9213 0 empty;
  user_holding_a = account_at 11 5 (holding (TokenHolding.fungible 1 9000));
  user_holding_b = account_at 12 5 (holding (TokenHolding.fungible 2 9000));
  user_holding_lp = account_at 13 0 empty;
  current_tick_account = account_at 11614 0 empty;
  clock = account_at 8 7 empty;
}

abbrev opening_calls : List ChainedCall
opening_calls =
    record {
      program_id = 5;
      account_ids = 9235 ∷ 9213 ∷ [];
      instruction =
          CallInstruction.token (Instruction.new_fungible_definition "LP Token" 1000 (some 9235));
      pda_seeds = 5235 ∷ 5213 ∷ [];
    }
    ∷ mint_call 5 9235 13 1000 5235
    ∷ transfer_call 5 12 8055 1000 (4055 ∷ [])
    ∷ transfer_call 5 11 8054 4000 (4054 ∷ [])
    ∷ oracle_call 6 11614 4053 8 (OracleInstruction.create_current_tick_account (2 ^ 62)) 53
    ∷ []

opening_checked : check_new_pool host opening 4 ≡ ok (1, 2, the_config)
unfolding check_new_pool token_of read_config owned_by_token_program compute_pool_pda
    compute_pool_pda_seed compute_vault_pda compute_vault_pda_seed compute_liquidity_token_pda
    compute_liquidity_token_pda_seed compute_lp_lock_holding_pda compute_lp_lock_holding_pda_seed
    compute_current_tick_account_pda
opening_checked = refl

opening_ran :
    new_definition host opening 4000 1000 4
    ≡ ok (new_pool_diffs host opening the_pool, opening_calls)
unfolding new_definition check_new_pool token_of read_config owned_by_token_program compute_pool_pda
    compute_pool_pda_seed compute_vault_pda compute_vault_pda_seed compute_liquidity_token_pda
    compute_liquidity_token_pda_seed compute_lp_lock_holding_pda compute_lp_lock_holding_pda_seed
    compute_current_tick_account_pda initial_liquidity isqrt_product spot_price_q64_64 opened_pool
    new_pool_calls
opening_ran = refl

opening-HasFreshVaults : HasFreshVaults opening
opening-HasFreshVaults = omega arith

new_definition-Opened_example :
    Opened host opening 1 2 4000 1000 (new_pool_diffs host opening the_pool) opening_calls
new_definition-Opened_example =
    new_definition-Opened host opening 4000 1000 4 1 2 the_config root-IsFloorSquareRoot
      opening-HasFreshVaults opening_checked opening_ran

abbrev pool_accounts : PoolDefinition → ℕ → LiquidityAccounts Stored
pool_accounts p lp = record {
  config = account_at 50 4 (config the_config);
  pool = account_at 4053 4 (pool p);
  vault_a = account_at 8054 5 (holding (TokenHolding.fungible 1 p.reserve_a));
  vault_b = account_at 8055 5 (holding (TokenHolding.fungible 2 p.reserve_b));
  pool_definition_lp = account_at 9235 5 empty;
  user_holding_a = account_at 11 5 (holding (TokenHolding.fungible 1 900));
  user_holding_b = account_at 12 5 (holding (TokenHolding.fungible 2 900));
  user_holding_lp = account_at 13 5 (holding (TokenHolding.fungible 9235 lp));
  current_tick_account = account_at 11614 6 empty;
  clock = account_at 8 7 empty;
}

-- A deposit after the swap: 400 and 75 for 172.
abbrev grown : PoolDefinition
grown = record the_pool { liquidity_pool_supply = 2172; reserve_a = 4997; reserve_b = 946 }

abbrev deposit_calls : List ChainedCall
deposit_calls =
    mint_call 5 9235 13 172 5235
    ∷ transfer_call 5 12 8055 75 []
    ∷ transfer_call 5 11 8054 400 []
    ∷ oracle_call 6 11614 4053 8 (OracleInstruction.update_current_tick (946 * 2 ^ 64 / 4997)) 53
    ∷ []

deposit_checked : check_add host (pool_accounts traded 0) 400 150 4 ≡ ok (traded, the_config)
unfolding check_add read_config assert_pool_in_config_namespace compute_pool_pda
    compute_pool_pda_seed owned_by_token_program check_oracle_accounts
    compute_current_tick_account_pda read_vault_fungible_balances read_fungible_holding
deposit_checked = refl

deposit_ran :
    add_liquidity host (pool_accounts traded 0) 100 400 150 4
    ≡ ok (liquidity_diffs host (pool_accounts traded 0) grown, deposit_calls)
unfolding add_liquidity check_add read_config assert_pool_in_config_namespace compute_pool_pda
    compute_pool_pda_seed owned_by_token_program check_oracle_accounts
    compute_current_tick_account_pda read_vault_fungible_balances read_fungible_holding add_amounts
    mul_div_floor grow_pool update_tick_call spot_price_q64_64 add_calls
    compute_liquidity_token_pda_seed
deposit_ran = refl

deposit-HasSeparateVaults : HasSeparateVaults host (pool_accounts traded 0)
deposit-HasSeparateVaults = omega arith

add_liquidity-Added_example :
    Added host
      (pool_accounts traded 0)
      traded
      400
      150
      100
      (liquidity_diffs host (pool_accounts traded 0) grown)
      deposit_calls
add_liquidity-Added_example =
    add_liquidity-Added host (pool_accounts traded 0) 100 400 150 4 traded the_config
      deposit-HasSeparateVaults deposit_checked deposit_ran

-- The same liquidity taken out again: 395 and 74.
abbrev shrunk : PoolDefinition
shrunk = record the_pool { reserve_a = 4602; reserve_b = 872 }

abbrev withdrawal_calls : List ChainedCall
withdrawal_calls =
    burn_call 5 9235 13 172 5235
    ∷ transfer_call 5 8055 12 74 (4055 ∷ [])
    ∷ transfer_call 5 8054 11 395 (4054 ∷ [])
    ∷ oracle_call 6 11614 4053 8 (OracleInstruction.update_current_tick (872 * 2 ^ 64 / 4602)) 53
    ∷ []

withdrawal_checked : check_remove host (pool_accounts grown 172) 1 1 4 ≡ ok (grown, the_config)
unfolding check_remove read_config assert_pool_in_config_namespace compute_pool_pda
    compute_pool_pda_seed owned_by_token_program check_oracle_accounts
    compute_current_tick_account_pda
withdrawal_checked = refl

withdrawal_ran :
    remove_liquidity host (pool_accounts grown 172) 172 1 1 4
    ≡ ok (liquidity_diffs host (pool_accounts grown 172) shrunk, withdrawal_calls)
unfolding remove_liquidity check_remove read_config assert_pool_in_config_namespace compute_pool_pda
    compute_pool_pda_seed owned_by_token_program check_oracle_accounts
    compute_current_tick_account_pda read_fungible_holding remove_amounts mul_div_floor shrink_pool
    update_tick_call spot_price_q64_64 remove_calls compute_liquidity_token_pda_seed
    compute_vault_pda_seed
withdrawal_ran = refl

withdrawal-HasSeparateVaults : HasSeparateVaults host (pool_accounts grown 172)
withdrawal-HasSeparateVaults = omega arith

remove_liquidity-Removed_example :
    Removed host
      (pool_accounts grown 172)
      grown
      172
      1
      1
      (liquidity_diffs host (pool_accounts grown 172) shrunk)
      withdrawal_calls
remove_liquidity-Removed_example =
    remove_liquidity-Removed host (pool_accounts grown 172) 172 1 1 4 grown the_config
      withdrawal-HasSeparateVaults withdrawal_checked withdrawal_ran

deposit_priced : add_amounts traded 400 150 100 ≡ ok (400, 75, 172)
unfolding add_amounts mul_div_floor
deposit_priced = refl

deposit_grows : grow_pool traded 400 75 172 ≡ ok grown
unfolding grow_pool
deposit_grows = refl

withdrawal_priced : remove_amounts grown 172 172 1 1 9235 ≡ ok (395, 74)
unfolding remove_amounts mul_div_floor
withdrawal_priced = refl

add_amounts-remove_amounts_example : (395 ≤ 400) × (74 ≤ 75)
add_amounts-remove_amounts_example =
    add_amounts-remove_amounts traded grown 400 150 100 400 75 172 172 1 1 9235 395 74
      deposit_priced deposit_grows withdrawal_priced

-- A donation of 28 to vault B, taken up.
abbrev donated : SyncAccounts Stored
donated = record {
  config = account_at 50 4 (config the_config);
  pool = account_at 4053 4 (pool shrunk);
  vault_a = account_at 8054 5 (holding (TokenHolding.fungible 1 4602));
  vault_b = account_at 8055 5 (holding (TokenHolding.fungible 2 900));
  current_tick_account = account_at 11614 6 empty;
  clock = account_at 8 7 empty;
}

abbrev synced_pool : PoolDefinition
synced_pool = record the_pool { reserve_a = 4602; reserve_b = 900 }

abbrev sync_call : List ChainedCall
sync_call =
    oracle_call 6 11614 4053 8 (OracleInstruction.update_current_tick (900 * 2 ^ 64 / 4602)) 53 ∷ []

donation_checked : check_sync host donated 4 ≡ ok (shrunk, the_config, 4602, 900)
unfolding check_sync read_config assert_pool_in_config_namespace compute_pool_pda
    compute_pool_pda_seed check_oracle_accounts compute_current_tick_account_pda
    read_vault_fungible_balances read_fungible_holding
donation_checked = refl

donation_ran : sync_reserves host donated 4 ≡ ok (sync_diffs host donated synced_pool, sync_call)
unfolding sync_reserves check_sync read_config assert_pool_in_config_namespace compute_pool_pda
    compute_pool_pda_seed check_oracle_accounts compute_current_tick_account_pda
    read_vault_fungible_balances read_fungible_holding update_tick_call spot_price_q64_64
donation_ran = refl

sync_reserves-Synced_example :
    Synced host donated shrunk (sync_diffs host donated synced_pool) sync_call
sync_reserves-Synced_example =
    sync_reserves-Synced host donated 4 shrunk the_config 4602 900 donation_checked donation_ran

-- Creation, a swap, a deposit, its withdrawal and a donation.
whole-Life : Life host the_pool synced_pool
whole-Life =
    Life.continued
      (Life.continued
        (Life.continued
          (Life.continued
            (Life.opened opening 4000 1000 4 1 2 the_config (new_pool_diffs host opening the_pool)
              opening_calls opening-HasFreshVaults opening_checked opening_ran refl)
            (Step.swapped_input accounts 600 100 4 the_config true (swap_diffs host accounts traded)
              traded_calls accounts-HasOwnVaults (omega arith) checked swapped_in refl))
          (Step.added (pool_accounts traded 0) 100 400 150 4 the_config
            (liquidity_diffs host (pool_accounts traded 0) grown) deposit_calls
            deposit-HasSeparateVaults deposit_checked deposit_ran refl))
        (Step.removed (pool_accounts grown 172) 172 1 1 4 the_config
          (liquidity_diffs host (pool_accounts grown 172) shrunk) withdrawal_calls
          withdrawal-HasSeparateVaults withdrawal_checked withdrawal_ran refl))
      (Step.synced donated 4 the_config 4602 900 (sync_diffs host donated synced_pool) sync_call
        donation_checked donation_ran refl)

Life-Grows_example : Grows the_pool synced_pool × (square synced_pool ≤ product synced_pool)
Life-Grows_example = Life-Grows host host-RoundTrips root-IsFloorSquareRoot whole-Life
