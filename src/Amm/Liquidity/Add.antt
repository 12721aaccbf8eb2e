-- ===== src/Amm/Liquidity/Add.antt =====
-- Adding liquidity: programs/amm/src/add.rs.
use lez_programs.Shared.{
  ℕ, Result, ok, ◌>>=◌, ◌>>◌, guard, expect, List, [], ◌∷◌, ltb, leb, ◌==◌, not, ◌&&◌, min,
  if◌then◌else◌, checked_add,
}
use lez_programs.Host.{AccountId, AccountStateDiff}
use lez_programs.Amm.Core.{Panic, AmmHost, PoolDefinition, AmmConfig, ChainedCall, transfer_call}
use lez_programs.Amm.Math.{mul_div_floor}
use lez_programs.Amm.Pda.{compute_liquidity_token_pda_seed}
use lez_programs.Amm.Accounts.{
  read_vault_fungible_balances, read_config, assert_pool_in_config_namespace, check_oracle_accounts,
  owned_by_token_program,
}
use lez_programs.Amm.Liquidity.{LiquidityAccounts, liquidity_diffs, mint_call, update_tick_call}

-- The deposits and the liquidity tokens that they buy: steps 2 to 4.
unfoldable pub add_amounts : PoolDefinition → ℕ → ℕ → ℕ → Result Panic (ℕ × ℕ × ℕ)
add_amounts p max_a max_b min_amount_liquidity = do
  guard (not (p.reserve_a == 0)) Panic.zero_reserve
  guard (not (p.reserve_b == 0)) Panic.zero_reserve
  ideal_a ← mul_div_floor p.reserve_a max_b p.reserve_b
  ideal_b ← mul_div_floor p.reserve_b max_a p.reserve_a
  let actual_a = if ltb max_a ideal_a then max_a else ideal_a
  let actual_b = if ltb max_b ideal_b then max_b else ideal_b
  guard (leb actual_a max_a) Panic.excessive_amount
  guard (leb actual_b max_b) Panic.excessive_amount
  guard (not (actual_a == 0)) Panic.zero_amount
  guard (not (actual_b == 0)) Panic.zero_amount
  for_a ← mul_div_floor p.liquidity_pool_supply actual_a p.reserve_a
  for_b ← mul_div_floor p.liquidity_pool_supply actual_b p.reserve_b
  let delta_lp = min for_a for_b
  guard (not (delta_lp == 0)) Panic.zero_amount
  guard (leb min_amount_liquidity delta_lp) Panic.slippage
  ok (actual_a, actual_b, delta_lp)

-- The pool after the deposits: step 5.
unfoldable pub grow_pool : PoolDefinition → ℕ → ℕ → ℕ → Result Panic PoolDefinition
grow_pool p actual_a actual_b delta_lp = do
  supply ← expect (checked_add p.liquidity_pool_supply delta_lp) Panic.supply_overflow
  reserve_a' ← expect (checked_add p.reserve_a actual_a) Panic.reserve_overflow
  reserve_b' ← expect (checked_add p.reserve_b actual_b) Panic.reserve_overflow
  ok (record p { liquidity_pool_supply = supply; reserve_a = reserve_a'; reserve_b = reserve_b' })

module _ {Data : Type 0} (h : AmmHost Data) where
  -- The checks of the accounts, up to step 2.
  unfoldable pub check_add :
      LiquidityAccounts Data → ℕ → ℕ → AccountId → Result Panic (PoolDefinition × AmmConfig)
  check_add a max_a max_b amm_program_id = do
    config ← read_config h a.config amm_program_id
    p ← expect (h.pools.try_from a.pool.account.account_data) Panic.invalid_pool
    assert_pool_in_config_namespace h a.pool a.config p amm_program_id
    guard (a.vault_a.account_id == p.vault_a_id) Panic.wrong_vault
    guard (p.liquidity_pool_id == a.pool_definition_lp.account_id) Panic.wrong_lp_definition
    guard (a.vault_b.account_id == p.vault_b_id) Panic.wrong_vault
    owned_by_token_program h a.vault_a config.token_program_id Panic.vault_not_owned
    owned_by_token_program h a.vault_b config.token_program_id Panic.vault_not_owned
    owned_by_token_program h a.user_holding_a config.token_program_id Panic.user_holding_not_owned
    owned_by_token_program h a.user_holding_b config.token_program_id Panic.user_holding_not_owned
    check_oracle_accounts h a.clock a.current_tick_account a.pool config.twap_oracle_program_id
    guard (not (max_a == 0) && not (max_b == 0)) Panic.zero_amount
    (vault_a_balance, vault_b_balance) ← read_vault_fungible_balances h a.vault_a a.vault_b
    guard (leb p.reserve_a vault_a_balance) Panic.reserve_exceeds_vault
    guard (leb p.reserve_b vault_b_balance) Panic.reserve_exceeds_vault
    ok (p, config)

  -- The calls: the liquidity tokens are minted to the user, and both deposits go to the vaults.
  unfoldable pub add_calls :
      LiquidityAccounts Data → AccountId → ℕ → ℕ → ℕ → ChainedCall → List ChainedCall
  add_calls a token_program_id actual_a actual_b delta_lp update_tick =
      mint_call token_program_id a.pool_definition_lp.account_id a.user_holding_lp.account_id
        delta_lp (compute_liquidity_token_pda_seed h a.pool.account_id)
      ∷ transfer_call token_program_id a.user_holding_b.account_id a.vault_b.account_id actual_b []
      ∷ transfer_call token_program_id a.user_holding_a.account_id a.vault_a.account_id actual_a []
      ∷ update_tick
      ∷ []

  unfoldable pub add_liquidity :
      LiquidityAccounts Data
      → ℕ
      → ℕ
      → ℕ
      → AccountId
      → Result Panic (List (AccountStateDiff Data) × List ChainedCall)
  add_liquidity a min_amount_liquidity max_a max_b amm_program_id = do
    (p, config) ← check_add a max_a max_b amm_program_id
    (actual_a, actual_b, delta_lp) ← add_amounts p max_a max_b min_amount_liquidity
    p' ← grow_pool p actual_a actual_b delta_lp
    update_tick ←
        update_tick_call h config.twap_oracle_program_id a.config.account_id
          a.current_tick_account.account_id a.pool.account_id a.clock.account_id p'
    ok (
      liquidity_diffs h a p',
      add_calls a config.token_program_id actual_a actual_b delta_lp update_tick,
    )
