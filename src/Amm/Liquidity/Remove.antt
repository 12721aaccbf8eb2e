-- ===== src/Amm/Liquidity/Remove.antt =====
-- Removing liquidity: programs/amm/src/remove.rs.
use lez_programs.Shared.{
  ℕ, Result, ok, ◌>>=◌, ◌>>◌, guard, expect, List, [], ◌∷◌, ltb, leb, ◌==◌, not, checked_sub,
}
use lez_programs.Host.{AccountId, AccountStateDiff}
use lez_programs.Amm.Core.{
  Panic, AmmHost, PoolDefinition, AmmConfig, ChainedCall, transfer_call, minimum_liquidity,
}
use lez_programs.Amm.Math.{mul_div_floor}
use lez_programs.Amm.Pda.{compute_liquidity_token_pda_seed, compute_vault_pda_seed}
use lez_programs.Amm.Accounts.{
  read_fungible_holding, read_config, assert_pool_in_config_namespace, check_oracle_accounts,
  owned_by_token_program,
}
use lez_programs.Amm.Liquidity.{LiquidityAccounts, liquidity_diffs, burn_call, update_tick_call}

-- The withdrawals of a holder of `user_lp_balance`: step 2 after the holding is read, and step 3.
unfoldable pub remove_amounts : PoolDefinition → ℕ → ℕ → ℕ → ℕ → AccountId → Result Panic (ℕ × ℕ)
remove_amounts p user_lp_balance amount min_a min_b lp_token = do
  guard (leb user_lp_balance p.liquidity_pool_supply) Panic.invalid_lp_account
  guard (lp_token == p.liquidity_pool_id) Panic.invalid_lp_account
  guard (ltb minimum_liquidity p.liquidity_pool_supply) Panic.locked_liquidity
  guard (leb amount user_lp_balance) Panic.excessive_amount
  unlocked_liquidity ←
      expect (checked_sub p.liquidity_pool_supply minimum_liquidity) Panic.supply_underflow
  guard (leb amount unlocked_liquidity) Panic.locked_liquidity
  withdraw_a ← mul_div_floor p.reserve_a amount p.liquidity_pool_supply
  withdraw_b ← mul_div_floor p.reserve_b amount p.liquidity_pool_supply
  guard (leb min_a withdraw_a) Panic.slippage
  guard (leb min_b withdraw_b) Panic.slippage
  ok (withdraw_a, withdraw_b)

-- The pool after the withdrawals: step 5.
unfoldable pub shrink_pool : PoolDefinition → ℕ → ℕ → ℕ → Result Panic PoolDefinition
shrink_pool p withdraw_a withdraw_b delta_lp = do
  supply ← expect (checked_sub p.liquidity_pool_supply delta_lp) Panic.supply_underflow
  reserve_a' ← expect (checked_sub p.reserve_a withdraw_a) Panic.reserve_underflow
  reserve_b' ← expect (checked_sub p.reserve_b withdraw_b) Panic.reserve_underflow
  ok (record p { liquidity_pool_supply = supply; reserve_a = reserve_a'; reserve_b = reserve_b' })

module _ {Data : Type 0} (h : AmmHost Data) where
  -- The checks of the accounts, up to step 2.
  unfoldable pub check_remove :
      LiquidityAccounts Data → ℕ → ℕ → AccountId → Result Panic (PoolDefinition × AmmConfig)
  check_remove a min_a min_b amm_program_id = do
    config ← read_config h a.config amm_program_id
    p ← expect (h.pools.try_from a.pool.account.account_data) Panic.invalid_pool
    assert_pool_in_config_namespace h a.pool a.config p amm_program_id
    guard (leb minimum_liquidity p.liquidity_pool_supply) Panic.below_minimum_liquidity
    guard (p.liquidity_pool_id == a.pool_definition_lp.account_id) Panic.wrong_lp_definition
    guard (a.vault_a.account_id == p.vault_a_id) Panic.wrong_vault
    guard (a.vault_b.account_id == p.vault_b_id) Panic.wrong_vault
    owned_by_token_program h a.vault_a config.token_program_id Panic.vault_not_owned
    owned_by_token_program h a.vault_b config.token_program_id Panic.vault_not_owned
    owned_by_token_program h a.user_holding_a config.token_program_id Panic.user_holding_not_owned
    owned_by_token_program h a.user_holding_b config.token_program_id Panic.user_holding_not_owned
    check_oracle_accounts h a.clock a.current_tick_account a.pool config.twap_oracle_program_id
    guard (not (min_a == 0)) Panic.zero_minimum
    guard (not (min_b == 0)) Panic.zero_minimum
    ok (p, config)

  -- The calls: the user's liquidity tokens are burned, and the vaults pay out.
  unfoldable pub remove_calls :
      LiquidityAccounts Data
      → PoolDefinition
      → AccountId
      → ℕ
      → ℕ
      → ℕ
      → ChainedCall
      → List ChainedCall
  remove_calls a p token_program_id withdraw_a withdraw_b delta_lp update_tick =
      burn_call token_program_id a.pool_definition_lp.account_id a.user_holding_lp.account_id
        delta_lp (compute_liquidity_token_pda_seed h a.pool.account_id)
      ∷ transfer_call token_program_id a.vault_b.account_id a.user_holding_b.account_id withdraw_b
          (compute_vault_pda_seed h a.pool.account_id p.definition_token_b_id ∷ [])
      ∷ transfer_call token_program_id a.vault_a.account_id a.user_holding_a.account_id withdraw_a
          (compute_vault_pda_seed h a.pool.account_id p.definition_token_a_id ∷ [])
      ∷ update_tick
      ∷ []

  unfoldable pub remove_liquidity :
      LiquidityAccounts Data
      → ℕ
      → ℕ
      → ℕ
      → AccountId
      → Result Panic (List (AccountStateDiff Data) × List ChainedCall)
  remove_liquidity a amount min_a min_b amm_program_id = do
    (p, config) ← check_remove a min_a min_b amm_program_id
    (lp_token, user_lp_balance) ← read_fungible_holding h a.user_holding_lp
    (withdraw_a, withdraw_b) ← remove_amounts p user_lp_balance amount min_a min_b lp_token
    p' ← shrink_pool p withdraw_a withdraw_b amount
    update_tick ←
        update_tick_call h config.twap_oracle_program_id a.config.account_id
          a.current_tick_account.account_id a.pool.account_id a.clock.account_id p'
    ok (
      liquidity_diffs h a p',
      remove_calls a p config.token_program_id withdraw_a withdraw_b amount update_tick,
    )
