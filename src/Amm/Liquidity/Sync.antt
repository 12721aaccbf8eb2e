-- ===== src/Amm/Liquidity/Sync.antt =====
-- Synchronising the reserves with the vaults: programs/amm/src/sync.rs.
use lez_programs.Shared.{ℕ, Result, ok, ◌>>=◌, ◌>>◌, guard, expect, List, [], ◌∷◌, leb, ◌==◌}
use lez_programs.Host.{AccountId, AccountWithMetadata, AccountStateDiff, new, unchanged}
use lez_programs.Amm.Core.{
  Panic, AmmHost, PoolDefinition, AmmConfig, ChainedCall, minimum_liquidity,
}
use lez_programs.Amm.Accounts.{
  read_vault_fungible_balances, read_config, assert_pool_in_config_namespace, check_oracle_accounts,
}
use lez_programs.Amm.Liquidity.{update_tick_call}

pub record SyncAccounts (Data : Type 0) : Type 0 where
  pub config : AccountWithMetadata Data
  pub pool : AccountWithMetadata Data
  pub vault_a : AccountWithMetadata Data
  pub vault_b : AccountWithMetadata Data
  pub current_tick_account : AccountWithMetadata Data
  pub clock : AccountWithMetadata Data

module _ {Data : Type 0} (h : AmmHost Data) where
  abbrev pub sync_diffs : SyncAccounts Data → PoolDefinition → List (AccountStateDiff Data)
  sync_diffs a p =
      unchanged a.config
      ∷ new a.pool (h.pools.into p)
      ∷ unchanged a.vault_a
      ∷ unchanged a.vault_b
      ∷ unchanged a.current_tick_account
      ∷ unchanged a.clock
      ∷ []

  -- The checks, and the vaults' balances.
  unfoldable pub check_sync :
      SyncAccounts Data → AccountId → Result Panic (PoolDefinition × AmmConfig × ℕ × ℕ)
  check_sync a amm_program_id = do
    guard (a.pool.account.program_owner == amm_program_id) Panic.pool_not_owned
    p ← expect (h.pools.try_from a.pool.account.account_data) Panic.invalid_pool
    config ← read_config h a.config amm_program_id
    assert_pool_in_config_namespace h a.pool a.config p amm_program_id
    guard (leb minimum_liquidity p.liquidity_pool_supply) Panic.below_minimum_liquidity
    guard (a.vault_a.account_id == p.vault_a_id) Panic.wrong_vault
    guard (a.vault_b.account_id == p.vault_b_id) Panic.wrong_vault
    check_oracle_accounts h a.clock a.current_tick_account a.pool config.twap_oracle_program_id
    (vault_a_balance, vault_b_balance) ← read_vault_fungible_balances h a.vault_a a.vault_b
    guard (leb p.reserve_a vault_a_balance) Panic.reserve_exceeds_vault
    guard (leb p.reserve_b vault_b_balance) Panic.reserve_exceeds_vault
    ok (p, config, vault_a_balance, vault_b_balance)

  unfoldable pub sync_reserves :
      SyncAccounts Data → AccountId → Result Panic (List (AccountStateDiff Data) × List ChainedCall)
  sync_reserves a amm_program_id = do
    (p, config, vault_a_balance, vault_b_balance) ← check_sync a amm_program_id
    let p' = record p { reserve_a = vault_a_balance; reserve_b = vault_b_balance }
    update_tick ←
        update_tick_call h config.twap_oracle_program_id a.config.account_id
          a.current_tick_account.account_id a.pool.account_id a.clock.account_id p'
    ok (sync_diffs a p', update_tick ∷ [])
