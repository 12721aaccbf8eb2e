-- ===== src/Amm/Swap/Handlers.antt =====
-- The swap handlers of programs/amm/src/swap.rs, with every check of the accounts.
use lez_programs.Shared.{
  ℕ, Result, ok, ◌>>=◌, ◌>>◌, guard, expect, List, [], ◌∷◌, ◌++◌, leb, ◌==◌, ◌||◌, if◌then◌else◌,
  checked_add, checked_sub, Bool, true, false,
}
use lez_programs.Host.{AccountId, AccountWithMetadata, AccountStateDiff, new, unchanged}
use lez_programs.Amm.Core.{
  Panic, AmmHost, PoolDefinition, AmmConfig, ChainedCall, OracleInstruction, minimum_liquidity,
}
use lez_programs.Amm.Math.{spot_price_q64_64}
use lez_programs.Amm.Pda.{compute_pool_pda_seed, compute_protocol_fee_pda}
use lez_programs.Amm.Accounts.{
  read_vault_fungible_balances, read_config, assert_pool_in_config_namespace, check_oracle_accounts,
  oracle_call, owned_by_token_program,
}
use lez_programs.Amm.Swap.{token_of, swap_logic, exact_output_swap_logic}

-- The accounts of a swap, in the order of the instruction.
pub record SwapAccounts (Data : Type 0) : Type 0 where
  pub config : AccountWithMetadata Data
  pub pool : AccountWithMetadata Data
  pub vault_a : AccountWithMetadata Data
  pub vault_b : AccountWithMetadata Data
  pub user_input_holding : AccountWithMetadata Data
  pub user_output_holding : AccountWithMetadata Data
  pub current_tick_account : AccountWithMetadata Data
  pub clock : AccountWithMetadata Data
  pub protocol_fee_holding : AccountWithMetadata Data

module _ {Data : Type 0} (h : AmmHost Data) where
  unfoldable pub validate_swap_setup :
      AccountWithMetadata Data
      → AccountWithMetadata Data
      → AccountWithMetadata Data
      → Result Panic PoolDefinition
  validate_swap_setup pool vault_a vault_b = do
    pool_def ← expect (h.pools.try_from pool.account.account_data) Panic.invalid_pool
    guard (leb minimum_liquidity pool_def.liquidity_pool_supply) Panic.below_minimum_liquidity
    guard (vault_a.account_id == pool_def.vault_a_id) Panic.wrong_vault
    guard (vault_b.account_id == pool_def.vault_b_id) Panic.wrong_vault
    (vault_a_balance, vault_b_balance) ← read_vault_fungible_balances h vault_a vault_b
    guard (leb pool_def.reserve_a vault_a_balance) Panic.reserve_exceeds_vault
    guard (leb pool_def.reserve_b vault_b_balance) Panic.reserve_exceeds_vault
    ok pool_def

  -- `reserve + deposit - withdraw`, with both steps checked
  unfoldable pub update_reserve : ℕ → ℕ → ℕ → Result Panic ℕ
  update_reserve reserve deposit withdraw = do
    grown ← expect (checked_add reserve deposit) Panic.reserve_overflow
    expect (checked_sub grown withdraw) Panic.reserve_underflow

  unfoldable pub finalize_swap :
      SwapAccounts Data
      → PoolDefinition
      → ℕ
      → ℕ
      → ℕ
      → ℕ
      → AccountId
      → Result Panic (List (AccountStateDiff Data) × ChainedCall)
  finalize_swap a pool_def deposit_a withdraw_a deposit_b withdraw_b twap_oracle_program_id = do
    reserve_a' ← update_reserve pool_def.reserve_a deposit_a withdraw_a
    reserve_b' ← update_reserve pool_def.reserve_b deposit_b withdraw_b
    new_price ← spot_price_q64_64 reserve_a' reserve_b'
    seed ←
        compute_pool_pda_seed h a.config.account_id pool_def.definition_token_a_id
          pool_def.definition_token_b_id
    ok (
      unchanged a.config
          ∷ new a.pool
              (h.pools.into (record pool_def { reserve_a = reserve_a'; reserve_b = reserve_b' }))
          ∷ unchanged a.vault_a
          ∷ unchanged a.vault_b
          ∷ unchanged a.user_input_holding
          ∷ unchanged a.user_output_holding
          ∷ unchanged a.current_tick_account
          ∷ unchanged a.clock
          ∷ unchanged a.protocol_fee_holding
          ∷ [],
      oracle_call twap_oracle_program_id a.current_tick_account.account_id a.pool.account_id
          a.clock.account_id (OracleInstruction.update_current_tick new_price) seed,
    )

  -- The checks of a swap, up to its pricing: the pool, the configuration, and whether the input
  -- is token A.
  unfoldable pub check_swap :
      SwapAccounts Data → AccountId → Result Panic (PoolDefinition × AmmConfig × Bool)
  check_swap a amm_program_id = do
    pool_def ← validate_swap_setup a.pool a.vault_a a.vault_b
    config ← read_config h a.config amm_program_id
    assert_pool_in_config_namespace h a.pool a.config pool_def amm_program_id
    owned_by_token_program h a.vault_a config.token_program_id Panic.vault_not_owned
    owned_by_token_program h a.vault_b config.token_program_id Panic.vault_not_owned
    token_in ← token_of h a.user_input_holding
    let a_in = token_in == pool_def.definition_token_a_id
    guard (a_in || token_in == pool_def.definition_token_b_id) Panic.foreign_token
    owned_by_token_program h (if a_in then a.user_input_holding else a.user_output_holding)
        config.token_program_id Panic.user_holding_not_owned
    owned_by_token_program h (if a_in then a.user_output_holding else a.user_input_holding)
        config.token_program_id Panic.user_holding_not_owned
    guard
        (a.protocol_fee_holding.account_id
          == compute_protocol_fee_pda h amm_program_id a.config.account_id token_in)
        Panic.wrong_fee_holding
    check_oracle_accounts h a.clock a.current_tick_account a.pool config.twap_oracle_program_id
    ok (pool_def, config, a_in)

  -- The pricing of one kind of swap: the configuration, the vault of the input and that of the
  -- output, and the two reserves.
  abbrev pub Logic : Type 0
  Logic =
      AmmConfig
      → AccountWithMetadata Data
      → AccountWithMetadata Data
      → ℕ
      → ℕ
      → Result Panic (List ChainedCall × ℕ × ℕ)

  -- The pricing in the direction of the input, and the new pool state.
  unfoldable pub trade :
      SwapAccounts Data
      → PoolDefinition
      → AmmConfig
      → Bool
      → Logic
      → Result Panic (List (AccountStateDiff Data) × List ChainedCall)
  trade a pool_def config a_in logic = elim a_in [
    | true ↦ do
      (calls, deposit_a, withdraw_b) ←
          logic config a.vault_a a.vault_b pool_def.reserve_a pool_def.reserve_b
      (diffs, update_tick) ←
          finalize_swap a pool_def deposit_a 0 0 withdraw_b config.twap_oracle_program_id
      ok (diffs, calls ++ update_tick ∷ [])
    | false ↦ do
      (calls, deposit_b, withdraw_a) ←
          logic config a.vault_b a.vault_a pool_def.reserve_b pool_def.reserve_a
      (diffs, update_tick) ←
          finalize_swap a pool_def 0 withdraw_a deposit_b 0 config.twap_oracle_program_id
      ok (diffs, calls ++ update_tick ∷ [])
  ]

  unfoldable pub swap_exact_input :
      SwapAccounts Data
      → ℕ
      → ℕ
      → AccountId
      → Result Panic (List (AccountStateDiff Data) × List ChainedCall)
  swap_exact_input a swap_amount_in min_amount_out amm_program_id = do
    (pool_def, config, a_in) ← check_swap a amm_program_id
    trade a pool_def config a_in λ c vault_deposit vault_withdraw reserve_deposit reserve_withdraw.
        swap_logic h a.user_input_holding vault_deposit vault_withdraw a.user_output_holding
          swap_amount_in min_amount_out c.swap_fee_bps c.protocol_fee_bps a.protocol_fee_holding
          reserve_deposit reserve_withdraw a.pool.account_id a.config.account_id

  unfoldable pub swap_exact_output :
      SwapAccounts Data
      → ℕ
      → ℕ
      → AccountId
      → Result Panic (List (AccountStateDiff Data) × List ChainedCall)
  swap_exact_output a exact_amount_out max_amount_in amm_program_id = do
    (pool_def, config, a_in) ← check_swap a amm_program_id
    trade a pool_def config a_in λ c vault_deposit vault_withdraw reserve_deposit reserve_withdraw.
        exact_output_swap_logic h a.user_input_holding vault_deposit vault_withdraw
          a.user_output_holding exact_amount_out max_amount_in reserve_deposit reserve_withdraw
          c.swap_fee_bps c.protocol_fee_bps a.protocol_fee_holding a.pool.account_id
          a.config.account_id
