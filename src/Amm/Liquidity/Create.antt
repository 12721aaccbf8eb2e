-- ===== src/Amm/Liquidity/Create.antt =====
-- Creating a pool: programs/amm/src/new_definition.rs.

use lez_programs.Shared.{
  ℕ, Result, ok, ◌>>=◌, ◌>>◌, guard, expect, List, [], ◌∷◌, ltb, ◌==◌, not, ◌||◌, checked_sub,
  checked_mul_u256, to_u128, some,
}
use lez_programs.Host.{AccountId, AccountWithMetadata, AccountStateDiff, new, unchanged}
use lez_programs.Token.Core.{Instruction}
use lez_programs.Amm.Core.{
  Panic, AmmHost, PoolDefinition, AmmConfig, ChainedCall, CallInstruction, OracleInstruction,
  transfer_call, minimum_liquidity,
}
use lez_programs.Amm.Math.{spot_price_q64_64}
use lez_programs.Amm.Pda.{
  compute_pool_pda, compute_pool_pda_seed, compute_vault_pda, compute_vault_pda_seed,
  compute_liquidity_token_pda, compute_liquidity_token_pda_seed, compute_lp_lock_holding_pda,
  compute_lp_lock_holding_pda_seed, compute_current_tick_account_pda,
}
use lez_programs.Amm.Accounts.{read_config, owned_by_token_program, oracle_call}
use lez_programs.Amm.Swap.{token_of}
use lez_programs.Amm.Liquidity.{mint_call}

pub record NewPoolAccounts (Data : Type 0) : Type 0 where
  pub config : AccountWithMetadata Data
  pub pool : AccountWithMetadata Data
  pub vault_a : AccountWithMetadata Data
  pub vault_b : AccountWithMetadata Data
  pub pool_definition_lp : AccountWithMetadata Data
  pub lp_lock_holding : AccountWithMetadata Data
  pub user_holding_a : AccountWithMetadata Data
  pub user_holding_b : AccountWithMetadata Data
  pub user_holding_lp : AccountWithMetadata Data
  pub current_tick_account : AccountWithMetadata Data
  pub clock : AccountWithMetadata Data

module _ {Data : Type 0} (h : AmmHost Data) where
  unfoldable pub isqrt_product : ℕ → ℕ → Result Panic ℕ
  isqrt_product a b = do
    product ← expect (checked_mul_u256 a b) Panic.intermediate_overflow
    expect (to_u128 (h.square_root product)) Panic.result_overflow

  -- The initial liquidity, and the part of it that the creator receives.
  unfoldable pub initial_liquidity : ℕ → ℕ → Result Panic (ℕ × ℕ)
  initial_liquidity token_a_amount token_b_amount = do
    initial_lp ← isqrt_product token_a_amount token_b_amount
    guard (ltb minimum_liquidity initial_lp) Panic.below_minimum_liquidity
    user_lp ← expect (checked_sub initial_lp minimum_liquidity) Panic.supply_underflow
    ok (initial_lp, user_lp)

  -- The checks of the accounts: the two tokens and the configuration.
  unfoldable pub check_new_pool :
      NewPoolAccounts Data → AccountId → Result Panic (AccountId × AccountId × AmmConfig)
  check_new_pool a amm_program_id = do
    token_a ← token_of h a.user_holding_a
    token_b ← token_of h a.user_holding_b
    config ← read_config h a.config amm_program_id
    owned_by_token_program h a.user_holding_a config.token_program_id Panic.user_holding_not_owned
    owned_by_token_program h a.user_holding_b config.token_program_id Panic.user_holding_not_owned
    guard (not (token_a == token_b)) Panic.same_token
    pda ← compute_pool_pda h amm_program_id a.config.account_id token_a token_b
    guard (a.pool.account_id == pda) Panic.wrong_pool
    guard (a.vault_a.account_id == compute_vault_pda h amm_program_id a.pool.account_id token_a)
        Panic.wrong_vault
    guard (a.vault_b.account_id == compute_vault_pda h amm_program_id a.pool.account_id token_b)
        Panic.wrong_vault
    guard
        (a.pool_definition_lp.account_id
          == compute_liquidity_token_pda h amm_program_id a.pool.account_id)
        Panic.wrong_lp_definition
    guard
        (a.lp_lock_holding.account_id
          == compute_lp_lock_holding_pda h amm_program_id a.pool.account_id)
        Panic.wrong_lp_lock
    guard (h.is_default a.pool.account) Panic.pool_not_default
    guard (not (h.is_default a.user_holding_lp.account) || a.user_holding_lp.is_authorized)
        Panic.lp_holding_not_authorized
    guard
        (a.current_tick_account.account_id
          == compute_current_tick_account_pda h config.twap_oracle_program_id a.pool.account_id)
        Panic.wrong_tick_account
    guard (a.clock.account_id == h.clock_01_program_account_id) Panic.wrong_clock
    ok (token_a, token_b, config)

  unfoldable pub opened_pool :
      NewPoolAccounts Data → AccountId → AccountId → ℕ → ℕ → ℕ → PoolDefinition
  opened_pool a token_a token_b initial_lp token_a_amount token_b_amount = record {
    definition_token_a_id = token_a;
    definition_token_b_id = token_b;
    vault_a_id = a.vault_a.account_id;
    vault_b_id = a.vault_b.account_id;
    liquidity_pool_id = a.pool_definition_lp.account_id;
    liquidity_pool_supply = initial_lp;
    reserve_a = token_a_amount;
    reserve_b = token_b_amount;
  }

  abbrev pub new_pool_diffs : NewPoolAccounts Data → PoolDefinition → List (AccountStateDiff Data)
  new_pool_diffs a p =
      unchanged a.config
      ∷ new a.pool (h.pools.into p)
      ∷ unchanged a.vault_a
      ∷ unchanged a.vault_b
      ∷ unchanged a.pool_definition_lp
      ∷ unchanged a.lp_lock_holding
      ∷ unchanged a.user_holding_a
      ∷ unchanged a.user_holding_b
      ∷ unchanged a.user_holding_lp
      ∷ unchanged a.current_tick_account
      ∷ unchanged a.clock
      ∷ []

  -- The calls: the locked liquidity with its definition, the creator's, and both deposits.
  unfoldable pub new_pool_calls :
      NewPoolAccounts Data
      → AccountId
      → AccountId
      → AccountId
      → ℕ
      → ℕ
      → ℕ
      → ChainedCall
      → List ChainedCall
  new_pool_calls a token_program_id token_a token_b user_lp token_a_amount token_b_amount
        create_tick =
      let pool_id = a.pool.account_id in
      let lp_id = a.pool_definition_lp.account_id in
      record {
        program_id = token_program_id;
        account_ids = lp_id ∷ a.lp_lock_holding.account_id ∷ [];
        instruction =
            CallInstruction.token
              (Instruction.new_fungible_definition "LP Token" minimum_liquidity (some lp_id));
        pda_seeds =
            compute_liquidity_token_pda_seed h pool_id
            ∷ compute_lp_lock_holding_pda_seed h pool_id
            ∷ [];
      }
      ∷ mint_call token_program_id lp_id a.user_holding_lp.account_id user_lp
          (compute_liquidity_token_pda_seed h pool_id)
      ∷ transfer_call token_program_id a.user_holding_b.account_id a.vault_b.account_id
          token_b_amount (compute_vault_pda_seed h pool_id token_b ∷ [])
      ∷ transfer_call token_program_id a.user_holding_a.account_id a.vault_a.account_id
          token_a_amount (compute_vault_pda_seed h pool_id token_a ∷ [])
      ∷ create_tick
      ∷ []

  -- The two amounts are `NonZeroU128`.
  unfoldable pub new_definition :
      NewPoolAccounts Data
      → ℕ
      → ℕ
      → AccountId
      → Result Panic (List (AccountStateDiff Data) × List ChainedCall)
  new_definition a token_a_amount token_b_amount amm_program_id = do
    (token_a, token_b, config) ← check_new_pool a amm_program_id
    (initial_lp, user_lp) ← initial_liquidity token_a_amount token_b_amount
    let p = opened_pool a token_a token_b initial_lp token_a_amount token_b_amount
    initial_price ← spot_price_q64_64 token_a_amount token_b_amount
    seed ← compute_pool_pda_seed h a.config.account_id token_a token_b
    ok (
      new_pool_diffs a p,
      new_pool_calls a config.token_program_id token_a token_b user_lp token_a_amount token_b_amount
          (oracle_call config.twap_oracle_program_id a.current_tick_account.account_id
            a.pool.account_id a.clock.account_id
            (OracleInstruction.create_current_tick_account initial_price) seed),
    )
