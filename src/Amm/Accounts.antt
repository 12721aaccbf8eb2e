-- ===== src/Amm/Accounts.antt =====
-- What the AMM's handlers read from the accounts they are handed, and the call by which they
-- refresh the oracle: programs/amm/core/src/lib.rs and the handlers of programs/amm/src.
use lez_programs.Shared.{
  ℕ, ◌≡◌, ◌+◌, arith, Result, ok, err, ◌>>=◌, ◌>>◌, guard, expect, List, [], ◌∷◌, ◌++◌, ◌==◌,
}
use lez_programs.Host.{AccountId, AccountWithMetadata}
use lez_programs.Token.Core.{TokenHolding}
use lez_programs.Amm.Core.{
  Panic, AmmHost, PoolDefinition, AmmConfig, ChainedCall, CallInstruction, OracleInstruction,
  inflow, outflow,
}
use lez_programs.Amm.Pda.{compute_pool_pda, compute_current_tick_account_pda}

abbrev fungible_holding : TokenHolding → Result Panic (AccountId × ℕ)
fungible_holding (TokenHolding.fungible definition_id balance) = ok (definition_id, balance)
fungible_holding _ = err Panic.invalid_holding

module _ {Data : Type 0} (h : AmmHost Data) where
  unfoldable pub read_fungible_holding : AccountWithMetadata Data → Result Panic (AccountId × ℕ)
  read_fungible_holding a = do
    token_holding ← expect (h.holdings.try_from a.account.account_data) Panic.invalid_holding
    fungible_holding token_holding

  unfoldable pub read_vault_fungible_balances :
      AccountWithMetadata Data → AccountWithMetadata Data → Result Panic (ℕ × ℕ)
  read_vault_fungible_balances vault_a vault_b = do
    (_, vault_a_balance) ← read_fungible_holding vault_a
    (_, vault_b_balance) ← read_fungible_holding vault_b
    ok (vault_a_balance, vault_b_balance)

  -- The configuration account is the program's own, and holds a configuration.
  unfoldable pub read_config : AccountWithMetadata Data → AccountId → Result Panic AmmConfig
  read_config config amm_program_id = do
    guard (config.account.program_owner == amm_program_id) Panic.config_not_owned
    expect (h.configs.try_from config.account.account_data) Panic.invalid_config

  unfoldable pub assert_pool_in_config_namespace :
      AccountWithMetadata Data
      → AccountWithMetadata Data
      → PoolDefinition
      → AccountId
      → Result Panic (Unit {0})
  assert_pool_in_config_namespace pool config pool_def amm_program_id = do
    pda ←
        compute_pool_pda h amm_program_id config.account_id pool_def.definition_token_a_id
          pool_def.definition_token_b_id
    guard (pool.account_id == pda) Panic.wrong_pool

  -- The clock is the canonical one, and the tick account is the pool's.
  unfoldable pub check_oracle_accounts :
      AccountWithMetadata Data
      → AccountWithMetadata Data
      → AccountWithMetadata Data
      → AccountId
      → Result Panic (Unit {0})
  check_oracle_accounts clock current_tick_account pool twap_oracle_program_id = do
    guard (clock.account_id == h.clock_01_program_account_id) Panic.wrong_clock
    guard
        (current_tick_account.account_id
          == compute_current_tick_account_pda h twap_oracle_program_id pool.account_id)
        Panic.wrong_tick_account

  unfoldable pub owned_by_token_program :
      AccountWithMetadata Data → AccountId → Panic → Result Panic (Unit {0})
  owned_by_token_program a token_program_id panic =
      guard (a.account.program_owner == token_program_id) panic

abbrev pub oracle_call :
    AccountId → AccountId → AccountId → AccountId → OracleInstruction → ℕ → ChainedCall
oracle_call program current_tick_account pool clock instruction seed = record {
  program_id = program;
  account_ids = current_tick_account ∷ pool ∷ clock ∷ [];
  instruction = CallInstruction.twap_oracle instruction;
  pda_seeds = seed ∷ [];
}

pub inflow-append :
    (cs ds : List ChainedCall) (x : AccountId) → inflow (cs ++ ds) x ≡ inflow cs x + inflow ds x
inflow-append [] ds x = omega arith
inflow-append (c ∷ cs) ds x = omega (arith, inflow-append cs ds x)

pub outflow-append :
    (cs ds : List ChainedCall) (x : AccountId) → outflow (cs ++ ds) x ≡ outflow cs x + outflow ds x
outflow-append [] ds x = omega arith
outflow-append (c ∷ cs) ds x = omega (arith, outflow-append cs ds x)
