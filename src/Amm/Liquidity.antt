-- ===== src/Amm/Liquidity.antt =====
-- Liquidity of the AMM, programs/amm/src/add.rs, remove.rs, sync.rs and new_definition.rs: what
-- their handlers share. The handlers are in the children.
pub mod Add
pub mod Remove
pub mod Sync
pub mod Create
pub mod Shares
pub mod Redemption
pub mod Growth
pub mod Calls
pub mod Deposits
pub mod Withdrawals
pub mod Opening
pub mod RoundTrip
pub mod Synced
pub mod Pools
mod Examples
use lez_programs.Shared.{ℕ, ◌+◌, List, [], ◌∷◌, ◌==◌, if◌then◌else◌, Result, ok, ◌>>=◌}
use lez_programs.Host.{AccountId, AccountWithMetadata, AccountStateDiff, new, unchanged}
use lez_programs.Token.Core.{Instruction}
use lez_programs.Amm.Core.{
  Panic, AmmHost, PoolDefinition, ChainedCall, CallInstruction, OracleInstruction,
}
use lez_programs.Amm.Math.{spot_price_q64_64}
use lez_programs.Amm.Pda.{compute_pool_pda_seed}
use lez_programs.Amm.Accounts.{oracle_call}

-- The accounts of adding and of removing liquidity, in the order of the instructions.
pub record LiquidityAccounts (Data : Type 0) : Type 0 where
  pub config : AccountWithMetadata Data
  pub pool : AccountWithMetadata Data
  pub vault_a : AccountWithMetadata Data
  pub vault_b : AccountWithMetadata Data
  pub pool_definition_lp : AccountWithMetadata Data
  pub user_holding_a : AccountWithMetadata Data
  pub user_holding_b : AccountWithMetadata Data
  pub user_holding_lp : AccountWithMetadata Data
  pub current_tick_account : AccountWithMetadata Data
  pub clock : AccountWithMetadata Data

-- The pool data that adding or removing liquidity writes, with the other accounts echoed.
abbrev pub liquidity_diffs :
    {Data : Type 0}
    → AmmHost Data
    → LiquidityAccounts Data
    → PoolDefinition
    → List (AccountStateDiff Data)
liquidity_diffs h a p =
    unchanged a.config
    ∷ new a.pool (h.pools.into p)
    ∷ unchanged a.vault_a
    ∷ unchanged a.vault_b
    ∷ unchanged a.pool_definition_lp
    ∷ unchanged a.user_holding_a
    ∷ unchanged a.user_holding_b
    ∷ unchanged a.user_holding_lp
    ∷ unchanged a.current_tick_account
    ∷ unchanged a.clock
    ∷ []

abbrev pub mint_call : AccountId → AccountId → AccountId → ℕ → ℕ → ChainedCall
mint_call program definition to amount seed = record {
  program_id = program;
  account_ids = definition ∷ to ∷ [];
  instruction = CallInstruction.token (Instruction.mint amount);
  pda_seeds = seed ∷ [];
}

abbrev pub burn_call : AccountId → AccountId → AccountId → ℕ → ℕ → ChainedCall
burn_call program definition from amount seed = record {
  program_id = program;
  account_ids = definition ∷ from ∷ [];
  instruction = CallInstruction.token (Instruction.burn amount);
  pda_seeds = seed ∷ [];
}

-- The call that refreshes the oracle from the pool's new state.
unfoldable pub update_tick_call :
    {Data : Type 0}
    → AmmHost Data
    → AccountId
    → AccountId
    → AccountId
    → AccountId
    → AccountId
    → PoolDefinition
    → Result Panic ChainedCall
update_tick_call h twap_oracle_program_id config_id current_tick_account_id pool_id clock_id p = do
  new_price ← spot_price_q64_64 p.reserve_a p.reserve_b
  seed ← compute_pool_pda_seed h config_id p.definition_token_a_id p.definition_token_b_id
  ok (
      oracle_call twap_oracle_program_id current_tick_account_id pool_id clock_id
        (OracleInstruction.update_current_tick new_price) seed)

-- What a list of calls creates under a definition, and what it destroys.
abbrev pub minted_of : List AccountId → CallInstruction → AccountId → ℕ
minted_of (definition ∷ to ∷ []) (CallInstruction.token (Instruction.mint n)) x =
    if x == definition then n else 0
minted_of (definition ∷ to ∷ []) (CallInstruction.token (Instruction.new_fungible_definition _ n _))
      x =
    if x == definition then n else 0
minted_of _ _ x = 0

abbrev pub burned_of : List AccountId → CallInstruction → AccountId → ℕ
burned_of (definition ∷ from ∷ []) (CallInstruction.token (Instruction.burn n)) x =
    if x == definition then n else 0
burned_of _ _ x = 0

abbrev pub minted : List ChainedCall → AccountId → ℕ
minted [] x = 0
minted (c ∷ calls) x = minted_of c.account_ids c.instruction x + minted calls x

-- The units that a list of calls creates under a definition, with the holdings that they go to, in
-- the order of the calls.
abbrev pub mints_of :
    List AccountId → CallInstruction → AccountId → List (AccountId × ℕ) → List (AccountId × ℕ)
mints_of (definition ∷ to ∷ []) (CallInstruction.token (Instruction.mint n)) x rest =
    if x == definition then (to, n) ∷ rest else rest
mints_of (definition ∷ to ∷ []) (CallInstruction.token (Instruction.new_fungible_definition _ n _))
      x rest =
    if x == definition then (to, n) ∷ rest else rest
mints_of _ _ x rest = rest

abbrev pub mints : List ChainedCall → AccountId → List (AccountId × ℕ)
mints [] x = []
mints (c ∷ calls) x = mints_of c.account_ids c.instruction x (mints calls x)

abbrev pub burned : List ChainedCall → AccountId → ℕ
burned [] x = 0
burned (c ∷ calls) x = burned_of c.account_ids c.instruction x + burned calls x
