-- ===== src/Amm/Core.antt =====
-- The AMM's account types and its limits: programs/amm/core/src/lib.rs.
use lez_programs.Shared.{ℕ, ◌+◌, Bool, List, [], ◌∷◌, ◌==◌, if◌then◌else◌}
use lez_programs.Host.{AccountId, Account, Codec}
use lez_programs.Token.Core.{TokenHolding, Instruction}

-- The messages with which the handlers and the arithmetic panic.
pub data Panic : Type 0 where
  -- arithmetic
  divisor_zero intermediate_overflow result_overflow : Panic
  reserve_overflow reserve_underflow supply_overflow supply_underflow fee_exceeds_input : Panic
  -- accounts
  invalid_pool invalid_config invalid_holding config_not_owned pool_not_owned : Panic
  definitions_match wrong_pool wrong_vault wrong_lp_definition wrong_lp_lock wrong_tick_account
        wrong_clock :
      Panic
  wrong_fee_holding vault_not_owned user_holding_not_owned foreign_token same_token : Panic
  pool_not_default lp_holding_not_authorized : Panic
  -- administration
  owner_not_authorized wrong_config config_not_default not_admin admin_not_authorized : Panic
  fee_holding_not_owned destination_not_owned wrong_destination_token : Panic
  -- amounts
  fee_out_of_range protocol_fee_out_of_range : Panic
  below_minimum_liquidity reserve_exceeds_vault zero_reserve zero_amount zero_minimum : Panic
  slippage excessive_amount no_price locked_liquidity invalid_lp_account : Panic

abbrev pub minimum_liquidity : ℕ
minimum_liquidity = 1000

abbrev pub fee_bps_denominator : ℕ
fee_bps_denominator = 10000

pub record PoolDefinition : Type 0 where
  pub definition_token_a_id : AccountId
  pub definition_token_b_id : AccountId
  pub vault_a_id : AccountId
  pub vault_b_id : AccountId
  pub liquidity_pool_id : AccountId
  pub liquidity_pool_supply : ℕ
  pub reserve_a : ℕ
  pub reserve_b : ℕ

pub record AmmConfig : Type 0 where
  pub token_program_id : AccountId
  pub twap_oracle_program_id : AccountId
  pub authority : AccountId
  pub swap_fee_bps : ℕ
  pub protocol_fee_bps : ℕ

-- What the handlers take from the execution layer: the codecs of the account types, the test
-- `account == Account::default()`, the derivation of program-owned addresses, the id of the
-- canonical one-block clock account, and the integer square root of `U256`.
pub record AmmHost (Data : Type 0) : Type 0 where
  pub pools : Codec Data PoolDefinition
  pub configs : Codec Data AmmConfig
  pub holdings : Codec Data TokenHolding
  pub is_default : Account Data → Bool
  pub hash_bytes : List ℕ → ℕ
  pub to_bytes : AccountId → List ℕ
  pub for_public_pda : AccountId → ℕ → AccountId
  pub clock_01_program_account_id : AccountId
  pub square_root : ℕ → ℕ

-- The instructions of the TWAP oracle that the AMM issues.
pub data OracleInstruction : Type 0 where
  create_current_tick_account update_current_tick : ℕ → OracleInstruction

pub data CallInstruction : Type 0 where
  token : Instruction → CallInstruction
  twap_oracle : OracleInstruction → CallInstruction

-- `ChainedCall::new(program_id, account_ids, &instruction).with_pda_seeds(pda_seeds)`
pub record ChainedCall : Type 0 where
  pub program_id : AccountId
  pub account_ids : List AccountId
  pub instruction : CallInstruction
  pub pda_seeds : List ℕ

abbrev pub transfer_call : AccountId → AccountId → AccountId → ℕ → List ℕ → ChainedCall
transfer_call program from to amount seeds = record {
  program_id = program;
  account_ids = from ∷ to ∷ [];
  instruction = CallInstruction.token (Instruction.transfer amount);
  pda_seeds = seeds;
}

-- What a list of calls transfers into an account, and out of it.
abbrev pub inflow_of : List AccountId → CallInstruction → AccountId → ℕ
inflow_of (from ∷ to ∷ []) (CallInstruction.token (Instruction.transfer n)) x =
    if x == to then n else 0
inflow_of _ _ x = 0

abbrev pub outflow_of : List AccountId → CallInstruction → AccountId → ℕ
outflow_of (from ∷ to ∷ []) (CallInstruction.token (Instruction.transfer n)) x =
    if x == from then n else 0
outflow_of _ _ x = 0

abbrev pub inflow : List ChainedCall → AccountId → ℕ
inflow [] x = 0
inflow (c ∷ calls) x = inflow_of c.account_ids c.instruction x + inflow calls x

abbrev pub outflow : List ChainedCall → AccountId → ℕ
outflow [] x = 0
outflow (c ∷ calls) x = outflow_of c.account_ids c.instruction x + outflow calls x
