-- ===== src/Amm/Pda.antt =====
-- The addresses that the AMM derives: programs/amm/core/src/lib.rs, and the current tick account
-- of programs/twap_oracle/core/src/lib.rs.
use lez_programs.Shared.{
  ℕ, ◌≡◌, List, ◌++◌, arith, ltb, if◌then◌else◌, Result, ok, err, ◌>>=◌, bytes_of,
}
use lez_programs.Host.{AccountId}
use lez_programs.Amm.Core.{AmmHost, Panic}

module _ {Data : Type 0} (h : AmmHost Data) where
  unfoldable pub compute_config_pda_seed : AccountId → List ℕ → ℕ
  compute_config_pda_seed owner nonce =
      h.hash_bytes (bytes_of "CONFIG" ++ (h.to_bytes owner ++ nonce))

  unfoldable pub compute_config_pda : AccountId → AccountId → List ℕ → AccountId
  compute_config_pda amm_program_id owner nonce =
      h.for_public_pda amm_program_id (compute_config_pda_seed owner nonce)

  -- The larger token comes first; a pool of one token with itself panics.
  unfoldable pub compute_pool_pda_seed : AccountId → AccountId → AccountId → Result Panic ℕ
  compute_pool_pda_seed config_id token_a token_b =
      if ltb token_a token_b
      then ok (h.hash_bytes (h.to_bytes config_id ++ (h.to_bytes token_b ++ h.to_bytes token_a)))
      else (if ltb token_b token_a
          then ok
              (h.hash_bytes (h.to_bytes config_id ++ (h.to_bytes token_a ++ h.to_bytes token_b)))
          else err Panic.definitions_match)

  unfoldable pub compute_pool_pda :
      AccountId → AccountId → AccountId → AccountId → Result Panic AccountId
  compute_pool_pda amm_program_id config_id token_a token_b = do
    seed ← compute_pool_pda_seed config_id token_a token_b
    ok (h.for_public_pda amm_program_id seed)

  unfoldable pub compute_vault_pda_seed : AccountId → AccountId → ℕ
  compute_vault_pda_seed pool_id token_id = h.hash_bytes (h.to_bytes pool_id ++ h.to_bytes token_id)

  unfoldable pub compute_vault_pda : AccountId → AccountId → AccountId → AccountId
  compute_vault_pda amm_program_id pool_id token_id =
      h.for_public_pda amm_program_id (compute_vault_pda_seed pool_id token_id)

  unfoldable pub compute_protocol_fee_pda_seed : AccountId → AccountId → ℕ
  compute_protocol_fee_pda_seed config_id token_id =
      h.hash_bytes
        (h.to_bytes config_id ++ (h.to_bytes token_id ++ bytes_of "PROTOCOL_FEE_HOLDING"))

  unfoldable pub compute_protocol_fee_pda : AccountId → AccountId → AccountId → AccountId
  compute_protocol_fee_pda amm_program_id config_id token_id =
      h.for_public_pda amm_program_id (compute_protocol_fee_pda_seed config_id token_id)

  unfoldable pub compute_liquidity_token_pda_seed : AccountId → ℕ
  compute_liquidity_token_pda_seed pool_id =
      h.hash_bytes (h.to_bytes pool_id ++ bytes_of "LIQUIDITY_TOKEN")

  unfoldable pub compute_liquidity_token_pda : AccountId → AccountId → AccountId
  compute_liquidity_token_pda amm_program_id pool_id =
      h.for_public_pda amm_program_id (compute_liquidity_token_pda_seed pool_id)

  unfoldable pub compute_lp_lock_holding_pda_seed : AccountId → ℕ
  compute_lp_lock_holding_pda_seed pool_id =
      h.hash_bytes (h.to_bytes pool_id ++ bytes_of "LP_LOCK_HOLDING")

  unfoldable pub compute_lp_lock_holding_pda : AccountId → AccountId → AccountId
  compute_lp_lock_holding_pda amm_program_id pool_id =
      h.for_public_pda amm_program_id (compute_lp_lock_holding_pda_seed pool_id)

  unfoldable pub compute_current_tick_account_pda : AccountId → AccountId → AccountId
  compute_current_tick_account_pda oracle_program_id price_source_id =
      h.for_public_pda oracle_program_id
        (h.hash_bytes (h.to_bytes price_source_id ++ bytes_of "CURRENT_TICK_ACCOUNT"))

  -- The two orders of a pair of tokens derive one pool address, or both panic.
  pub compute_pool_pda_comm :
      (amm_program_id config_id token_a token_b : AccountId)
      → compute_pool_pda amm_program_id config_id token_a token_b
        ≡ compute_pool_pda amm_program_id config_id token_b token_a
  unfolding compute_pool_pda compute_pool_pda_seed
  compute_pool_pda_comm amm_program_id config_id token_a token_b = ground arith
