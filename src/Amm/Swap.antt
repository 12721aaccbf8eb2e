-- ===== src/Amm/Swap.antt =====
-- programs/amm/src/swap.rs: the pricing of a swap and its transfers. The handlers around it are in
-- the children.
pub mod Settlement
pub mod Handlers
pub mod Invariant
use lez_programs.Shared.{
  ℕ, ◌+◌, ◌-◌, ◌*◌, ◌/◌, ◌^◌, ◌<◌, ◌≤◌, ◌≡◌, refl, arith, Result, ok, err, some, none, IsU128,
  if◌then◌else◌, bind-eq-ok, leb, ltb, checked_sub, checked_add, ◌==◌, ◌||◌, Option, Bool, true,
  false, not, ◌>>=◌, ◌>>◌, guard, expect, List, [], ◌∷◌, ◌++◌,
}
use lez_programs.Host.{AccountId, AccountWithMetadata, AccountStateDiff, new, unchanged}
use lez_programs.Token.Core.{TokenHolding, definition_id}
use lez_programs.Amm.Core.{
  Panic, AmmHost, PoolDefinition, AmmConfig, ChainedCall, CallInstruction, OracleInstruction,
  transfer_call, minimum_liquidity,
}
use lez_programs.Amm.Math.{
  swap_exact_in_amounts, swap_exact_out_amounts, protocol_fee_amount, spot_price_q64_64,
}
use lez_programs.Amm.Pda.{
  compute_vault_pda_seed, compute_protocol_fee_pda_seed, compute_pool_pda, compute_pool_pda_seed,
  compute_protocol_fee_pda, compute_current_tick_account_pda,
}

module _ {Data : Type 0} (h : AmmHost Data) where
  -- `TokenHolding::try_from(&account.data).expect(..).definition_id()`
  unfoldable pub token_of : AccountWithMetadata Data → Result Panic AccountId
  token_of a = do
    holding ← expect (h.holdings.try_from a.account.account_data) Panic.invalid_holding
    ok (definition_id holding)

  -- The transfers of a swap: the input, the output, and the protocol's cut where there is one.
  unfoldable pub swap_calls :
      AccountWithMetadata Data
      → AccountWithMetadata Data
      → AccountWithMetadata Data
      → AccountWithMetadata Data
      → AccountWithMetadata Data
      → ℕ
      → ℕ
      → ℕ
      → AccountId
      → AccountId
      → AccountId
      → AccountId
      → List ChainedCall
  swap_calls user_deposit vault_deposit vault_withdraw user_withdraw fee_holding amount_in out fee
        deposit_token withdraw_token pool_id config_id =
      let program = user_deposit.account.program_owner in
      transfer_call program user_deposit.account_id vault_deposit.account_id amount_in []
      ∷ transfer_call program vault_withdraw.account_id user_withdraw.account_id out
          (compute_vault_pda_seed h pool_id withdraw_token ∷ [])
      ∷ (if not (fee == 0)
          then transfer_call program vault_deposit.account_id fee_holding.account_id fee (
              compute_vault_pda_seed h pool_id deposit_token
              ∷ compute_protocol_fee_pda_seed h config_id deposit_token
              ∷ [])
            ∷ []
          else [])

  -- What both kinds of swap do once the input, its fee-adjusted part and the output are known.
  unfoldable pub settle_swap :
      AccountWithMetadata Data
      → AccountWithMetadata Data
      → AccountWithMetadata Data
      → AccountWithMetadata Data
      → AccountWithMetadata Data
      → ℕ
      → ℕ
      → ℕ
      → ℕ
      → AccountId
      → AccountId
      → Result Panic (List ChainedCall × ℕ × ℕ)
  settle_swap user_deposit vault_deposit vault_withdraw user_withdraw fee_holding amount_in
        effective out protocol_fee_bps pool_id config_id =
      do
        deposit_token ← token_of vault_deposit
        swap_fee ← expect (checked_sub amount_in effective) Panic.fee_exceeds_input
        protocol_fee ← protocol_fee_amount swap_fee protocol_fee_bps
        withdraw_token ← token_of vault_withdraw
        net_deposit ← expect (checked_sub amount_in protocol_fee) Panic.fee_exceeds_input
        ok (
          swap_calls user_deposit vault_deposit vault_withdraw user_withdraw fee_holding amount_in
              out protocol_fee deposit_token withdraw_token pool_id config_id,
          net_deposit,
          out,
        )

  unfoldable pub swap_logic :
      AccountWithMetadata Data
      → AccountWithMetadata Data
      → AccountWithMetadata Data
      → AccountWithMetadata Data
      → ℕ
      → ℕ
      → ℕ
      → ℕ
      → AccountWithMetadata Data
      → ℕ
      → ℕ
      → AccountId
      → AccountId
      → Result Panic (List ChainedCall × ℕ × ℕ)
  swap_logic user_deposit vault_deposit vault_withdraw user_withdraw swap_amount_in min_amount_out
        fee_bps protocol_fee_bps fee_holding reserve_deposit reserve_withdraw pool_id config_id =
      do
        (effective, withdraw_amount) ←
            swap_exact_in_amounts swap_amount_in reserve_deposit reserve_withdraw fee_bps
        guard (not (effective == 0)) Panic.zero_amount
        guard (leb min_amount_out withdraw_amount) Panic.slippage
        guard (not (withdraw_amount == 0)) Panic.zero_amount
        settle_swap user_deposit vault_deposit vault_withdraw user_withdraw fee_holding
            swap_amount_in effective withdraw_amount protocol_fee_bps pool_id config_id

  unfoldable pub exact_output_swap_logic :
      AccountWithMetadata Data
      → AccountWithMetadata Data
      → AccountWithMetadata Data
      → AccountWithMetadata Data
      → ℕ
      → ℕ
      → ℕ
      → ℕ
      → ℕ
      → ℕ
      → AccountWithMetadata Data
      → AccountId
      → AccountId
      → Result Panic (List ChainedCall × ℕ × ℕ)
  exact_output_swap_logic user_deposit vault_deposit vault_withdraw user_withdraw exact_amount_out
        max_amount_in reserve_deposit reserve_withdraw fee_bps protocol_fee_bps fee_holding pool_id
        config_id =
      do
        guard (not (exact_amount_out == 0)) Panic.zero_amount
        guard (ltb exact_amount_out reserve_withdraw) Panic.excessive_amount
        priced ← swap_exact_out_amounts exact_amount_out reserve_deposit reserve_withdraw fee_bps
        (effective, deposit_amount) ← expect priced Panic.no_price
        guard (leb deposit_amount max_amount_in) Panic.slippage
        settle_swap user_deposit vault_deposit vault_withdraw user_withdraw fee_holding
            deposit_amount effective exact_amount_out protocol_fee_bps pool_id config_id
