-- ===== src/Stablecoin/Positions/Collateral.antt =====
-- Depositing and withdrawing collateral: programs/stablecoin/src/deposit_collateral.rs and
-- withdraw_collateral.rs.
use lez_programs.Shared.{
  ℕ, not, ◌==◌, ◌||◌, if◌then◌else◌, List, [], ◌∷◌, Result, ok, err, ◌>>=◌, ◌>>◌, guard, expect,
  checked_add, checked_sub,
}
use lez_programs.Host.{AccountId, AccountWithMetadata, AccountStateDiff, new, unchanged}
use lez_programs.Token.Core.{TokenHolding, Instruction}
use lez_programs.Amm.Core.{ChainedCall}
use lez_programs.Stablecoin.Core.{Panic}
use lez_programs.Stablecoin.Math.{compute_current_accumulated_rate_wide}
use lez_programs.Stablecoin.State.{
  Position, ProtocolParameters, StabilityFeeAccumulator, RedemptionPriceState, StablecoinHost,
  compute_redemption_price_state_pda, verify_position_vault_and_get_seed,
}
use lez_programs.Stablecoin.Checks.{
  assert_secure, token_call, initialized, read_global, read_parameters, read_accumulator,
  read_clock, read_position, read_holding,
}

pub record DepositAccounts (Data : Type 0) : Type 0 where
  pub owner : AccountWithMetadata Data
  pub position : AccountWithMetadata Data
  pub vault : AccountWithMetadata Data
  pub user_collateral_holding : AccountWithMetadata Data
  pub protocol_parameters : AccountWithMetadata Data

pub record WithdrawAccounts (Data : Type 0) : Type 0 where
  pub owner : AccountWithMetadata Data
  pub position : AccountWithMetadata Data
  pub vault : AccountWithMetadata Data
  pub user_collateral_holding : AccountWithMetadata Data
  pub stability_fee_accumulator : AccountWithMetadata Data
  pub redemption_price_state : AccountWithMetadata Data
  pub protocol_parameters : AccountWithMetadata Data
  pub clock : AccountWithMetadata Data

abbrev pub fungible_balance : TokenHolding → Result Panic ℕ
fungible_balance (TokenHolding.fungible _ balance) = ok balance
fungible_balance _ = err Panic.vault_not_fungible

-- The position after a withdrawal.
unfoldable pub release : Position → ℕ → Result Panic Position
release position amount = do
  new_collateral ← expect (checked_sub position.collateral_amount amount) Panic.collateral_underflow
  ok (record position { collateral_amount = new_collateral })

-- What `withdraw_collateral` asks of the position that it leaves: nothing, if it moves no
-- collateral or there is no debt.
unfoldable pub assert_withdrawal :
    Position
    → ℕ
    → ProtocolParameters
    → StabilityFeeAccumulator
    → RedemptionPriceState
    → ℕ
    → Result Panic (Unit {0})
assert_withdrawal position amount parameters accumulator redemption now =
    if amount == 0 || position.normalized_debt_amount == 0 then ok tt else (do
      current_accumulator ←
          compute_current_accumulated_rate_wide accumulator.accumulated_rate_at_last_accrual
            parameters.stability_fee_per_millisecond accumulator.last_accrued_at now
      assert_secure position current_accumulator redemption now parameters)

module _ {Data : Type 0} (h : StablecoinHost Data) where
  -- The checks of `deposit_collateral`: the position, and the balance of its vault.
  unfoldable pub check_deposit : DepositAccounts Data → AccountId → Result Panic (Position × ℕ)
  check_deposit a program = do
    guard a.owner.is_authorized Panic.not_authorized
    guard a.user_collateral_holding.is_authorized Panic.not_authorized
    position ← read_position h a.owner a.position program
    guard (position.vault_account_id == a.vault.account_id) Panic.wrong_vault
    parameters ← read_parameters h a.protocol_parameters program
    initialized h a.vault
    vault_holding ← read_holding h a.vault parameters.collateral_definition_id
    vault_balance ← fungible_balance vault_holding
    guard (a.user_collateral_holding.account.program_owner == a.vault.account.program_owner)
        Panic.wrong_token_program
    _ ← read_holding h a.user_collateral_holding parameters.collateral_definition_id
    ok (position, vault_balance)

  unfoldable pub deposit_collateral :
      DepositAccounts Data
      → AccountId
      → ℕ
      → Result Panic (List (AccountStateDiff Data) × List ChainedCall)
  deposit_collateral a stablecoin_program_id amount = do
    (position, vault_balance) ← check_deposit a stablecoin_program_id
    new_collateral ← expect (checked_add vault_balance amount) Panic.collateral_overflow
    ok (
      unchanged a.owner
          ∷ new a.position
              (h.positions.into (record position { collateral_amount = new_collateral }))
          ∷ unchanged a.vault
          ∷ unchanged a.user_collateral_holding
          ∷ unchanged a.protocol_parameters
          ∷ [],
      token_call a.vault.account.program_owner
            (a.user_collateral_holding.account_id ∷ a.vault.account_id ∷ [])
            (Instruction.transfer amount) []
          ∷ [],
    )

  -- The checks of `withdraw_collateral`, and what it reads.
  unfoldable pub check_withdraw :
      WithdrawAccounts Data
      → AccountId
      → Result Panic
          (Position × ProtocolParameters × StabilityFeeAccumulator × RedemptionPriceState × ℕ × ℕ)
  check_withdraw a program = do
    parameters ← read_parameters h a.protocol_parameters program
    guard (not parameters.is_frozen) Panic.frozen
    accumulator ← read_accumulator h a.stability_fee_accumulator program
    redemption ←
        read_global h h.redemptions a.redemption_price_state
          (compute_redemption_price_state_pda h program) program
    now ← read_clock h a.clock
    guard a.owner.is_authorized Panic.not_authorized
    position ← read_position h a.owner a.position program
    vault_seed ← verify_position_vault_and_get_seed h a.vault a.position.account_id program
    guard (position.vault_account_id == a.vault.account_id) Panic.wrong_vault
    _ ← read_holding h a.vault parameters.collateral_definition_id
    initialized h a.user_collateral_holding
    guard (a.user_collateral_holding.account.program_owner == a.vault.account.program_owner)
        Panic.wrong_token_program
    _ ← read_holding h a.user_collateral_holding parameters.collateral_definition_id
    ok (position, parameters, accumulator, redemption, now, vault_seed)

  abbrev pub withdraw_diffs : WithdrawAccounts Data → Position → List (AccountStateDiff Data)
  withdraw_diffs a position =
      unchanged a.owner
      ∷ new a.position (h.positions.into position)
      ∷ unchanged a.vault
      ∷ unchanged a.user_collateral_holding
      ∷ unchanged a.stability_fee_accumulator
      ∷ unchanged a.redemption_price_state
      ∷ unchanged a.protocol_parameters
      ∷ unchanged a.clock
      ∷ []

  abbrev pub release_call : WithdrawAccounts Data → ℕ → ℕ → ChainedCall
  release_call a vault_seed amount =
      token_call a.vault.account.program_owner
        (a.vault.account_id ∷ a.user_collateral_holding.account_id ∷ [])
        (Instruction.transfer amount) (vault_seed ∷ [])

  unfoldable pub withdraw_collateral :
      WithdrawAccounts Data
      → AccountId
      → ℕ
      → Result Panic (List (AccountStateDiff Data) × List ChainedCall)
  withdraw_collateral a stablecoin_program_id amount = do
    (position, parameters, accumulator, redemption, now, vault_seed) ←
        check_withdraw a stablecoin_program_id
    position' ← release position amount
    assert_withdrawal position' amount parameters accumulator redemption now
    ok (withdraw_diffs a position', release_call a vault_seed amount ∷ [])
