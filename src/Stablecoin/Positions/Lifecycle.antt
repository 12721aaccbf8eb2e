-- ===== src/Stablecoin/Positions/Lifecycle.antt =====
-- Opening and closing a position: programs/stablecoin/src/open_position.rs and close_position.rs.
use lez_programs.Shared.{ℕ, not, ◌==◌, List, [], ◌∷◌, Result, ok, ◌>>=◌, ◌>>◌, guard, expect}
use lez_programs.Host.{AccountId, AccountWithMetadata, AccountStateDiff, new, unchanged}
use lez_programs.Token.Core.{Instruction}
use lez_programs.Amm.Core.{ChainedCall}
use lez_programs.Stablecoin.Core.{Panic}
use lez_programs.Stablecoin.State.{
  Position, StablecoinHost, verify_position_and_get_seed, verify_position_vault_and_get_seed,
}
use lez_programs.Stablecoin.Checks.{
  token_call, read_parameters, read_clock, read_position, read_holding,
}
use lez_programs.Stablecoin.Positions.Collateral.{fungible_balance}

pub record OpenAccounts (Data : Type 0) : Type 0 where
  pub owner : AccountWithMetadata Data
  pub position : AccountWithMetadata Data
  pub vault : AccountWithMetadata Data
  pub user_collateral_holding : AccountWithMetadata Data
  pub collateral_definition : AccountWithMetadata Data
  pub protocol_parameters : AccountWithMetadata Data
  pub clock : AccountWithMetadata Data

pub record CloseAccounts (Data : Type 0) : Type 0 where
  pub owner : AccountWithMetadata Data
  pub position : AccountWithMetadata Data
  pub vault : AccountWithMetadata Data
  pub protocol_parameters : AccountWithMetadata Data

-- A position that has borrowed nothing.
abbrev pub new_position : AccountId → ℕ → AccountId → ℕ → ℕ → Position
new_position owner nonce vault amount now = record {
  owner_account_id = owner;
  position_nonce = nonce;
  vault_account_id = vault;
  collateral_amount = amount;
  normalized_debt_amount = 0;
  opened_at = now;
}

module _ {Data : Type 0} (h : StablecoinHost Data) where
  -- The checks of `open_position`: the time, and the seed of the vault's address.
  unfoldable pub check_open : OpenAccounts Data → AccountId → ℕ → Result Panic (ℕ × ℕ)
  check_open a program position_nonce = do
    guard a.owner.is_authorized Panic.not_authorized
    guard a.user_collateral_holding.is_authorized Panic.not_authorized
    guard (h.is_default a.position.account) Panic.already_initialized
    guard (h.is_default a.vault.account) Panic.already_initialized
    parameters ← read_parameters h a.protocol_parameters program
    guard (not parameters.is_frozen) Panic.frozen
    guard (a.collateral_definition.account_id == parameters.collateral_definition_id)
        Panic.wrong_definition
    now ← read_clock h a.clock
    _ ← read_holding h a.user_collateral_holding a.collateral_definition.account_id
    guard
        (a.collateral_definition.account.program_owner
          == a.user_collateral_holding.account.program_owner)
        Panic.wrong_token_program
    _ ← verify_position_and_get_seed h a.position a.owner position_nonce program
    vault_seed ← verify_position_vault_and_get_seed h a.vault a.position.account_id program
    ok (now, vault_seed)

  unfoldable pub open_position :
      OpenAccounts Data
      → AccountId
      → ℕ
      → ℕ
      → Result Panic (List (AccountStateDiff Data) × List ChainedCall)
  open_position a stablecoin_program_id position_nonce initial_collateral_amount = do
    (now, vault_seed) ← check_open a stablecoin_program_id position_nonce
    let token_program_id = a.user_collateral_holding.account.program_owner
    ok (
      unchanged a.owner
          ∷ new a.position (
              h.positions.into (
                new_position a.owner.account_id position_nonce a.vault.account_id
                  initial_collateral_amount now))
          ∷ unchanged a.vault
          ∷ unchanged a.user_collateral_holding
          ∷ unchanged a.collateral_definition
          ∷ unchanged a.protocol_parameters
          ∷ unchanged a.clock
          ∷ [],
      token_call token_program_id (a.collateral_definition.account_id ∷ a.vault.account_id ∷ [])
            Instruction.initialize_account (vault_seed ∷ [])
          ∷ token_call token_program_id
              (a.user_collateral_holding.account_id ∷ a.vault.account_id ∷ [])
              (Instruction.transfer initial_collateral_amount) []
          ∷ [],
    )

  unfoldable pub close_position :
      CloseAccounts Data
      → AccountId
      → Result Panic (List (AccountStateDiff Data) × List ChainedCall)
  close_position a stablecoin_program_id = do
    guard a.owner.is_authorized Panic.not_authorized
    position ← read_position h a.owner a.position stablecoin_program_id
    _ ← read_parameters h a.protocol_parameters stablecoin_program_id
    guard (position.normalized_debt_amount == 0) Panic.outstanding_debt
    guard (position.collateral_amount == 0) Panic.outstanding_collateral
    guard (position.vault_account_id == a.vault.account_id) Panic.wrong_vault
    vault_holding ←
        expect (h.token_holdings.try_from a.vault.account.account_data) Panic.invalid_data
    vault_balance ← fungible_balance vault_holding
    guard (vault_balance == 0) Panic.vault_not_empty
    ok (
      unchanged a.owner
          ∷ new a.position h.default_data
          ∷ unchanged a.vault
          ∷ unchanged a.protocol_parameters
          ∷ [],
      [],
    )
