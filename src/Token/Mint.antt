-- ===== src/Token/Mint.antt =====
-- programs/token/src/mint.rs
use lez_programs.Shared.{
  ℕ, Option, none, some, List, [], ◌∷◌, ◌==◌, if◌then◌else◌, Result, ok, err, ◌>>=◌, ◌>>◌, guard,
  expect, checked_add,
}
use lez_programs.Host.{AccountId, AccountWithMetadata, AccountStateDiff, new, unchanged}
use lez_programs.Token.Core.{
  TokenHolding, nft_master, nft_printed_copy, zeroized_from_definition, definition_id, TokenHost,
  Panic, TokenDefinition, non_fungible,
}

-- The `match` on the definition and the holding: both afterwards.
unfoldable pub mint_units :
    TokenDefinition → TokenHolding → ℕ → Result Panic (TokenDefinition × TokenHolding)
mint_units (TokenDefinition.fungible name total m a) (TokenHolding.fungible d balance) n = do
  balance' ← expect (checked_add balance n) Panic.balance_overflow
  total' ← expect (checked_add total n) Panic.supply_overflow
  ok (TokenDefinition.fungible name total' m a, TokenHolding.fungible d balance')
mint_units (non_fungible _ _ _) (nft_master _ _) n = err Panic.unsupported_for_nft
mint_units (non_fungible _ _ _) (nft_printed_copy _ _) n = err Panic.unsupported_for_nft
mint_units _ _ _ = err Panic.mismatched_types

module _ {Data : Type 0} where
  -- `authority_account.as_ref().unwrap_or(&definition_account)`
  abbrev pub authority_ref :
      AccountWithMetadata Data → Option (AccountWithMetadata Data) → AccountWithMetadata Data
  authority_ref definition_account none = definition_account
  authority_ref definition_account (some authority) = authority

  -- Who mints must sign, and be the stored authority.
  unfoldable pub check_mint_authority :
      TokenDefinition → AccountWithMetadata Data → Result Panic (Unit {0})
  check_mint_authority (TokenDefinition.fungible _ _ _ authority) signer = do
    mint_authority ← expect authority Panic.authority_revoked
    guard signer.is_authorized Panic.authority_not_authorized
    guard (signer.account_id == mint_authority) Panic.not_the_authority
  check_mint_authority (non_fungible _ _ _) signer = ok tt

  -- The read-only authority account is echoed when it is external.
  abbrev pub echo_authority : Option (AccountWithMetadata Data) → List (AccountStateDiff Data)
  echo_authority none = []
  echo_authority (some authority) = unchanged authority ∷ []

module _ {Data : Type 0} (h : TokenHost Data) where
  unfoldable pub user_holding :
      AccountWithMetadata Data → AccountId → TokenDefinition → Result Panic TokenHolding
  user_holding user_holding_account definition_account_id definition =
      if h.is_default user_holding_account.account
      then ok (zeroized_from_definition definition_account_id definition)
      else expect (h.holdings.try_from user_holding_account.account.account_data)
          Panic.invalid_holding

  unfoldable pub mint_inner :
      AccountWithMetadata Data
      → AccountWithMetadata Data
      → Option (AccountWithMetadata Data)
      → ℕ
      → AccountId
      → Result Panic (List (AccountStateDiff Data))
  mint_inner definition_account user_holding_account authority_account amount token_program_id = do
    guard (definition_account.account.program_owner == token_program_id) Panic.definition_not_owned
    definition ←
        expect (h.definitions.try_from definition_account.account.account_data)
          Panic.invalid_definition
    check_mint_authority definition (authority_ref definition_account authority_account)
    holding ← user_holding user_holding_account definition_account.account_id definition
    guard (definition_account.account_id == definition_id holding) Panic.definition_mismatch
    (definition', holding') ← mint_units definition holding amount
    ok (
        new definition_account (h.definitions.into definition')
        ∷ new user_holding_account (h.holdings.into holding')
        ∷ echo_authority authority_account)

  unfoldable pub mint :
      AccountWithMetadata Data
      → AccountWithMetadata Data
      → ℕ
      → AccountId
      → Result Panic (List (AccountStateDiff Data))
  mint definition_account user_holding_account =
      mint_inner definition_account user_holding_account none

  unfoldable pub mint_with_authority :
      AccountWithMetadata Data
      → AccountWithMetadata Data
      → AccountWithMetadata Data
      → ℕ
      → AccountId
      → Result Panic (List (AccountStateDiff Data))
  mint_with_authority definition_account user_holding_account authority_account =
      mint_inner definition_account user_holding_account (some authority_account)
