-- ===== src/Token/Burn.antt =====
-- programs/token/src/burn.rs
use lez_programs.Shared.{
  ℕ, false, List, [], ◌∷◌, ◌==◌, Result, ok, err, ◌>>=◌, ◌>>◌, guard, expect, checked_sub,
}
use lez_programs.Host.{AccountWithMetadata, AccountStateDiff, new}
use lez_programs.Token.Core.{
  TokenHolding, nft_master, nft_printed_copy, definition_id, TokenHost, Panic, TokenDefinition,
  non_fungible,
}

-- The `match` on the definition and the holding: both afterwards.
unfoldable pub burn_units :
    TokenDefinition → TokenHolding → ℕ → Result Panic (TokenDefinition × TokenHolding)
burn_units (TokenDefinition.fungible name total m a) (TokenHolding.fungible d balance) n = do
  balance' ← expect (checked_sub balance n) Panic.insufficient_balance
  total' ← expect (checked_sub total n) Panic.supply_underflow
  ok (TokenDefinition.fungible name total' m a, TokenHolding.fungible d balance')
burn_units (non_fungible name printable m) (nft_master d print_balance) n = do
  printable' ← expect (checked_sub printable n) Panic.supply_underflow
  print_balance' ← expect (checked_sub print_balance n) Panic.insufficient_balance
  ok (non_fungible name printable' m, nft_master d print_balance')
burn_units (non_fungible name printable m) (nft_printed_copy d owned) n = do
  guard (n == 1) Panic.invalid_nft_amount
  guard owned Panic.copy_not_owned
  printable' ← expect (checked_sub printable 1) Panic.supply_underflow
  ok (non_fungible name printable' m, nft_printed_copy d false)
burn_units _ _ _ = err Panic.mismatched_types

module _ {Data : Type 0} (h : TokenHost Data) where
  unfoldable pub burn :
      AccountWithMetadata Data
      → AccountWithMetadata Data
      → ℕ
      → Result Panic (List (AccountStateDiff Data))
  burn definition_account user_holding_account amount_to_burn = do
    guard user_holding_account.is_authorized Panic.holder_not_authorized
    definition ←
        expect (h.definitions.try_from definition_account.account.account_data)
          Panic.invalid_definition
    holding ←
        expect (h.holdings.try_from user_holding_account.account.account_data) Panic.invalid_holding
    guard (definition_account.account_id == definition_id holding) Panic.definition_mismatch
    (definition', holding') ← burn_units definition holding amount_to_burn
    ok (
        new definition_account (h.definitions.into definition')
        ∷ new user_holding_account (h.holdings.into holding')
        ∷ [])
