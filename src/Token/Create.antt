-- ===== src/Token/Create.antt =====
-- programs/token/src/initialize.rs, print_nft.rs and new_definition.rs: the handlers that write fresh
-- accounts.
use lez_programs.Shared.{
  ℕ, true, not, Option, none, some, List, [], ◌∷◌, ltb, ◌==◌, Result, ok, err, ◌>>=◌, ◌>>◌, guard,
  expect, checked_sub,
}
use lez_programs.Host.{AccountId, AccountWithMetadata, AccountStateDiff, new, unchanged}
use lez_programs.Token.Core.{
  TokenHolding, nft_master, nft_printed_copy, zeroized_from_definition, TokenHost, Panic,
  TokenDefinition, NewTokenDefinition, NewTokenMetadata, TokenMetadata,
}
use Prim.Native.String.{String}

-- A zero account id cannot sign, so it is no authority.
unfoldable pub validate_mint_authority : Option AccountId → Result Panic (Option AccountId)
validate_mint_authority none = ok none
validate_mint_authority (some id) = do guard (not (id == 0)) Panic.zero_authority; ok (some id)

-- What a master holding is after one print, with the definition of the copy.
unfoldable pub print_copy : TokenHolding → Result Panic (TokenHolding × TokenHolding)
print_copy (nft_master d print_balance) = do
  guard (ltb 1 print_balance) Panic.insufficient_balance
  print_balance' ← expect (checked_sub print_balance 1) Panic.insufficient_balance
  ok (nft_master d print_balance', nft_printed_copy d true)
print_copy _ = err Panic.not_a_master

-- What `new_fungible_definition` creates: the definition and the holding of its whole supply.
unfoldable pub create_fungible :
    String → ℕ → Option AccountId → AccountId → Result Panic (TokenDefinition × TokenHolding)
create_fungible name total_supply mint_authority id = do
  authority ← validate_mint_authority mint_authority
  ok (
    TokenDefinition.fungible name total_supply none authority,
    TokenHolding.fungible id total_supply,
  )

-- The `match` on the requested definition: the definition and the holding that are created.
unfoldable pub create_definition :
    NewTokenDefinition → AccountId → AccountId → Result Panic (TokenDefinition × TokenHolding)
create_definition (NewTokenDefinition.fungible name total_supply mint_authority) id metadata_id = do
  authority ← validate_mint_authority mint_authority
  ok (
    TokenDefinition.fungible name total_supply (some metadata_id) authority,
    TokenHolding.fungible id total_supply,
  )
create_definition (NewTokenDefinition.non_fungible name printable_supply) id metadata_id =
    ok (
      TokenDefinition.non_fungible name printable_supply metadata_id,
      nft_master id printable_supply,
    )

module _ {Data : Type 0} (h : TokenHost Data) where
  unfoldable pub initialize_account :
      AccountWithMetadata Data
      → AccountWithMetadata Data
      → AccountId
      → Result Panic (List (AccountStateDiff Data))
  initialize_account definition_account account_to_initialize token_program_id = do
    guard (h.is_default account_to_initialize.account) Panic.target_not_default
    guard account_to_initialize.is_authorized Panic.target_not_authorized
    guard (definition_account.account.program_owner == token_program_id) Panic.definition_not_owned
    definition ←
        expect (h.definitions.try_from definition_account.account.account_data)
          Panic.invalid_definition
    let holding = zeroized_from_definition definition_account.account_id definition
    ok (unchanged definition_account ∷ new account_to_initialize (h.holdings.into holding) ∷ [])

  unfoldable pub print_nft :
      AccountWithMetadata Data
      → AccountWithMetadata Data
      → Result Panic (List (AccountStateDiff Data))
  print_nft master_account printed_account = do
    guard master_account.is_authorized Panic.holder_not_authorized
    guard (h.is_default printed_account.account) Panic.target_not_default
    guard printed_account.is_authorized Panic.target_not_authorized
    master ← expect (h.holdings.try_from master_account.account.account_data) Panic.invalid_holding
    (master', printed) ← print_copy master
    ok (
        new master_account (h.holdings.into master')
        ∷ new printed_account (h.holdings.into printed)
        ∷ [])

  unfoldable pub new_fungible_definition :
      AccountWithMetadata Data
      → AccountWithMetadata Data
      → String
      → ℕ
      → Option AccountId
      → Result Panic (List (AccountStateDiff Data))
  new_fungible_definition definition_target holding_target name total_supply mint_authority = do
    guard (h.is_default definition_target.account) Panic.target_not_default
    guard (h.is_default holding_target.account) Panic.target_not_default
    guard definition_target.is_authorized Panic.target_not_authorized
    guard holding_target.is_authorized Panic.target_not_authorized
    (definition, holding) ←
        create_fungible name total_supply mint_authority definition_target.account_id
    ok (
        new definition_target (h.definitions.into definition)
        ∷ new holding_target (h.holdings.into holding)
        ∷ [])

  unfoldable pub new_definition_with_metadata :
      AccountWithMetadata Data
      → AccountWithMetadata Data
      → AccountWithMetadata Data
      → NewTokenDefinition
      → NewTokenMetadata
      → Result Panic (List (AccountStateDiff Data))
  new_definition_with_metadata definition_target holding_target metadata_target requested metadata =
      do
        guard (h.is_default definition_target.account) Panic.target_not_default
        guard (h.is_default holding_target.account) Panic.target_not_default
        guard (h.is_default metadata_target.account) Panic.target_not_default
        guard definition_target.is_authorized Panic.target_not_authorized
        guard holding_target.is_authorized Panic.target_not_authorized
        guard metadata_target.is_authorized Panic.target_not_authorized
        (definition, holding) ←
            create_definition requested definition_target.account_id metadata_target.account_id
        let token_metadata : TokenMetadata = record {
          definition_id = definition_target.account_id;
          standard = metadata.standard;
          uri = metadata.uri;
          creators = metadata.creators;
          primary_sale_date = 0;
        }
        ok (
            new definition_target (h.definitions.into definition)
            ∷ new holding_target (h.holdings.into holding)
            ∷ new metadata_target (h.metadata.into token_metadata)
            ∷ [])
