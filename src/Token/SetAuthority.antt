-- ===== src/Token/SetAuthority.antt =====
-- programs/token/src/set_authority.rs
use lez_programs.Shared.{
  not, Option, none, some, List, ◌∷◌, ◌==◌, Result, ok, err, ◌>>=◌, ◌>>◌, guard, expect,
}
use lez_programs.Host.{AccountId, AccountWithMetadata, AccountStateDiff, new}
use lez_programs.Token.Core.{TokenHost, Panic, TokenDefinition, non_fungible}
use lez_programs.Token.Mint.{authority_ref, echo_authority}

-- A new authority, where one is given, is not the zero account.
abbrev check_new_authority : Option AccountId → Result Panic (Unit {0})
check_new_authority none = ok tt
check_new_authority (some id) = guard (not (id == 0)) Panic.zero_authority

-- The `match` on the definition: the definition with the new authority.
unfoldable pub rotate :
    {Data : Type 0}
    → TokenDefinition
    → AccountWithMetadata Data
    → Option AccountId
    → Result Panic TokenDefinition
rotate (TokenDefinition.fungible name total m authority) signer new_authority = do
  current ← expect authority Panic.authority_revoked
  guard signer.is_authorized Panic.authority_not_authorized
  guard (signer.account_id == current) Panic.not_the_authority
  check_new_authority new_authority
  ok (TokenDefinition.fungible name total m new_authority)
rotate (non_fungible _ _ _) signer new_authority = err Panic.unsupported_for_nft

module _ {Data : Type 0} (h : TokenHost Data) where
  unfoldable pub set_authority_inner :
      AccountWithMetadata Data
      → Option (AccountWithMetadata Data)
      → Option AccountId
      → AccountId
      → Result Panic (List (AccountStateDiff Data))
  set_authority_inner definition_account authority_account new_authority token_program_id = do
    guard (definition_account.account.program_owner == token_program_id) Panic.definition_not_owned
    definition ←
        expect (h.definitions.try_from definition_account.account.account_data)
          Panic.invalid_definition
    definition' ←
        rotate definition (authority_ref definition_account authority_account) new_authority
    ok (new definition_account (h.definitions.into definition') ∷ echo_authority authority_account)

  unfoldable pub set_authority :
      AccountWithMetadata Data
      → Option AccountId
      → AccountId
      → Result Panic (List (AccountStateDiff Data))
  set_authority definition_account = set_authority_inner definition_account none

  unfoldable pub set_authority_with_authority :
      AccountWithMetadata Data
      → AccountWithMetadata Data
      → Option AccountId
      → AccountId
      → Result Panic (List (AccountStateDiff Data))
  set_authority_with_authority definition_account authority_account =
      set_authority_inner definition_account (some authority_account)
