-- ===== src/Ata.antt =====
-- The associated token accounts: programs/ata/core/src/lib.rs and the handlers of programs/ata/src.
pub mod Ownership
mod Examples
use lez_programs.Shared.{
  ℕ, Bool, List, [], ◌∷◌, ◌++◌, if◌then◌else◌, ◌==◌, not, Result, ok, ◌>>=◌, ◌>>◌, guard, expect,
}
use lez_programs.Host.{AccountId, Account, AccountWithMetadata, AccountStateDiff, Codec, unchanged}
use lez_programs.Token.Core.{TokenDefinition, TokenHolding, Instruction, definition_id}
use lez_programs.Amm.Core.{ChainedCall, CallInstruction}

pub data Panic : Type 0 where
  not_authorized not_owned not_initialized invalid_data definition_mismatch wrong_address : Panic

-- What the handlers take from the execution layer, as `AmmHost` does.
pub record AtaHost (Data : Type 0) : Type 0 where
  pub definitions : Codec Data TokenDefinition
  pub holdings : Codec Data TokenHolding
  pub is_default : Account Data → Bool
  pub hash_bytes : List ℕ → ℕ
  pub to_bytes : AccountId → List ℕ
  pub for_public_pda : AccountId → ℕ → AccountId

abbrev pub Outcome : Type 0 → Type 0
Outcome Data = List (AccountStateDiff Data) × List ChainedCall

-- A call of the token program with the one seed that authorizes it over the account.
abbrev pub seeded_call : AccountId → AccountId → AccountId → Instruction → ℕ → ChainedCall
seeded_call program first second instruction seed = record {
  program_id = program;
  account_ids = first ∷ second ∷ [];
  instruction = CallInstruction.token instruction;
  pda_seeds = seed ∷ [];
}

module _ {Data : Type 0} (h : AtaHost Data) where
  unfoldable pub compute_ata_seed : (token_program_id owner_id definition : AccountId) → ℕ
  compute_ata_seed token_program_id owner_id definition =
      h.hash_bytes (h.to_bytes token_program_id ++ (h.to_bytes owner_id ++ h.to_bytes definition))

  abbrev pub get_associated_token_account_id : AccountId → ℕ → AccountId
  get_associated_token_account_id ata_program_id seed = h.for_public_pda ata_program_id seed

  unfoldable pub verify_ata_and_get_seed :
      (ata_account owner : AccountWithMetadata Data)
      → (token_program_id definition ata_program_id : AccountId) → Result Panic ℕ
  verify_ata_and_get_seed ata_account owner token_program_id definition ata_program_id = do
    let seed = compute_ata_seed token_program_id owner.account_id definition
    guard (ata_account.account_id == get_associated_token_account_id ata_program_id seed)
        Panic.wrong_address
    ok seed

  -- The definition of a holding that the token program owns.
  unfoldable pub held_definition : AccountWithMetadata Data → AccountId → Result Panic AccountId
  held_definition a token_program_id = do
    guard (a.account.program_owner == token_program_id) Panic.not_owned
    held ← expect (h.holdings.try_from a.account.account_data) Panic.invalid_data
    ok (definition_id held)

  unfoldable pub create_associated_token_account :
      (owner token_definition ata_account : AccountWithMetadata Data)
      → (ata_program_id token_program_id : AccountId) → Result Panic (Outcome Data)
  create_associated_token_account owner token_definition ata_account ata_program_id
        token_program_id =
      do
        guard (token_definition.account.program_owner == token_program_id) Panic.not_owned
        _ ← expect (h.definitions.try_from token_definition.account.account_data) Panic.invalid_data
        seed ←
            verify_ata_and_get_seed ata_account owner token_program_id token_definition.account_id
              ata_program_id
        let state_diffs = unchanged owner ∷ unchanged token_definition ∷ unchanged ata_account ∷ []
        if not (h.is_default ata_account.account)
            then (do
              held ← held_definition ata_account token_program_id
              guard (held == token_definition.account_id) Panic.definition_mismatch
              ok (state_diffs, []))
            else ok (
              state_diffs,
              seeded_call token_program_id token_definition.account_id ata_account.account_id
                    Instruction.initialize_account seed
                  ∷ [],
            )

  unfoldable pub transfer_from_associated_token_account :
      (owner sender_ata recipient : AccountWithMetadata Data)
      → (ata_program_id token_program_id : AccountId) → ℕ
      → Result Panic (Outcome Data)
  transfer_from_associated_token_account owner sender_ata recipient ata_program_id token_program_id
        amount =
      do
        guard owner.is_authorized Panic.not_authorized
        sender_definition ← held_definition sender_ata token_program_id
        seed ←
            verify_ata_and_get_seed sender_ata owner token_program_id sender_definition
              ata_program_id
        guard (not (h.is_default recipient.account)) Panic.not_initialized
        recipient_definition ← held_definition recipient token_program_id
        guard (recipient_definition == sender_definition) Panic.definition_mismatch
        ok (
          unchanged owner ∷ unchanged sender_ata ∷ unchanged recipient ∷ [],
          seeded_call token_program_id sender_ata.account_id recipient.account_id
                (Instruction.transfer amount) seed
              ∷ [],
        )

  unfoldable pub burn_from_associated_token_account :
      (owner holder_ata token_definition : AccountWithMetadata Data)
      → (ata_program_id token_program_id : AccountId) → ℕ
      → Result Panic (Outcome Data)
  burn_from_associated_token_account owner holder_ata token_definition ata_program_id
        token_program_id amount =
      do
        guard owner.is_authorized Panic.not_authorized
        guard (holder_ata.account.program_owner == token_program_id) Panic.not_owned
        guard (token_definition.account.program_owner == token_program_id) Panic.not_owned
        held ← expect (h.holdings.try_from holder_ata.account.account_data) Panic.invalid_data
        guard (definition_id held == token_definition.account_id) Panic.definition_mismatch
        seed ←
            verify_ata_and_get_seed holder_ata owner token_program_id (definition_id held)
              ata_program_id
        ok (
          unchanged owner ∷ unchanged holder_ata ∷ unchanged token_definition ∷ [],
          seeded_call token_program_id token_definition.account_id holder_ata.account_id
                (Instruction.burn amount) seed
              ∷ [],
        )
