-- ===== src/Ata/Examples.antt =====
-- Runs of programs/ata/src/transfer.rs, create.rs and burn.rs on a small execution layer, and the
-- theorem on transfers at one of them.
use lez_programs.Shared.{
  ℕ, ◌+◌, ◌*◌, ◌≡◌, refl, Bool, true, false, Option, none, some, List, [], ◌∷◌, ok, err,
}
use lez_programs.Host.{AccountId, AccountWithMetadata, unchanged}
use lez_programs.Token.Core.{TokenDefinition, TokenHolding, Instruction}
use lez_programs.Ata.{
  Panic, AtaHost, Outcome, seeded_call, compute_ata_seed, verify_ata_and_get_seed, held_definition,
  create_associated_token_account, transfer_from_associated_token_account,
  burn_from_associated_token_account,
}
use lez_programs.Ata.Ownership.{Paid, transfer_from_associated_token_account-Paid}

data Stored : Type 0 where
  empty : Stored
  definition : TokenDefinition → Stored
  holding : TokenHolding → Stored

abbrev as_definition : Stored → Option TokenDefinition
as_definition (definition d) = some d
as_definition _ = none

abbrev as_holding : Stored → Option TokenHolding
as_holding (holding t) = some t
as_holding _ = none

abbrev is_empty : Stored → Bool
is_empty empty = true
is_empty _ = false

abbrev digest : List ℕ → ℕ
digest [] = 0
digest (b ∷ bs) = b + 7 * digest bs

abbrev host : AtaHost Stored
host = record {
  definitions = record { try_from = as_definition; into = definition };
  holdings = record { try_from = as_holding; into = holding };
  is_default = λ a. is_empty a.account_data;
  hash_bytes = digest;
  to_bytes = λ id. id ∷ [];
  for_public_pda = λ program seed. program + seed;
}

abbrev held_by : AccountId → AccountId → Stored → AccountWithMetadata Stored
held_by owner id content = record {
  account = record { program_owner = owner; balance = 0; account_data = content; nonce = 0 };
  is_authorized = true;
  account_id = id;
}

abbrev owner : AccountWithMetadata Stored
owner = held_by 0 3 empty

abbrev coin : AccountWithMetadata Stored
coin = held_by 60 11 (definition (TokenDefinition.fungible "coin" 500 none none))

abbrev seed : ℕ
seed = digest (60 ∷ 3 ∷ 11 ∷ [])

abbrev ata : Stored → AccountWithMetadata Stored
ata content = held_by 60 (80 + seed) content

abbrev purse : AccountWithMetadata Stored
purse = ata (holding (TokenHolding.fungible 11 100))

abbrev payee : AccountWithMetadata Stored
payee = held_by 60 22 (holding (TokenHolding.fungible 11 0))

abbrev paid : Outcome Stored
paid = (
  unchanged owner ∷ unchanged purse ∷ unchanged payee ∷ [],
  seeded_call 60 (80 + seed) 22 (Instruction.transfer 40) seed ∷ [],
)

pay : transfer_from_associated_token_account host owner purse payee 80 60 40 ≡ ok paid
unfolding transfer_from_associated_token_account held_definition verify_ata_and_get_seed
    compute_ata_seed
pay = refl

-- A holding that does not exist yet receives nothing.
pay_nobody :
    transfer_from_associated_token_account host owner purse (held_by 0 22 empty) 80 60 40
    ≡ err Panic.not_initialized
unfolding transfer_from_associated_token_account held_definition verify_ata_and_get_seed
    compute_ata_seed
pay_nobody = refl

create_new :
    create_associated_token_account host owner coin (ata empty) 80 60
    ≡ ok (
      unchanged owner ∷ unchanged coin ∷ unchanged (ata empty) ∷ [],
      seeded_call 60 11 (80 + seed) Instruction.initialize_account seed ∷ [],
    )
unfolding create_associated_token_account verify_ata_and_get_seed compute_ata_seed held_definition
create_new = refl

create_again :
    create_associated_token_account host owner coin purse 80 60
    ≡ ok (unchanged owner ∷ unchanged coin ∷ unchanged purse ∷ [], [])
unfolding create_associated_token_account verify_ata_and_get_seed compute_ata_seed held_definition
create_again = refl

burn_some :
    burn_from_associated_token_account host owner purse coin 80 60 7
    ≡ ok (
      unchanged owner ∷ unchanged purse ∷ unchanged coin ∷ [],
      seeded_call 60 11 (80 + seed) (Instruction.burn 7) seed ∷ [],
    )
unfolding burn_from_associated_token_account verify_ata_and_get_seed compute_ata_seed
burn_some = refl

transfer_from_associated_token_account-Paid_example : Paid host owner purse payee 80 60 40 paid
transfer_from_associated_token_account-Paid_example =
    transfer_from_associated_token_account-Paid host owner purse payee 80 60 40 paid pay
