-- ===== src/Token/Core.antt =====
-- The account types of the token program: programs/token/core/src/lib.rs.
use Prim.Native.String.{String}
use lez_programs.Shared.{ℕ, Bool, false, Option, if◌then◌else◌}
use lez_programs.Host.{AccountId, Account, Codec}

pub data NewTokenDefinition : Type 0 where
  fungible : String → ℕ → Option AccountId → NewTokenDefinition
  non_fungible : String → ℕ → NewTokenDefinition

-- `Fungible { name, total_supply, metadata_id, authority }` and
-- `NonFungible { name, printable_supply, metadata_id }`
pub data TokenDefinition : Type 0 where
  fungible : String → ℕ → Option AccountId → Option AccountId → TokenDefinition
  non_fungible : String → ℕ → AccountId → TokenDefinition

-- `Fungible { definition_id, balance }`, `NftMaster { definition_id, print_balance }` and
-- `NftPrintedCopy { definition_id, owned }`
pub data TokenHolding : Type 0 where
  fungible : AccountId → ℕ → TokenHolding
  nft_master : AccountId → ℕ → TokenHolding
  nft_printed_copy : AccountId → Bool → TokenHolding

unfoldable pub zeroized_clone_from : TokenHolding → TokenHolding
zeroized_clone_from (TokenHolding.fungible d _) = TokenHolding.fungible d 0
zeroized_clone_from (TokenHolding.nft_master d _) = TokenHolding.nft_master d 0
zeroized_clone_from (TokenHolding.nft_printed_copy d _) = TokenHolding.nft_printed_copy d false

unfoldable pub zeroized_from_definition : AccountId → TokenDefinition → TokenHolding
zeroized_from_definition d (TokenDefinition.fungible _ _ _ _) = TokenHolding.fungible d 0
zeroized_from_definition d (TokenDefinition.non_fungible _ _ _) =
    TokenHolding.nft_printed_copy d false

abbrev pub definition_id : TokenHolding → AccountId
definition_id (TokenHolding.fungible d _) = d
definition_id (TokenHolding.nft_master d _) = d
definition_id (TokenHolding.nft_printed_copy d _) = d

pub data MetadataStandard : Type 0 where
  simple expanded : MetadataStandard

pub record NewTokenMetadata : Type 0 where
  pub standard : MetadataStandard
  pub uri : String
  pub creators : String

pub record TokenMetadata : Type 0 where
  pub definition_id : AccountId
  pub standard : MetadataStandard
  pub uri : String
  pub creators : String
  pub primary_sale_date : ℕ

-- The instructions, in the order of their wire tags.
pub data Instruction : Type 0 where
  transfer : ℕ → Instruction
  new_fungible_definition : String → ℕ → Option AccountId → Instruction
  new_definition_with_metadata : NewTokenDefinition → NewTokenMetadata → Instruction
  initialize_account : Instruction
  burn mint mint_with_authority : ℕ → Instruction
  print_nft : Instruction
  set_authority set_authority_with_authority : Option AccountId → Instruction

-- What the handlers take from the execution layer: the codecs of the three account types, and
-- the test `account == Account::default()`.
pub record TokenHost (Data : Type 0) : Type 0 where
  pub definitions : Codec Data TokenDefinition
  pub holdings : Codec Data TokenHolding
  pub metadata : Codec Data TokenMetadata
  pub is_default : Account Data → Bool

-- The units that a holding stands for: a balance, prints, or one copy.
abbrev pub units : TokenHolding → ℕ
units (TokenHolding.fungible _ balance) = balance
units (TokenHolding.nft_master _ print_balance) = print_balance
units (TokenHolding.nft_printed_copy _ owned) = if owned then 1 else 0

-- The units that a definition says are in circulation.
abbrev pub supply : TokenDefinition → ℕ
supply (TokenDefinition.fungible _ total_supply _ _) = total_supply
supply (TokenDefinition.non_fungible _ printable_supply _) = printable_supply

-- The messages with which the handlers panic.
pub data Panic : Type 0 where
  -- who may act
  sender_not_authorized holder_not_authorized target_not_authorized : Panic
  authority_revoked authority_not_authorized not_the_authority zero_authority : Panic
  -- the accounts that are handed in
  target_not_default invalid_holding invalid_definition definition_not_owned : Panic
  definition_mismatch mismatched_types not_a_master unsupported_for_nft : Panic
  -- amounts
  insufficient_balance balance_overflow supply_overflow supply_underflow : Panic
  invalid_nft_amount copy_not_owned copy_already_owned : Panic
