-- ===== src/Host.antt =====
-- The interface of the execution layer (`lee_core`, `spel_framework`, Borsh), as the programs use
-- it: the fields of accounts that they read, the diffs that they return, and the codecs that
-- turn account data into values. The layer itself is not part of the repository: its types are
-- read off the programs' uses, and its functions are parameters.
use lez_programs.Shared.{ℕ, ◌≡◌, Bool, Option, some}

-- `lee_core::account::AccountId`: its 32 bytes read as one big-endian number, so that the order
-- of the byte arrays is the order of the numbers and `[0u8; 32]` is 0.
abbrev pub AccountId : Type 0
AccountId = ℕ

-- `TryFrom<&Data> for A` and `From<&A> for Data`, by Borsh.
pub record Codec (Data A : Type 0) : Type 0 where
  pub try_from : Data → Option A
  pub into : A → Data

-- What Borsh documents: decoding an encoded value gives the value back.
abbrev pub RoundTrips : {Data A : Type 0} → Codec Data A → Type 0
RoundTrips {A} c = (a : A) → c.try_from (c.into a) ≡ some a

-- `lee_core::account::Account`
pub record Account (Data : Type 0) : Type 0 where
  pub program_owner : AccountId
  pub balance : ℕ
  pub account_data : Data
  pub nonce : ℕ

-- `lee_core::account::AccountWithMetadata`
pub record AccountWithMetadata (Data : Type 0) : Type 0 where
  pub account : Account Data
  pub is_authorized : Bool
  pub account_id : AccountId

-- `lee_core::program::AccountStateDiff`, by the two constructors that the programs call. Every
-- `new` of theirs has the balance change `BalanceDiff::Add(0)`.
pub data AccountStateDiff (Data : Type 0) : Type 0 where
  new : AccountWithMetadata Data → Data → AccountStateDiff Data
  unchanged : AccountWithMetadata Data → AccountStateDiff Data

-- The data that the account of a diff ends up with.
abbrev pub post_data : {Data : Type 0} → AccountStateDiff Data → Data
post_data (AccountStateDiff.new pre d) = d
post_data (AccountStateDiff.unchanged pre) = pre.account.account_data
