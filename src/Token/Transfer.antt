-- ===== src/Token/Transfer.antt =====
-- programs/token/src/transfer.rs
use lez_programs.Shared.{
  ℕ, true, false, not, List, [], ◌∷◌, ◌==◌, if◌then◌else◌, Result, ok, err, ◌>>=◌, ◌>>◌, guard,
  expect, checked_add, checked_sub,
}
use lez_programs.Host.{AccountWithMetadata, AccountStateDiff, new}
use lez_programs.Token.Core.{
  TokenHolding, nft_master, nft_printed_copy, zeroized_clone_from, definition_id, TokenHost, Panic,
}

-- The `match` on the two holdings: the sender's and the recipient's afterwards.
unfoldable pub move_units :
    TokenHolding → TokenHolding → ℕ → Result Panic (TokenHolding × TokenHolding)
move_units (TokenHolding.fungible s sender_balance) (TokenHolding.fungible r recipient_balance) n =
    do
      sender_balance' ← expect (checked_sub sender_balance n) Panic.insufficient_balance
      recipient_balance' ← expect (checked_add recipient_balance n) Panic.balance_overflow
      ok (TokenHolding.fungible s sender_balance', TokenHolding.fungible r recipient_balance')
move_units (nft_master s sender_balance) (nft_master r recipient_balance) n = do
  guard (recipient_balance == 0) Panic.invalid_nft_amount
  guard (sender_balance == n) Panic.invalid_nft_amount
  ok (nft_master s recipient_balance, nft_master r sender_balance)
move_units (nft_printed_copy s sender_owned) (nft_printed_copy r recipient_owned) n = do
  guard (n == 1) Panic.invalid_nft_amount
  guard sender_owned Panic.copy_not_owned
  guard (not recipient_owned) Panic.copy_already_owned
  ok (nft_printed_copy s false, nft_printed_copy r true)
move_units _ _ _ = err Panic.mismatched_types

module _ {Data : Type 0} (h : TokenHost Data) where
  -- The recipient's holding: a fresh account starts as an empty copy of the sender's.
  unfoldable pub recipient_holding :
      AccountWithMetadata Data → TokenHolding → Result Panic TokenHolding
  recipient_holding recipient sender_holding =
      if h.is_default recipient.account
      then ok (zeroized_clone_from sender_holding)
      else expect (h.holdings.try_from recipient.account.account_data) Panic.invalid_holding

  unfoldable pub transfer :
      AccountWithMetadata Data
      → AccountWithMetadata Data
      → ℕ
      → Result Panic (List (AccountStateDiff Data))
  transfer sender recipient balance_to_move = do
    guard sender.is_authorized Panic.sender_not_authorized
    s ← expect (h.holdings.try_from sender.account.account_data) Panic.invalid_holding
    r ← recipient_holding recipient s
    guard (definition_id s == definition_id r) Panic.definition_mismatch
    (s', r') ← move_units s r balance_to_move
    ok (new sender (h.holdings.into s') ∷ new recipient (h.holdings.into r') ∷ [])
