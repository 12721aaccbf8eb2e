-- ===== src/Token/Examples.antt =====
-- The token program's theorems at concrete accounts, and runs of its handlers.
use lez_programs.Shared.{
  ℕ, ◌+◌, ◌<◌, ◌≤◌, ◌^◌, ◌≡◌, ◌≢◌, ◌↔◌, refl, Bool, true, false, Option, none, some, List, [], ◌∷◌,
  arith, ok, err,
}
use lez_programs.Host.{AccountId, AccountWithMetadata, AccountStateDiff, new, unchanged}
use lez_programs.Token.Core.{
  TokenHolding, nft_master, nft_printed_copy, zeroized_clone_from, zeroized_from_definition,
  TokenMetadata, TokenHost, TokenDefinition, non_fungible, NewTokenDefinition, Panic,
}
use lez_programs.Token.Transfer.{move_units, recipient_holding, transfer}
use lez_programs.Token.Mint.{mint_units, check_mint_authority, user_holding, mint_inner}
use lez_programs.Token.Burn.{burn_units, burn}
use lez_programs.Token.SetAuthority.{rotate, set_authority_inner}
use lez_programs.Token.Create.{create_definition, print_copy}
use lez_programs.Token.Outcome.{
  Transferred, transfer-Transferred, Minted, mint_inner-Minted, Burned, burn-Burned, transfer_iff,
}
use lez_programs.Token.Authority.{IsRevoked, revoked_is_final}
use lez_programs.Token.Ledger.{Ledger, Step, Reachable, Reachable-IsBacked, circulating}

-- Account data that stores the value itself.
data Stored : Type 0 where
  empty : Stored
  definition : TokenDefinition → Stored
  holding : TokenHolding → Stored
  metadata : TokenMetadata → Stored

abbrev to_definition : Stored → Option TokenDefinition
to_definition (definition d) = some d
to_definition _ = none

abbrev to_holding : Stored → Option TokenHolding
to_holding (holding t) = some t
to_holding _ = none

abbrev to_metadata : Stored → Option TokenMetadata
to_metadata (metadata m) = some m
to_metadata _ = none

abbrev is_empty : Stored → Bool
is_empty empty = true
is_empty _ = false

abbrev host : TokenHost Stored
host = record {
  definitions = record { try_from = to_definition; into = definition };
  holdings = record { try_from = to_holding; into = holding };
  metadata = record { try_from = to_metadata; into = metadata };
  is_default = λ a. is_empty a.account_data;
}

abbrev account_at : AccountId → Bool → Stored → AccountWithMetadata Stored
account_at id authorized stored = record {
  account = record { program_owner = 7; balance = 0; account_data = stored; nonce = 0 };
  is_authorized = authorized;
  account_id = id;
}

abbrev coin : Option AccountId → TokenDefinition
coin authority = TokenDefinition.fungible "coin" 100 none authority

abbrev alice : AccountWithMetadata Stored
alice = account_at 1 true (holding (TokenHolding.fungible 9 60))

abbrev bob : AccountWithMetadata Stored
bob = account_at 2 false (holding (TokenHolding.fungible 9 40))

abbrev fresh : AccountWithMetadata Stored
fresh = account_at 3 false empty

abbrev coin_account : Option AccountId → AccountWithMetadata Stored
coin_account authority = account_at 9 true (definition (coin authority))

abbrev paid : List (AccountStateDiff Stored)
paid =
    new alice (holding (TokenHolding.fungible 9 35))
    ∷ new fresh (holding (TokenHolding.fungible 9 25))
    ∷ []

pay_fresh : transfer host alice fresh 25 ≡ ok paid
unfolding transfer recipient_holding move_units zeroized_clone_from
pay_fresh = refl

pay_unsigned : transfer host bob alice 5 ≡ err Panic.sender_not_authorized
unfolding transfer
pay_unsigned = refl

transfer-Transferred_example : Transferred host alice fresh 25 paid
transfer-Transferred_example = transfer-Transferred host alice fresh 25 pay_fresh

transfer_iff_example :
    ((diffs : List (AccountStateDiff Stored)) × (transfer host alice bob 25 ≡ ok diffs))
    ↔ ((true ≡ true) × (◌≡◌ {A = ℕ} 9 9) × ((25 ≤ 60) × (40 + 25 < 2 ^ 128)))
unfolding recipient_holding
transfer_iff_example =
    transfer_iff host alice bob 25 (TokenHolding.fungible 9 60) (TokenHolding.fungible 9 40) refl
      refl

abbrev minted : List (AccountStateDiff Stored)
minted =
    new (coin_account (some 9)) (definition (TokenDefinition.fungible "coin" 105 none (some 9)))
    ∷ new bob (holding (TokenHolding.fungible 9 45))
    ∷ []

mint_bob : mint_inner host (coin_account (some 9)) bob none 5 7 ≡ ok minted
unfolding mint_inner check_mint_authority user_holding mint_units
mint_bob = refl

mint_inner-Minted_example : Minted host (coin_account (some 9)) bob none 5 7 minted
mint_inner-Minted_example = mint_inner-Minted host (coin_account (some 9)) bob none 5 7 mint_bob

abbrev burned : List (AccountStateDiff Stored)
burned =
    new (coin_account none) (definition (TokenDefinition.fungible "coin" 90 none none))
    ∷ new alice (holding (TokenHolding.fungible 9 50))
    ∷ []

ten_burned : burn host (coin_account none) alice 10 ≡ ok burned
unfolding burn burn_units
ten_burned = refl

burn-Burned_example : Burned host (coin_account none) alice 10 burned
burn-Burned_example = burn-Burned host (coin_account none) alice 10 ten_burned

coin-IsRevoked : IsRevoked host (coin_account none)
coin-IsRevoked d e = ground arith

revoked_is_final_example :
    ((holding_account : AccountWithMetadata Stored) (external : Option (AccountWithMetadata Stored))
        (n : ℕ) (token_program_id : AccountId) (diffs : List (AccountStateDiff Stored))
      → mint_inner host (coin_account none) holding_account external n token_program_id ≢ ok diffs)
    × ((external : Option (AccountWithMetadata Stored)) (new_authority : Option AccountId)
          (token_program_id : AccountId) (diffs : List (AccountStateDiff Stored))
        → set_authority_inner host (coin_account none) external new_authority token_program_id
          ≢ ok diffs)
revoked_is_final_example = revoked_is_final host (coin_account none) coin-IsRevoked

abbrev renounced : List (AccountStateDiff Stored)
renounced = new (coin_account (some 1)) (definition (coin none)) ∷ unchanged alice ∷ []

renounce : set_authority_inner host (coin_account (some 1)) (some alice) none 7 ≡ ok renounced
unfolding set_authority_inner rotate
renounce = refl

-- A collection of five is created, and one copy is printed, given away and burned.
abbrev art : ℕ → TokenDefinition
art n = non_fungible "art" n 8

abbrev art_ledger : Ledger
art_ledger = record {
  definition = art 4;
  holdings = nft_printed_copy 6 false ∷ nft_printed_copy 6 false ∷ nft_master 6 4 ∷ [];
}

art-Reachable : Reachable Stored art_ledger
unfolding create_definition print_copy move_units burn_units zeroized_from_definition
art-Reachable =
    Reachable.next
      (Reachable.next
        (Reachable.next
          (Reachable.next
            (Reachable.created (NewTokenDefinition.non_fungible "art" 5) 6 8 (art 5)
              (nft_master 6 5) refl)
            (Step.print_nft _ 0 (nft_master 6 5) (nft_master 6 4) (nft_printed_copy 6 true) refl
              refl))
          (Step.open_definition _ 6))
        (Step.transfer _ 1 0 1 (nft_printed_copy 6 true) (nft_printed_copy 6 false)
          (nft_printed_copy 6 false) (nft_printed_copy 6 true) (omega arith) refl refl refl))
      (Step.burn _ 0 1 (nft_printed_copy 6 true) (nft_printed_copy 6 false) (art 4) refl refl)

Reachable-IsBacked_example : circulating art_ledger.holdings ≡ 4
Reachable-IsBacked_example = Reachable-IsBacked art-Reachable
