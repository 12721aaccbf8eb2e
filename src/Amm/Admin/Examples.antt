-- ===== src/Amm/Admin/Examples.antt =====
-- The theorems on administration at a concrete instance.
use lez_programs.Shared.{◌≡◌, refl, ok, List, [], ◌∷◌}
use lez_programs.Host.{AccountStateDiff, AccountWithMetadata, RoundTrips, new, unchanged}
use lez_programs.Token.Core.{TokenHolding}
use lez_programs.Amm.Core.{AmmConfig, ChainedCall, transfer_call}
use lez_programs.Amm.Accounts.{read_config, owned_by_token_program}
use lez_programs.Amm.Fixture.{Stored, empty, config, holding, host, account_at, the_config}
use lez_programs.Amm.Admin.{initialize, update_config, withdraw_protocol_fees, check_admin}
use lez_programs.Amm.Swap.{token_of}
use lez_programs.Amm.Pda.{
  compute_protocol_fee_pda, compute_protocol_fee_pda_seed, compute_config_pda,
  compute_config_pda_seed,
}
use lez_programs.Amm.Math.{assert_valid_swap_fee_bps, assert_valid_protocol_fee_bps}
use lez_programs.Amm.Admin.Governance.{
  Governed, Keeps, HasValidFees, Governed-HasValidFees, FeesWithdrawn,
  withdraw_protocol_fees-FeesWithdrawn,
}

-- The instance of owner 20 with the nonce 7: its configuration is at 4465.
abbrev owner : AccountWithMetadata Stored
owner = account_at 20 0 empty

abbrev fresh : AccountWithMetadata Stored
fresh = account_at 4465 0 empty

abbrev stored : AccountWithMetadata Stored
stored = account_at 4465 4 (config the_config)

abbrev admin : AccountWithMetadata Stored
admin = account_at 9 0 empty

abbrev handed_over : AmmConfig
handed_over = record the_config { authority = 33 }

abbrev first_diffs : List (AccountStateDiff Stored)
first_diffs = unchanged owner ∷ new fresh (config the_config) ∷ []

abbrev update_diffs : List (AccountStateDiff Stored)
update_diffs = new stored (config handed_over) ∷ unchanged admin ∷ []

set_up : initialize host owner fresh (7 ∷ []) the_config 4 ≡ ok first_diffs
unfolding initialize compute_config_pda compute_config_pda_seed assert_valid_swap_fee_bps
    assert_valid_protocol_fee_bps
set_up = refl

stored_read : read_config host stored 4 ≡ ok the_config
unfolding read_config
stored_read = refl

handed : update_config host stored admin 33 4 ≡ ok update_diffs
unfolding update_config read_config check_admin
handed = refl

config-RoundTrips : RoundTrips host.configs
config-RoundTrips c = refl

Governed-HasValidFees_example : Keeps host the_config handed_over × HasValidFees handed_over
Governed-HasValidFees_example = Governed-HasValidFees host config-RoundTrips (
    Governed.updated stored admin 33 4 update_diffs (config handed_over) handed_over
      (Governed.initialized owner fresh (7 ∷ []) 4 first_diffs (config the_config) the_config set_up
        refl refl)
      stored_read handed refl refl)

abbrev fees : AccountWithMetadata Stored
fees = account_at 10007 5 (holding (TokenHolding.fungible 1 40))

abbrev payee : AccountWithMetadata Stored
payee = account_at 14 5 (holding (TokenHolding.fungible 1 0))

abbrev fee_diffs : List (AccountStateDiff Stored)
fee_diffs = unchanged stored ∷ unchanged fees ∷ unchanged payee ∷ unchanged admin ∷ []

abbrev fee_calls : List ChainedCall
fee_calls = transfer_call 5 10007 14 25 (6007 ∷ []) ∷ []

paid_out : withdraw_protocol_fees host stored fees payee admin 25 4 ≡ ok (fee_diffs, fee_calls)
unfolding withdraw_protocol_fees read_config check_admin owned_by_token_program token_of
    compute_protocol_fee_pda compute_protocol_fee_pda_seed
paid_out = refl

withdraw_protocol_fees-FeesWithdrawn_example :
    FeesWithdrawn host stored fees payee admin 25 4 the_config fee_diffs fee_calls
withdraw_protocol_fees-FeesWithdrawn_example =
    withdraw_protocol_fees-FeesWithdrawn host stored fees payee admin 25 4 the_config stored_read
      paid_out
