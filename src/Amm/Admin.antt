-- ===== src/Amm/Admin.antt =====
-- The administration of an AMM instance: programs/amm/src/initialize.rs, update_config.rs and
-- withdraw_protocol_fees.rs.
pub mod Governance
mod Examples
use lez_programs.Shared.{ℕ, Result, ok, ◌>>=◌, ◌>>◌, guard, expect, List, [], ◌∷◌, ◌==◌}
use lez_programs.Host.{AccountId, AccountWithMetadata, AccountStateDiff, new, unchanged}
use lez_programs.Amm.Core.{Panic, AmmHost, AmmConfig, ChainedCall, transfer_call}
use lez_programs.Amm.Math.{assert_valid_swap_fee_bps, assert_valid_protocol_fee_bps}
use lez_programs.Amm.Pda.{
  compute_config_pda, compute_protocol_fee_pda, compute_protocol_fee_pda_seed,
}
use lez_programs.Amm.Accounts.{read_config, owned_by_token_program}
use lez_programs.Amm.Swap.{token_of}

module _ {Data : Type 0} (h : AmmHost Data) where
  -- `c` is made of the parameters that the configuration stores.
  unfoldable pub initialize :
      AccountWithMetadata Data
      → AccountWithMetadata Data
      → List ℕ
      → AmmConfig
      → AccountId
      → Result Panic (List (AccountStateDiff Data))
  initialize owner config nonce c amm_program_id = do
    guard owner.is_authorized Panic.owner_not_authorized
    guard (config.account_id == compute_config_pda h amm_program_id owner.account_id nonce)
        Panic.wrong_config
    guard (h.is_default config.account) Panic.config_not_default
    assert_valid_swap_fee_bps c.swap_fee_bps
    assert_valid_protocol_fee_bps c.protocol_fee_bps
    ok (unchanged owner ∷ new config (h.configs.into c) ∷ [])

  -- The caller is the configured authority, and signed.
  unfoldable pub check_admin : AmmConfig → AccountWithMetadata Data → Result Panic (Unit {0})
  check_admin c authority = do
    guard (authority.account_id == c.authority) Panic.not_admin
    guard authority.is_authorized Panic.admin_not_authorized

  unfoldable pub update_config :
      AccountWithMetadata Data
      → AccountWithMetadata Data
      → AccountId
      → AccountId
      → Result Panic (List (AccountStateDiff Data))
  update_config config authority new_authority amm_program_id = do
    c ← read_config h config amm_program_id
    check_admin c authority
    ok (
        new config (h.configs.into (record c { authority = new_authority }))
        ∷ unchanged authority
        ∷ [])

  unfoldable pub withdraw_protocol_fees :
      AccountWithMetadata Data
      → AccountWithMetadata Data
      → AccountWithMetadata Data
      → AccountWithMetadata Data
      → ℕ
      → AccountId
      → Result Panic (List (AccountStateDiff Data) × List ChainedCall)
  withdraw_protocol_fees config protocol_fee_holding destination authority amount amm_program_id =
      do
        c ← read_config h config amm_program_id
        check_admin c authority
        owned_by_token_program h protocol_fee_holding c.token_program_id Panic.fee_holding_not_owned
        token ← token_of h protocol_fee_holding
        guard
            (protocol_fee_holding.account_id
              == compute_protocol_fee_pda h amm_program_id config.account_id token)
            Panic.wrong_fee_holding
        owned_by_token_program h destination c.token_program_id Panic.destination_not_owned
        destination_token ← token_of h destination
        guard (destination_token == token) Panic.wrong_destination_token
        ok (
          unchanged config
              ∷ unchanged protocol_fee_holding
              ∷ unchanged destination
              ∷ unchanged authority
              ∷ [],
          transfer_call c.token_program_id protocol_fee_holding.account_id destination.account_id
                amount (compute_protocol_fee_pda_seed h config.account_id token ∷ [])
              ∷ [],
        )
