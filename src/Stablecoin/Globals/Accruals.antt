-- ===== src/Stablecoin/Globals/Accruals.antt =====
-- When the accrual of programs/stablecoin/src/accrue_stability_fee.rs succeeds, and what it writes.
use lez_programs.Shared.{ℕ, ◌≡◌, refl, true, List, [], ◌∷◌, ok}
use lez_programs.Host.{AccountId, AccountStateDiff, new, unchanged}
use lez_programs.Amm.Core.{ChainedCall}
use lez_programs.Stablecoin.State.{ProtocolParameters, StabilityFeeAccumulator, StablecoinHost}
use lez_programs.Stablecoin.Checks.{FeeAccrual, accrue_fees, read_clock, surplus_mint_call}
use lez_programs.Stablecoin.Globals.{
  AccrueAccounts, decode_fee_accrual_inputs, accrue_stability_fee,
}

module _ {Data : Type 0} (h : StablecoinHost Data) where
  -- The diffs after those of the caller and of the parameters.
  abbrev pub accrual_diffs : AccrueAccounts Data → FeeAccrual → List (AccountStateDiff Data)
  accrual_diffs a accrual =
      new a.stability_fee_accumulator (h.accumulators.into accrual.accumulator)
      ∷ unchanged a.stablecoin_definition
      ∷ unchanged a.stablecoin_master_holding
      ∷ unchanged a.clock
      ∷ []

  pub accrue_stability_fee-accrues :
      (a : AccrueAccounts Data) (program : AccountId) (p : ProtocolParameters)
      (accumulator : StabilityFeeAccumulator) (now : ℕ) (accrual : FeeAccrual)
      (calls : List ChainedCall)
      → a.caller.is_authorized ≡ true
      → decode_fee_accrual_inputs h a.protocol_parameters a.stability_fee_accumulator program
        ≡ ok (p, accumulator)
      → read_clock h a.clock ≡ ok now
      → accrue_fees p accumulator now ≡ ok accrual
      → surplus_mint_call h a.stablecoin_definition a.stablecoin_master_holding p program
          accrual.accrued_fees
        ≡ ok calls
      → accrue_stability_fee h a program
        ≡ ok (unchanged a.caller ∷ unchanged a.protocol_parameters ∷ accrual_diffs a accrual, calls)
  unfolding accrue_stability_fee
  accrue_stability_fee-accrues a program p accumulator now accrual calls signed inputs time accrued
        minted =
      rw (signed, inputs, time, accrued, minted) refl
