-- ===== src/Stablecoin/Admin/Accrual.antt =====
-- That a new stability fee is not charged for the past: programs/stablecoin/src/admin.rs and
-- accrue_stability_fee.rs.
use mathlib.Core.Path.{subst}
use lez_programs.Shared.{
  ℕ, ◌≡◌, refl, ap, sym, ◌∙◌, true, not, ◌==◌, List, ◌∷◌, some, ok, bind-eq-ok, guard-eq-ok,
  expect-eq-ok, ok-eq-ok,
}
use lez_programs.Host.{AccountId, AccountWithMetadata, AccountStateDiff, Codec, new, unchanged}
use lez_programs.Amm.Core.{ChainedCall}
use lez_programs.Stablecoin.Core.{Panic}
use lez_programs.Stablecoin.State.{
  ProtocolParameters, StabilityFeeAccumulator, StablecoinHost, compute_protocol_parameters_pda,
  compute_stability_fee_accumulator_pda,
}
use lez_programs.Stablecoin.Checks.{
  accrue_fees, decode_global, read_global, read_parameters, read_accumulator, read_clock,
  surplus_mint_call,
}
use lez_programs.Stablecoin.Positions.Security.{Outcome}
use lez_programs.Stablecoin.Globals.{
  AccrueAccounts, decode_fee_accrual_inputs, accrue_stability_fee,
}
use lez_programs.Stablecoin.Globals.Accruals.{accrual_diffs, accrue_stability_fee-accrues}
use lez_programs.Stablecoin.Admin.{
  AdminAccounts, assert_admin_authorized, assert_stability_fee_in_band, set_stability_fee,
}

module _ {Data : Type 0} (h : StablecoinHost Data) where
  -- What a global that is read has passed.
  record Read {A : Type 0} (codec : Codec Data A) (a : AccountWithMetadata Data)
      (expected_id program : AccountId) (value : A) : Type 0 where
    exists : not (h.is_default a.account) ≡ true
    owned : (a.account.program_owner == program) ≡ true
    placed : (a.account_id == expected_id) ≡ true
    decoded : codec.try_from a.account.account_data ≡ some value

  read_global-Read :
      {A : Type 0} (codec : Codec Data A) (a : AccountWithMetadata Data)
      (expected_id program : AccountId) {value : A}
      → read_global h codec a expected_id program ≡ ok value
      → Read codec a expected_id program value
  unfolding decode_global
  read_global-Read codec a expected_id program e =
      let (content, found, e₁) = bind-eq-ok (decode_global h a expected_id program) _ e in
      let (exists, d₁) = guard-eq-ok (not (h.is_default a.account)) _ _ found in
      let (owned, d₂) = guard-eq-ok (a.account.program_owner == program) _ _ d₁ in
      let (placed, d₃) = guard-eq-ok (a.account_id == expected_id) _ _ d₂ in
      let same = ok-eq-ok {P = Panic} {T = Data} d₃ in
      record {
        exists = exists;
        owned = owned;
        placed = placed;
        decoded = ap codec.try_from same ∙ expect-eq-ok _ _ e₁;
      }

  decode_fee_accrual_inputs-reads :
      (pp acc : AccountWithMetadata Data) (program : AccountId) (p : ProtocolParameters)
      (accumulator : StabilityFeeAccumulator)
      → read_parameters h pp program ≡ ok p
      → read_accumulator h acc program ≡ ok accumulator
      → decode_fee_accrual_inputs h pp acc program ≡ ok (p, accumulator)
  unfolding decode_fee_accrual_inputs decode_global
  decode_fee_accrual_inputs-reads pp acc program p accumulator read_p read_a =
      let x =
        read_global-Read h.parameters pp (compute_protocol_parameters_pda h program) program
          read_p in
      let y =
        read_global-Read h.accumulators acc (compute_stability_fee_accumulator_pda h program)
          program read_a in
      rw (x.exists, x.owned, x.decoded, y.exists, y.owned, y.placed, y.decoded) refl

  -- The accounts of the accrual among those of the change of the fee.
  abbrev pub accrual_accounts : AccountWithMetadata Data → AdminAccounts Data → AccrueAccounts Data
  accrual_accounts caller a = record {
    caller = caller;
    protocol_parameters = a.protocol_parameters;
    stability_fee_accumulator = a.stability_fee_accumulator;
    stablecoin_definition = a.stablecoin_definition;
    stablecoin_master_holding = a.stablecoin_master_holding;
    clock = a.clock;
  }

  -- The change of the fee is an accrual, and the new rate.
  pub record Accrued (p : ProtocolParameters) (a : AdminAccounts Data)
      (caller : AccountWithMetadata Data) (program : AccountId) (rate : ℕ) (outcome : Outcome Data)
      : Type 0 where
    pub accrual : List (AccountStateDiff Data)
    pub accrues :
        accrue_stability_fee h (accrual_accounts caller a) program
        ≡ ok (unchanged caller ∷ unchanged a.protocol_parameters ∷ accrual, outcome.1)
    pub written :
        outcome.0
        ≡ unchanged a.admin
          ∷ new a.protocol_parameters
              (h.parameters.into (record p { stability_fee_per_millisecond = rate }))
          ∷ accrual

  -- Where a change of the stability fee succeeds, an accrual of the fee by any caller that signs,
  -- on the same accounts, succeeds too: it mints the same surplus and writes the same accumulator,
  -- at the old rate, and the change writes the new rate besides.
  pub set_stability_fee-accrue_stability_fee :
      (a : AdminAccounts Data) (caller : AccountWithMetadata Data) (program : AccountId) (rate : ℕ)
      (p : ProtocolParameters) (outcome : Outcome Data)
      → caller.is_authorized ≡ true
      → read_parameters h a.protocol_parameters program ≡ ok p
      → set_stability_fee h a program rate ≡ ok outcome
      → Accrued p a caller program rate outcome
  unfolding set_stability_fee
  set_stability_fee-accrue_stability_fee a caller program rate p outcome signed read e =
      let e₀ : _ ≡ ok outcome = rw read at e in
      let (_, _, e₁) = bind-eq-ok (assert_admin_authorized h a.admin p) _ e₀ in
      let (_, _, e₂) = bind-eq-ok (assert_stability_fee_in_band rate) _ e₁ in
      let (accumulator, read_a, e₃) =
        bind-eq-ok (read_accumulator h a.stability_fee_accumulator program) _ e₂ in
      let (now, time, e₄) = bind-eq-ok (read_clock h a.clock) _ e₃ in
      let (accrual, accrued, e₅) = bind-eq-ok (accrue_fees p accumulator now) _ e₄ in
      let (calls, minted, e₆) =
        bind-eq-ok
          (surplus_mint_call h a.stablecoin_definition a.stablecoin_master_holding p program
            accrual.accrued_fees)
          _ e₅ in
      let same = ok-eq-ok {P = Panic} {T = Outcome Data} e₆ in
      let inputs =
        decode_fee_accrual_inputs-reads a.protocol_parameters a.stability_fee_accumulator program p
          accumulator read read_a in
      let same_calls : calls ≡ outcome.1 = ap (λ (x : Outcome Data). x.1) same in
      let accrues_with : List ChainedCall → Type 0 = λ cs.
        accrue_stability_fee h (accrual_accounts caller a) program
        ≡ ok (
          unchanged caller
              ∷ unchanged a.protocol_parameters
              ∷ accrual_diffs h (accrual_accounts caller a) accrual,
          cs,
        ) in
      let accrues =
        accrue_stability_fee-accrues h (accrual_accounts caller a) program p accumulator now accrual
          calls signed inputs time accrued minted in
      record {
        accrual = accrual_diffs h (accrual_accounts caller a) accrual;
        accrues = subst accrues_with same_calls accrues;
        written = ap (λ (x : Outcome Data). x.0) (sym same);
      }
