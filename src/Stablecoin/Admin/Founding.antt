-- ===== src/Stablecoin/Admin/Founding.antt =====
-- What the bootstrap of programs/stablecoin/src/initialize_program.rs stores.

use lez_programs.Shared.{◌≡◌, ap, sym, List, ◌∷◌, ok, bind-eq-ok, guard-eq-ok, ok-eq-ok}
use lez_programs.Host.{AccountId, AccountStateDiff, new, unchanged}
use lez_programs.Stablecoin.Core.{Panic}
use lez_programs.Stablecoin.State.{StablecoinHost}
use lez_programs.Stablecoin.Checks.{read_clock}
use lez_programs.Stablecoin.Positions.Security.{Outcome}
use lez_programs.Stablecoin.Admin.{assert_quotes}
use lez_programs.Stablecoin.Admin.Bootstrap.{
  InitializeAccounts, InitializeProgramParams, check_bounds, initial_parameters, initialize_program,
  check_targets, check_collateral,
}
use lez_programs.Stablecoin.Admin.Bands.{InBands, fee_lem, ratio_lem, gains_lem, timing_lem}

check_bounds_lem :
    {Data : Type 0} (a : InitializeAccounts Data) (params : InitializeProgramParams)
    → check_bounds params ≡ ok tt
    → InBands (initial_parameters a params)
unfolding check_bounds
check_bounds_lem a params e =
    let (_, fee, e₁) = bind-eq-ok _ _ e in
    let (_, ratio, e₂) = bind-eq-ok _ _ e₁ in
    let (_, gains, e₃) = bind-eq-ok _ _ e₂ in
    let (_, interval, e₄) = bind-eq-ok _ _ e₃ in
    let (_, age, _) = bind-eq-ok _ _ e₄ in
    let (proportional, integral) =
      gains_lem params.initial_controller_proportional_gain params.initial_controller_integral_gain
        gains in
    record {
      fee = fee_lem params.initial_stability_fee_per_millisecond fee;
      ratio = ratio_lem params.initial_minimum_collateralization_ratio ratio;
      proportional = proportional;
      integral = integral;
      interval = timing_lem params.minimum_milliseconds_between_rate_updates interval;
      age = timing_lem params.maximum_oracle_price_age_milliseconds age;
    }

module _ {Data : Type 0} (h : StablecoinHost Data) where
  -- A bootstrap writes the parameters that it is given.
  pub record Founded (a : InitializeAccounts Data) (params : InitializeProgramParams)
      (diffs : List (AccountStateDiff Data)) : Type 0 where
    pub others : List (AccountStateDiff Data)
    pub written :
        diffs
        ≡ unchanged a.admin
          ∷ new a.protocol_parameters (h.parameters.into (initial_parameters a params))
          ∷ others

  pub initialize_program_lem :
      (a : InitializeAccounts Data) (program : AccountId) (params : InitializeProgramParams)
      {outcome : Outcome Data}
      → initialize_program h a program params ≡ ok outcome
      → InBands (initial_parameters a params) × Founded a params outcome.0
  unfolding initialize_program
  initialize_program_lem a program params e =
      let (_, e₁) = guard-eq-ok a.admin.is_authorized _ _ e in
      let (_, _, e₂) = bind-eq-ok (check_targets h a program) _ e₁ in
      let (_, _, e₃) = bind-eq-ok (read_clock h a.clock) _ e₂ in
      let (_, _, e₄) = bind-eq-ok (check_collateral h a.collateral_definition) _ e₃ in
      let (_, _, e₅) = bind-eq-ok (assert_quotes h a.market_price_oracle _ _) _ e₄ in
      let (_, bounds, e₆) = bind-eq-ok (check_bounds params) _ e₅ in
      let same = ok-eq-ok {P = Panic} {T = Outcome Data} e₆ in
      (
        check_bounds_lem a params bounds,
        record { others = _; written = ap (λ (x : Outcome Data). x.0) (sym same) },
      )
