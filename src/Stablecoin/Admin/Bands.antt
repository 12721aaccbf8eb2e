-- ===== src/Stablecoin/Admin/Bands.antt =====
-- That the parameters of the stablecoin stay in their bands: programs/stablecoin/src/admin.rs,
-- initialize_program.rs and freeze.rs.
use mathlib.Core.Path.{subst}
use lez_programs.Shared.{
  ℕ, ◌≤◌, ◌≡◌, refl, leb, leb→le, ℤ, pos, ◌≤ℤ◌, leb_ℤ, ok, ◌>>◌, guard, bind-eq-ok, guard-eq-ok,
  guard-true, ok-eq-ok,
}
use lez_programs.Stablecoin.Core.{Panic, fixed_point_one}
use lez_programs.Stablecoin.State.{ProtocolParameters}
use lez_programs.Stablecoin.Admin.{
  max_stability_fee_per_millisecond, min_collateralization_ratio, max_collateralization_ratio,
  maximum_controller_proportional_gain, maximum_controller_integral_gain, max_timing_milliseconds,
  assert_stability_fee_in_band, assert_collateralization_ratio_in_band, assert_gain_in_band,
  assert_controller_gains_in_band, assert_timing_milliseconds_in_band, tune_ratio, tune_gains,
  tune_timing,
}

-- A number from `low` to `high`.
abbrev pub InBand : (low high n : ℕ) → Type 0
InBand low high n = (low ≤ n) × (n ≤ high)

abbrev pub GainInBand : ℕ → ℤ → Type 0
GainInBand maximum gain = (pos 0 ≤ℤ gain) × (gain ≤ℤ pos maximum)

-- Parameters within the bands of the specification.
pub record InBands (p : ProtocolParameters) : Type 0 where
  pub fee : InBand fixed_point_one max_stability_fee_per_millisecond p.stability_fee_per_millisecond
  pub ratio :
      InBand min_collateralization_ratio max_collateralization_ratio
        p.minimum_collateralization_ratio
  pub proportional : GainInBand maximum_controller_proportional_gain p.controller_proportional_gain
  pub integral : GainInBand maximum_controller_integral_gain p.controller_integral_gain
  pub interval : InBand 1 max_timing_milliseconds p.minimum_milliseconds_between_rate_updates
  pub age : InBand 1 max_timing_milliseconds p.maximum_oracle_price_age_milliseconds

-- What no instruction after the bootstrap changes.
pub record SameMarket (p q : ProtocolParameters) : Type 0 where
  pub stablecoin : q.stablecoin_definition_id ≡ p.stablecoin_definition_id
  pub collateral : q.collateral_definition_id ≡ p.collateral_definition_id

band_lem :
    (low high n : ℕ) (below above : Panic)
    → (guard {P = Panic} (leb low n) below >> guard (leb n high) above) ≡ ok tt
    → InBand low high n
band_lem low high n below above e =
    let (least, e₁) = guard-eq-ok (leb low n) below _ e in
    (leb→le low n least, leb→le n high (guard-true (leb n high) above e₁))

pub fee_lem :
    (rate : ℕ)
    → assert_stability_fee_in_band rate ≡ ok tt
    → InBand fixed_point_one max_stability_fee_per_millisecond rate
unfolding assert_stability_fee_in_band
fee_lem rate e = band_lem fixed_point_one max_stability_fee_per_millisecond rate _ _ e

pub ratio_lem :
    (ratio : ℕ)
    → assert_collateralization_ratio_in_band ratio ≡ ok tt
    → InBand min_collateralization_ratio max_collateralization_ratio ratio
unfolding assert_collateralization_ratio_in_band
ratio_lem ratio e = band_lem min_collateralization_ratio max_collateralization_ratio ratio _ _ e

pub timing_lem :
    (time : ℕ)
    → assert_timing_milliseconds_in_band time ≡ ok tt
    → InBand 1 max_timing_milliseconds time
unfolding assert_timing_milliseconds_in_band
timing_lem time e = band_lem 1 max_timing_milliseconds time _ _ e

gain_lem :
    (gain : ℤ) (maximum : ℕ) → assert_gain_in_band gain maximum ≡ ok tt → GainInBand maximum gain
unfolding assert_gain_in_band
gain_lem gain maximum e =
    let (least, e₁) = guard-eq-ok (leb_ℤ (pos 0) gain) _ _ e in
    (leb→le _ _ least, leb→le _ _ (guard-true (leb_ℤ gain (pos maximum)) _ e₁))

pub gains_lem :
    (proportional integral : ℤ)
    → assert_controller_gains_in_band proportional integral ≡ ok tt
    → GainInBand maximum_controller_proportional_gain proportional
      × GainInBand maximum_controller_integral_gain integral
unfolding assert_controller_gains_in_band
gains_lem proportional integral e =
    let (_, first, second) =
      bind-eq-ok (assert_gain_in_band proportional maximum_controller_proportional_gain) _ e in
    (
      gain_lem proportional maximum_controller_proportional_gain first,
      gain_lem integral maximum_controller_integral_gain second,
    )

-- What a closure of a setter promises of the parameters that it leaves.
abbrev pub Tuned : ProtocolParameters → ProtocolParameters → Type 0
Tuned p q = (InBands p → InBands q) × SameMarket p q

pub tune_ratio-Tuned :
    (ratio : ℕ) (p : ProtocolParameters) {q : ProtocolParameters}
    → tune_ratio ratio p ≡ ok q
    → Tuned p q
unfolding tune_ratio
tune_ratio-Tuned ratio p e =
    let (_, checked, e₁) = bind-eq-ok (assert_collateralization_ratio_in_band ratio) _ e in
    subst (Tuned p) (ok-eq-ok {P = Panic} e₁) (
      λ bands. record {
        fee = bands.fee;
        ratio = ratio_lem ratio checked;
        proportional = bands.proportional;
        integral = bands.integral;
        interval = bands.interval;
        age = bands.age;
      },
      record { stablecoin = refl; collateral = refl },
    )

pub tune_gains-Tuned :
    (proportional integral : ℤ) (p : ProtocolParameters) {q : ProtocolParameters}
    → tune_gains proportional integral p ≡ ok q
    → Tuned p q
unfolding tune_gains
tune_gains-Tuned proportional integral p e =
    let (_, checked, e₁) = bind-eq-ok (assert_controller_gains_in_band proportional integral) _ e in
    let (first, second) = gains_lem proportional integral checked in
    subst (Tuned p) (ok-eq-ok {P = Panic} e₁) (
      λ bands. record {
        fee = bands.fee;
        ratio = bands.ratio;
        proportional = first;
        integral = second;
        interval = bands.interval;
        age = bands.age;
      },
      record { stablecoin = refl; collateral = refl },
    )

pub tune_timing-Tuned :
    (interval age : ℕ) (p : ProtocolParameters) {q : ProtocolParameters}
    → tune_timing interval age p ≡ ok q
    → Tuned p q
unfolding tune_timing
tune_timing-Tuned interval age p e =
    let (_, first, e₁) = bind-eq-ok (assert_timing_milliseconds_in_band interval) _ e in
    let (_, second, e₂) = bind-eq-ok (assert_timing_milliseconds_in_band age) _ e₁ in
    subst (Tuned p) (ok-eq-ok {P = Panic} e₂) (
      λ bands. record {
        fee = bands.fee;
        ratio = bands.ratio;
        proportional = bands.proportional;
        integral = bands.integral;
        interval = timing_lem interval first;
        age = timing_lem age second;
      },
      record { stablecoin = refl; collateral = refl },
    )
