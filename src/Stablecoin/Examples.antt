-- ===== src/Stablecoin/Examples.antt =====
-- The stablecoin's theorems at concrete rates and prices.
use lez_programs.Shared.{
  ℕ, ◌+◌, ◌*◌, ◌^◌, ◌≤◌, ◌≡◌, ◌≢◌, ◌↔◌, refl, true, arith, ok, err, some, pos, neg,
}
use lez_programs.Stablecoin.Core.{Panic, fixed_point_one, rate_delta_clamp}
use lez_programs.Stablecoin.Math.{
  compound_rate, compute_current_accumulated_rate, compute_current_accumulated_rate_wide,
  compute_current_redemption_price, try_project_rate_wide, compound_loop, multiply_if, mul_div,
}
use lez_programs.Stablecoin.Math.Projection.{compute_current_accumulated_rate-wide}
use lez_programs.Stablecoin.Math.Compounding.{
  IsWithinPower, compound_rate-IsWithinPower, compound_rate-ends,
}
use lez_programs.Stablecoin.Math.Decay.{compute_current_redemption_price-falls}
use lez_programs.Stablecoin.Collateralization.{
  is_collateralized, collateralization_values, is_collateralized_iff, requirement,
}
use lez_programs.Stablecoin.Controller.{
  ControllerOutput, run_controller_tick, clamp_to_magnitude, bounded_rate,
}
use lez_programs.Stablecoin.Controller.Bounds.{AreInBand, Bounded, run_controller_tick-Bounded}
use lez_programs.Stablecoin.Controller.Feedback.{run_controller_tick-steers}

-- A tenth of a percent a millisecond for three milliseconds.
abbrev rate : ℕ
rate = 1001 * 10 ^ 24

abbrev factor : ℕ
factor = 1003003001 * 10 ^ 18

compounded : compound_rate rate 3 ≡ ok factor
unfolding compound_rate compound_loop multiply_if mul_div
compounded = refl

compound_rate-IsWithinPower_example : IsWithinPower fixed_point_one rate factor 3
compound_rate-IsWithinPower_example = compound_rate-IsWithinPower rate 3 compounded

compound_rate-ends_example : compound_rate rate 604800000 ≢ err Panic.out_of_fuel
compound_rate-ends_example = compound_rate-ends rate 604800000 (omega arith)

accrued : compute_current_accumulated_rate fixed_point_one rate 1000 1003 ≡ ok factor
unfolding compute_current_accumulated_rate compound_rate compound_loop multiply_if mul_div
accrued = refl

compute_current_accumulated_rate-wide_example :
    (compute_current_accumulated_rate_wide fixed_point_one rate 1000 1003 ≡ ok factor)
    × (try_project_rate_wide fixed_point_one rate 1000 1003 ≡ ok (some factor))
compute_current_accumulated_rate-wide_example =
    compute_current_accumulated_rate-wide fixed_point_one rate 1000 1003 factor (omega arith)
      (omega arith) accrued

compute_current_redemption_price-falls_example :
    (v : ℕ) × (compute_current_redemption_price 5000 (999 * 10 ^ 24) 1000 1003 ≡ ok v) × (v ≤ 5000)
compute_current_redemption_price-falls_example =
    compute_current_redemption_price-falls 5000 (999 * 10 ^ 24) 1000 1003 (omega arith)
      (omega arith)

-- 110 of collateral for a debt of 100 at a ratio of 1.1.
is_collateralized_iff_example :
    (is_collateralized
        (collateralization_values 110 100 fixed_point_one fixed_point_one (11 * 10 ^ 26))
      ≡ true)
    ↔ (100 * fixed_point_one * fixed_point_one * (11 * 10 ^ 26) ≤ 110 * fixed_point_one ^ 3)
is_collateralized_iff_example =
    is_collateralized_iff 110 100 fixed_point_one fixed_point_one (11 * 10 ^ 26) (omega arith)
      (omega arith) (omega arith)

at_the_limit :
    is_collateralized
      (collateralization_values 110 100 fixed_point_one fixed_point_one (11 * 10 ^ 26))
    ≡ true
unfolding is_collateralized collateralization_values requirement
at_the_limit = refl

-- A market price of one half against a redemption price of one.
abbrev market : ℕ
market = 5 * 10 ^ 26

in_band : AreInBand fixed_point_one market (pos 7) (pos fixed_point_one) (pos 1) 60000
in_band = omega arith

run_controller_tick-Bounded_example :
    (out : ControllerOutput) × (run_controller_tick fixed_point_one market
        (pos 7)
        (pos fixed_point_one)
        (pos 1)
        60000
      ≡ ok out)
    × Bounded fixed_point_one out
run_controller_tick-Bounded_example =
    run_controller_tick-Bounded fixed_point_one market (pos 7) (pos fixed_point_one) (pos 1) 60000
      in_band

abbrev raised : ControllerOutput
raised = record {
  redemption_rate_per_millisecond = fixed_point_one + rate_delta_clamp;
  controller_integral_term = pos 30007;
}

abbrev reversed : ControllerOutput
reversed = record {
  redemption_rate_per_millisecond = fixed_point_one + rate_delta_clamp;
  controller_integral_term = pos 29993;
}

ticked :
    run_controller_tick fixed_point_one market (pos 7) (pos fixed_point_one) (pos 1) 60000
    ≡ ok raised
unfolding run_controller_tick clamp_to_magnitude bounded_rate
ticked = refl

ticked_back :
    run_controller_tick fixed_point_one market (neg 7) (pos fixed_point_one) (pos 1) 60000
    ≡ ok reversed
unfolding run_controller_tick clamp_to_magnitude bounded_rate
ticked_back = refl

run_controller_tick-steers_example :
    (market ≤ fixed_point_one → fixed_point_one ≤ fixed_point_one + rate_delta_clamp)
    × (fixed_point_one ≤ market → fixed_point_one + rate_delta_clamp ≤ fixed_point_one)
run_controller_tick-steers_example =
    run_controller_tick-steers fixed_point_one market 7 fixed_point_one 1 60000 raised reversed
      ticked ticked_back
