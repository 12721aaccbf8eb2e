-- ===== src/Stablecoin/Controller.antt =====
-- The redemption-rate controller of programs/stablecoin/core/src/controller.rs.
pub mod Bounds
pub mod Feedback
use lez_programs.Shared.{
  ℕ, ◌+◌, ◌-◌, ◌*◌, ◌^◌, ◌<◌, ◌≤◌, ◌≡◌, refl, arith, Result, ok, ◌>>=◌, ltb, leb, if◌then◌else◌,
  min, max, suc, zero, IsU128, ℤ, pos, negsuc, abs, neg, difference, ◌+ℤ◌, ◌*ℤ◌, abs-neg,
  abs-difference, abs-◌*ℤ◌, abs-◌+ℤ◌,
}
use lez_programs.Stablecoin.Core.{
  Panic, fixed_point_one, rate_delta_clamp, integral_clamp, minimum_redemption_price,
  maximum_redemption_price, maximum_compounding_window_milliseconds,
}
use lez_programs.Stablecoin.Signed.{
  quotient, checked, saturate_i128, at_least_one, abs-quotient, checked_fits,
}

unfoldable pub bound_redemption_price : ℕ → ℕ
bound_redemption_price projected_redemption_price =
    max (min projected_redemption_price maximum_redemption_price) minimum_redemption_price

pub record ControllerOutput : Type 0 where
  pub redemption_rate_per_millisecond : ℕ
  pub controller_integral_term : ℤ

unfoldable pub clamp_to_magnitude : ℤ → ℕ → ℤ
clamp_to_magnitude (ℤ.pos n) magnitude = if ltb magnitude n then pos magnitude else pos n
clamp_to_magnitude (ℤ.negsuc n) magnitude =
    if ltb magnitude (suc n) then neg magnitude else negsuc n

-- The rate that an adjustment asks for, which at a price bound may only point back inside.
unfoldable pub bounded_rate : ℕ → ℤ → ℕ
bounded_rate current_redemption_price rate_adjustment =
    let unbounded_rate = at_least_one (saturate_i128 (pos fixed_point_one +ℤ rate_adjustment)) in
    if leb current_redemption_price minimum_redemption_price
    then max unbounded_rate fixed_point_one
    else (if leb maximum_redemption_price current_redemption_price
        then min unbounded_rate fixed_point_one
        else unbounded_rate)

unfoldable pub run_controller_tick : ℕ → ℕ → ℤ → ℤ → ℤ → ℕ → Result Panic ControllerOutput
run_controller_tick current_redemption_price market_price controller_integral_term
      controller_proportional_gain controller_integral_gain milliseconds_elapsed =
    do
      error ← checked (difference current_redemption_price market_price)
      proportional ← checked (controller_proportional_gain *ℤ error)
      integral ← checked (controller_integral_gain *ℤ error)
      integral_over_time ← checked (integral *ℤ pos milliseconds_elapsed)
      sum ← checked (controller_integral_term +ℤ quotient integral_over_time fixed_point_one)
      let new_integral_term = clamp_to_magnitude sum integral_clamp
      adjustment ← checked (quotient proportional fixed_point_one +ℤ new_integral_term)
      ok (record {
        redemption_rate_per_millisecond =
            bounded_rate current_redemption_price (clamp_to_magnitude adjustment rate_delta_clamp);
        controller_integral_term = new_integral_term;
      })
