-- ===== src/Stablecoin/Controller/Bounds.antt =====
-- The limits that the controller of programs/stablecoin/core/src/controller.rs keeps, and when it
-- returns.
use native.Mathlib.Nat.{mul-le-mul}
use lez_programs.Shared.{
  ℕ, ◌+◌, ◌-◌, ◌*◌, ◌^◌, ◌<◌, ◌≤◌, ◌≡◌, refl, arith, ok, IsU128, ℤ, pos, abs, difference, ◌+ℤ◌,
  ◌*ℤ◌, abs-neg, abs-difference, abs-◌*ℤ◌, abs-◌+ℤ◌,
}
use lez_programs.Stablecoin.Core.{
  fixed_point_one, rate_delta_clamp, integral_clamp, minimum_redemption_price,
  maximum_redemption_price, maximum_compounding_window_milliseconds,
}
use lez_programs.Stablecoin.Signed.{quotient, abs-quotient, checked_fits}
use lez_programs.Stablecoin.Controller.{
  ControllerOutput, clamp_to_magnitude, bounded_rate, run_controller_tick,
}

pub abs-clamp_to_magnitude : (z : ℤ) (m : ℕ) → abs (clamp_to_magnitude z m) ≤ m
unfolding clamp_to_magnitude
abs-clamp_to_magnitude (ℤ.pos n) m = ground arith
abs-clamp_to_magnitude (ℤ.negsuc n) m = ground (arith, abs-neg m)

-- What a tick at `price` returns.
pub record Bounded (price : ℕ) (out : ControllerOutput) : Type 0 where
  pub integral : abs out.controller_integral_term ≤ integral_clamp
  pub least : fixed_point_one - rate_delta_clamp ≤ out.redemption_rate_per_millisecond
  pub most : out.redemption_rate_per_millisecond ≤ fixed_point_one + rate_delta_clamp
  pub floor :
      price ≤ minimum_redemption_price → fixed_point_one ≤ out.redemption_rate_per_millisecond
  pub ceiling :
      maximum_redemption_price ≤ price → out.redemption_rate_per_millisecond ≤ fixed_point_one

bounded_rate-Bounded :
    (price : ℕ) (z i : ℤ)
    → abs z ≤ rate_delta_clamp
    → abs i ≤ integral_clamp
    → Bounded price (record {
      redemption_rate_per_millisecond = bounded_rate price z;
      controller_integral_term = i;
    })
unfolding bounded_rate
bounded_rate-Bounded price (ℤ.pos n) i hz hi = record {
  integral = hi;
  least = ground arith;
  most = ground arith;
  floor = λ h. ground arith;
  ceiling = λ h. ground arith;
}
bounded_rate-Bounded price (ℤ.negsuc n) i hz hi = record {
  integral = hi;
  least = ground arith;
  most = ground arith;
  floor = λ h. ground arith;
  ceiling = λ h. ground arith;
}

-- The largest magnitudes of the inputs: 128-bit prices, gains within their bands, an integral term
-- of `i128`, and a window within the clamp.
pub record AreInBand (price market : ℕ) (term kp ki : ℤ) (elapsed : ℕ) : Type 0 where
  pub price_word : IsU128 price
  pub market_word : IsU128 market
  pub term_word : abs term ≤ 2 ^ 127
  pub kp_band : abs kp ≤ 1000 * fixed_point_one
  pub ki_band : abs ki ≤ fixed_point_one
  pub window : elapsed ≤ maximum_compounding_window_milliseconds

-- With inputs in their bands no intermediate overflows: a tick returns, its integral term is within
-- the anti-windup clamp and its rate within the rate clamp of one, and at a bound of the price the
-- rate does not point outside.
pub run_controller_tick-Bounded :
    (price market : ℕ) (term kp ki : ℤ) (elapsed : ℕ)
    → AreInBand price market term kp ki elapsed
    → (out : ControllerOutput) × (run_controller_tick price market term kp ki elapsed ≡ ok out)
      × Bounded price out
unfolding run_controller_tick
run_controller_tick-Bounded price market term kp ki elapsed b =
    let error : ℤ = difference price market in
    let small_error : abs error ≤ 2 ^ 128 =
      abs-difference price market (2 ^ 128) (omega (arith, b.price_word))
        (omega (arith, b.market_word)) in
    let p : ℤ = kp *ℤ error in
    let small_p : abs p ≤ 1000 * fixed_point_one * 2 ^ 128 =
      rw (abs-◌*ℤ◌ kp error) (mul-le-mul b.kp_band small_error) in
    let d : ℤ = ki *ℤ error in
    let small_d : abs d ≤ fixed_point_one * 2 ^ 128 =
      rw (abs-◌*ℤ◌ ki error) (mul-le-mul b.ki_band small_error) in
    let t : ℤ = d *ℤ pos elapsed in
    let small_t : abs t ≤ fixed_point_one * 2 ^ 128 * maximum_compounding_window_milliseconds =
      rw (abs-◌*ℤ◌ d (pos elapsed)) (mul-le-mul small_d b.window) in
    let s : ℤ = term +ℤ quotient t fixed_point_one in
    let small_s : abs s < 2 ^ 255 = omega (
      arith,
      b.term_word,
      small_t,
      abs-◌+ℤ◌ term (quotient t fixed_point_one),
      abs-quotient t fixed_point_one,
    ) in
    let i : ℤ = clamp_to_magnitude s integral_clamp in
    let small_i : abs i ≤ integral_clamp = abs-clamp_to_magnitude s integral_clamp in
    let r : ℤ = quotient p fixed_point_one +ℤ i in
    let small_r : abs r < 2 ^ 255 = omega (
      arith,
      small_p,
      small_i,
      abs-◌+ℤ◌ (quotient p fixed_point_one) i,
      abs-quotient p fixed_point_one,
    ) in
    let out : ControllerOutput = record {
      redemption_rate_per_millisecond = bounded_rate price (clamp_to_magnitude r rate_delta_clamp);
      controller_integral_term = i;
    } in
    (
      out,
      rw
          (
            checked_fits error (omega (arith, small_error)),
            checked_fits p (omega (arith, small_p)),
            checked_fits d (omega (arith, small_d)),
            checked_fits t (omega (arith, small_t)),
            checked_fits s small_s,
            checked_fits r small_r,
          )
          refl,
      bounded_rate-Bounded price (clamp_to_magnitude r rate_delta_clamp) i
          (abs-clamp_to_magnitude r rate_delta_clamp) small_i,
    )
