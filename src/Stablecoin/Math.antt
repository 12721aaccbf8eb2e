-- ===== src/Stablecoin/Math.antt =====
-- The fixed-point arithmetic of programs/stablecoin/core/src/math.rs. `U256` and `U512` of
-- `alloy_primitives` are exact below 2 ^ 256 and 2 ^ 512.
pub mod Projection
pub mod Compounding
pub mod Decay
use lez_programs.Shared.{
  ℕ, zero, suc, ◌+◌, ◌-◌, ◌*◌, ◌/◌, ◌%◌, ◌^◌, Bool, true, false, not, ◌||◌, Option, none, some, ltb,
  ◌==◌, if◌then◌else◌, Result, ok, err, ◌>>=◌, ◌>>◌, guard, expect, checked_mul_u256, to_u128, min,
  u128_max,
}
use lez_programs.Stablecoin.Core.{
  Panic, fixed_point_one, maximum_compounding_window_milliseconds, price_fractional_bits,
}

unfoldable pub mul_div : ℕ → ℕ → ℕ → Result Panic ℕ
mul_div a b c = do
  guard (not (c == 0)) Panic.divisor_zero
  product ← expect (checked_mul_u256 a b) Panic.intermediate_overflow
  expect (to_u128 (product / c)) Panic.result_overflow

unfoldable pub mul_div_ceil : ℕ → ℕ → ℕ → Result Panic ℕ
mul_div_ceil a b c = do
  guard (not (c == 0)) Panic.divisor_zero
  product ← expect (checked_mul_u256 a b) Panic.intermediate_overflow
  let quotient = product / c
  expect (to_u128 (if product % c == 0 then quotient else quotient + 1)) Panic.result_overflow

unfoldable pub oracle_price_to_fixed_point : ℕ → ℕ
oracle_price_to_fixed_point oracle_price =
    let scaled = oracle_price * fixed_point_one / 2 ^ price_fractional_bits in
    if ltb scaled (2 ^ 128) then scaled else u128_max

-- `if bit { value = mul_div(value, factor, FIXED_POINT_ONE); }`
unfoldable pub multiply_if : Bool → ℕ → ℕ → Result Panic ℕ
multiply_if true value factor = mul_div value factor fixed_point_one
multiply_if false value factor = ok value

-- The loop of `compound_rate`: one bit of the exponent a round.
unfoldable pub compound_loop : ℕ → ℕ → ℕ → ℕ → Result Panic ℕ
compound_loop zero result base exponent = if exponent == 0 then ok result else err Panic.out_of_fuel
compound_loop (suc fuel) result base exponent = elim (exponent == 0) [
  | true ↦ ok result
  | false ↦ do
    result' ← multiply_if (exponent % 2 == 1) result base
    base' ← multiply_if (not (exponent / 2 == 0)) base base
    compound_loop fuel result' base' (exponent / 2)
]

unfoldable pub compound_rate : ℕ → ℕ → Result Panic ℕ
compound_rate per_millisecond_rate milliseconds_elapsed =
    if milliseconds_elapsed == 0 || per_millisecond_rate == fixed_point_one
    then ok fixed_point_one
    else compound_loop 64 fixed_point_one per_millisecond_rate milliseconds_elapsed

-- `now.saturating_sub(last).min(MAXIMUM_COMPOUNDING_WINDOW_MILLISECONDS)`
abbrev pub elapsed_window : ℕ → ℕ → ℕ
elapsed_window last now = min (now - last) maximum_compounding_window_milliseconds

unfoldable pub compute_current_accumulated_rate : ℕ → ℕ → ℕ → ℕ → Result Panic ℕ
compute_current_accumulated_rate accumulated_rate_at_last_accrual stability_fee_per_millisecond
      last_accrued_at now =
    do
      factor ← compound_rate stability_fee_per_millisecond (elapsed_window last_accrued_at now)
      mul_div accumulated_rate_at_last_accrual factor fixed_point_one

unfoldable pub compute_current_redemption_price : ℕ → ℕ → ℕ → ℕ → Result Panic ℕ
compute_current_redemption_price redemption_price_at_last_update redemption_rate_per_millisecond
      last_updated_at now =
    do
      factor ← compound_rate redemption_rate_per_millisecond (elapsed_window last_updated_at now)
      mul_div redemption_price_at_last_update factor fixed_point_one

abbrev pub u512_max : ℕ
u512_max = 2 ^ 512 - 1

-- A product of `U512`, capped, and whether it was.
unfoldable pub wide_product : ℕ → ℕ → ℕ × Bool
wide_product lhs rhs = if ltb (lhs * rhs) (2 ^ 512) then (lhs * rhs, false) else (u512_max, true)

-- The same step in `U512`, and whether it overflowed.
unfoldable pub wide_multiply_if : Bool → ℕ → ℕ → ℕ × Bool
wide_multiply_if true value factor =
    let product = wide_product value factor in (product.0 / fixed_point_one, product.1)
wide_multiply_if false value factor = (value, false)

-- The loop of `compound_rate_wide_result`.
unfoldable pub compound_wide_loop : ℕ → ℕ → ℕ → ℕ → Bool → Result Panic (ℕ × Bool)
compound_wide_loop zero result base exponent saturated =
    if exponent == 0 then ok (result, saturated) else err Panic.out_of_fuel
compound_wide_loop (suc fuel) result base exponent saturated = elim (exponent == 0) [
  | true ↦ ok (result, saturated)
  | false ↦
      (let result' = wide_multiply_if (exponent % 2 == 1) result base in
        let base' = wide_multiply_if (not (exponent / 2 == 0)) base base in
        compound_wide_loop fuel result'.0 base'.0 (exponent / 2)
          (saturated || result'.1 || base'.1))
]

unfoldable pub compound_rate_wide_result : ℕ → ℕ → Result Panic (ℕ × Bool)
compound_rate_wide_result per_millisecond_rate milliseconds_elapsed =
    if milliseconds_elapsed == 0 || per_millisecond_rate == fixed_point_one
    then ok (fixed_point_one, false)
    else compound_wide_loop 64 fixed_point_one per_millisecond_rate milliseconds_elapsed false

unfoldable pub compound_rate_wide : ℕ → ℕ → Result Panic ℕ
compound_rate_wide per_millisecond_rate milliseconds_elapsed = do
  (factor, saturated) ← compound_rate_wide_result per_millisecond_rate milliseconds_elapsed
  ok factor

unfoldable pub try_project_rate_wide : ℕ → ℕ → ℕ → ℕ → Result Panic (Option ℕ)
try_project_rate_wide anchor rate last_updated_at now = do
  (factor, saturated) ← compound_rate_wide_result rate (elapsed_window last_updated_at now)
  ok (
      if saturated
      then none
      else (if ltb (anchor * factor) (2 ^ 512)
          then some (anchor * factor / fixed_point_one)
          else none))

unfoldable pub project_forward_wide : ℕ → ℕ → ℕ → ℕ → Result Panic ℕ
project_forward_wide anchor per_millisecond_rate last_updated_at now = do
  factor ← compound_rate_wide per_millisecond_rate (elapsed_window last_updated_at now)
  ok (min (anchor * factor) u512_max / fixed_point_one)

unfoldable pub compute_current_accumulated_rate_wide : ℕ → ℕ → ℕ → ℕ → Result Panic ℕ
compute_current_accumulated_rate_wide accumulated_rate_at_last_accrual stability_fee_per_millisecond
      last_accrued_at now =
    project_forward_wide accumulated_rate_at_last_accrual stability_fee_per_millisecond
      last_accrued_at now

unfoldable pub compute_current_redemption_price_wide : ℕ → ℕ → ℕ → ℕ → Result Panic ℕ
compute_current_redemption_price_wide redemption_price_at_last_update
      redemption_rate_per_millisecond last_updated_at now =
    project_forward_wide redemption_price_at_last_update redemption_rate_per_millisecond
      last_updated_at now
