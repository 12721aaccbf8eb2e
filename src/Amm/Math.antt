-- ===== src/Amm/Math.antt =====
-- The AMM's arithmetic: programs/amm/core/src/lib.rs. The `U256` of `alloy_primitives` is exact
-- arithmetic below 2 ^ 256 with checked operations.
pub mod Rounding
pub mod Pricing
pub mod ExactOut
use lez_programs.Shared.{
  ℕ, ◌+◌, ◌-◌, ◌*◌, ◌/◌, ◌%◌, ◌^◌, ◌<◌, ◌≤◌, ◌≡◌, ◌≢◌, ◌↔◌, refl, Bool, true, false, not, ◌||◌,
  Option, none, some, arith, ltb, leb, ◌==◌, if◌then◌else◌, Result, ok, err, ◌>>=◌, ◌>>◌, guard,
  expect, checked_add, checked_sub, checked_mul_u256, to_u128, IsU128, min, u128_max,
}
use lez_programs.Amm.Core.{Panic, fee_bps_denominator}

unfoldable pub is_supported_fee_tier : ℕ → Bool
is_supported_fee_tier fees = fees == 1 || fees == 5 || fees == 30 || fees == 100

unfoldable pub assert_valid_swap_fee_bps : ℕ → Result Panic (Unit {0})
assert_valid_swap_fee_bps swap_fee_bps =
    guard (ltb swap_fee_bps fee_bps_denominator) Panic.fee_out_of_range

unfoldable pub assert_valid_protocol_fee_bps : ℕ → Result Panic (Unit {0})
assert_valid_protocol_fee_bps protocol_fee_bps =
    guard (leb protocol_fee_bps fee_bps_denominator) Panic.protocol_fee_out_of_range

unfoldable pub mul_div_floor : ℕ → ℕ → ℕ → Result Panic ℕ
mul_div_floor a b c = do
  guard (not (c == 0)) Panic.divisor_zero
  product ← expect (checked_mul_u256 a b) Panic.intermediate_overflow
  expect (to_u128 (product / c)) Panic.result_overflow

unfoldable pub mul_div_ceil : ℕ → ℕ → ℕ → Result Panic ℕ
mul_div_ceil a b c = do
  guard (not (c == 0)) Panic.divisor_zero
  product ← expect (checked_mul_u256 a b) Panic.intermediate_overflow
  let quotient = product / c
  expect (to_u128 (if product % c == 0 then quotient else quotient + 1)) Panic.result_overflow

unfoldable pub protocol_fee_amount : ℕ → ℕ → Result Panic ℕ
protocol_fee_amount swap_fee protocol_fee_bps =
    mul_div_floor swap_fee protocol_fee_bps fee_bps_denominator

-- `Q64.64`, saturating.
unfoldable pub spot_price_q64_64 : ℕ → ℕ → Result Panic ℕ
spot_price_q64_64 reserve_base reserve_quote = do
  guard (not (reserve_base == 0)) Panic.zero_reserve
  let price = reserve_quote * 2 ^ 64 / reserve_base
  ok (if ltb price (2 ^ 128) then price else u128_max)

unfoldable pub price_impact_bps : ℕ → ℕ → ℕ → ℕ → ℕ
price_impact_bps amount_in amount_out reserve_in reserve_out =
    if reserve_in == 0
    then 0
    else (let spot = reserve_out * amount_in / reserve_in in
        if spot == 0
        then 0
        else (let kept = fee_bps_denominator * amount_out / spot in
            fee_bps_denominator
            - min (if ltb kept (2 ^ 128) then kept else fee_bps_denominator) fee_bps_denominator))

-- The fee-adjusted input and the output.
unfoldable pub swap_exact_in_amounts : ℕ → ℕ → ℕ → ℕ → Result Panic (ℕ × ℕ)
swap_exact_in_amounts amount_in reserve_in reserve_out fee_bps = do
  effective ← mul_div_floor amount_in (fee_bps_denominator - fee_bps) fee_bps_denominator
  elim (checked_add reserve_in effective) [
    | none ↦ ok (effective, 0)
    | some total ↦ elim (total == 0) [
      | true ↦ ok (effective, 0)
      | false ↦ do
        amount_out ← mul_div_floor reserve_out effective total
        ok (effective, amount_out)
    ]
  ]

-- The fee-adjusted input and the gross input that an output takes; `none` where no input does.
unfoldable pub swap_exact_out_amounts : ℕ → ℕ → ℕ → ℕ → Result Panic (Option (ℕ × ℕ))
swap_exact_out_amounts amount_out reserve_in reserve_out fee_bps =
    elim (checked_sub reserve_out amount_out) [
      | none ↦ ok none
      | some denominator ↦ if denominator == 0 || reserve_in == 0 then ok none else do
        effective_in_min ← mul_div_ceil reserve_in amount_out denominator
        elim (checked_sub fee_bps_denominator fee_bps) [
          | none ↦ ok none
          | some fee_multiplier ↦ if fee_multiplier == 0 then ok none else do
            required_in ← mul_div_ceil effective_in_min fee_bps_denominator fee_multiplier
            ok (some (effective_in_min, required_in))
        ]
    ]
