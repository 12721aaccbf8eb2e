-- ===== src/Stablecoin/Core.antt =====
-- The scale, the limits and the panics of programs/stablecoin/core/src/math.rs and controller.rs, and the
-- panics of the handlers of programs/stablecoin/src.
use lez_programs.Shared.{ℕ, ◌^◌, ◌/◌, ◌-◌}

-- The messages with which the arithmetic and the handlers panic. `out_of_fuel` is none of the source's: it stands
-- for a loop that is still running.
pub data Panic : Type 0 where
  divisor_zero intermediate_overflow result_overflow out_of_fuel : Panic
  controller_overflow : Panic
  -- accounts
  not_authorized not_initialized not_owned wrong_address invalid_data wrong_clock : Panic
  wrong_owner wrong_vault wrong_definition wrong_token_program vault_not_fungible : Panic
  wrong_oracle no_oracle_price not_admin not_freeze_authority already_initialized : Panic
  -- state
  frozen accumulator_decreased debt_overflow debt_underflow total_debt_overflow : Panic
  total_debt_underflow collateral_overflow collateral_underflow : Panic
  price_is_zero undercollateralized outstanding_debt outstanding_collateral vault_not_empty : Panic
  oracle_stale zero_oracle_price too_soon : Panic
  -- administration
  out_of_band not_fungible empty_name : Panic

abbrev pub fixed_point_one : ℕ
fixed_point_one = 10 ^ 27

abbrev pub maximum_compounding_window_milliseconds : ℕ
maximum_compounding_window_milliseconds = 604800000

abbrev pub price_fractional_bits : ℕ
price_fractional_bits = 64

abbrev pub rate_delta_clamp : ℕ
rate_delta_clamp = fixed_point_one / 100000000000

abbrev pub integral_clamp : ℕ
integral_clamp = rate_delta_clamp

abbrev pub minimum_redemption_price : ℕ
minimum_redemption_price = 1000000000

abbrev pub maximum_redemption_price : ℕ
maximum_redemption_price = (2 ^ 128 - 1) / 2
