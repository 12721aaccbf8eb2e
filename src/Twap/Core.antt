-- ===== src/Twap/Core.antt =====
-- The oracle's account types, limits and addresses: programs/twap_oracle/core/src/lib.rs.
use lez_programs.Shared.{
  ℕ, zero, suc, ◌/◌, ◌%◌, ◌^◌, Bool, List, [], ◌∷◌, ◌++◌, Option, none, some, bytes_of, ℤ, leb_ℤ,
  ltb, if◌then◌else◌, min, ◌-◌,
}
use lez_programs.Host.{AccountId, Account, Codec}

-- The messages with which the handlers and the conversions panic.
pub data Panic : Type 0 where
  -- accounts
  wrong_tick_account wrong_observations wrong_price_account wrong_clock invalid_clock : Panic
  tick_account_not_owned observations_not_owned source_not_authorized : Panic
  tick_account_not_default observations_not_default price_account_not_default : Panic
  invalid_tick_account invalid_observations invalid_price_account : Panic
  -- values
  window_too_short zero_price zero_timestamp observations_stale : Panic
  -- arithmetic
  index_out_of_bounds elapsed_overflow cumulative_overflow entries_overflow : Panic
  clock_before_window no_elapsed_time tick_overflow : Panic
  root_overflow price_out_of_range tick_out_of_range : Panic

abbrev pub max_tick_delta : ℕ
max_tick_delta = 9116

abbrev pub observations_capacity : ℕ
observations_capacity = 2048

abbrev pub max_tail_intervals : ℕ
max_tail_intervals = 4

pub record ObservationEntry : Type 0 where
  pub timestamp : ℕ
  pub tick_cumulative : ℤ

pub record PriceObservations : Type 0 where
  pub price_source_id : AccountId
  pub write_index : ℕ
  pub total_entries : ℕ
  pub last_recorded_tick : ℤ
  pub entries : List ObservationEntry

pub record OraclePriceAccount : Type 0 where
  pub base_asset : AccountId
  pub quote_asset : AccountId
  pub price : ℕ
  pub price_timestamp : ℕ
  pub source_id : AccountId
  pub confidence_interval : ℕ

pub record CurrentTickAccount : Type 0 where
  pub tick : ℤ
  pub last_updated : ℕ

-- What the handlers take from the execution layer and from `uniswap_v3_math`: the codecs of the
-- account types, the test `account == Account::default()`, the derivation of addresses, the
-- timestamp that `ClockAccountData::from_bytes` reads (`none` if it panics), the bytes of a
-- number, and the two tick conversions with their limits.
pub record OracleHost (Data : Type 0) : Type 0 where
  pub observation_feeds : Codec Data PriceObservations
  pub price_accounts : Codec Data OraclePriceAccount
  pub tick_accounts : Codec Data CurrentTickAccount
  pub is_default : Account Data → Bool
  pub hash_bytes : List ℕ → ℕ
  pub to_bytes : AccountId → List ℕ
  pub for_public_pda : AccountId → ℕ → AccountId
  pub clock_01_program_account_id : AccountId
  pub clock_timestamp : Data → Option ℕ
  pub min_sqrt_ratio : ℕ
  pub get_tick_at_sqrt_ratio : ℕ → Option ℤ
  pub min_tick : ℤ
  pub max_tick : ℤ
  pub get_sqrt_ratio_at_tick : ℤ → Option ℕ
  pub full_mul_div : ℕ → ℕ → ℕ → Option ℕ

-- `value.clamp(low, high)` on signed words
abbrev pub clamp_ℤ : ℤ → ℤ → ℤ → ℤ
clamp_ℤ value low high = if leb_ℤ low value then (if leb_ℤ value high then value else high) else low

-- What a saturating operation on `i32` leaves of an exact result.
abbrev pub saturate_i32 : ℤ → ℤ
saturate_i32 (ℤ.pos n) = ℤ.pos (min n (2 ^ 31 - 1))
saturate_i32 (ℤ.negsuc n) = ℤ.negsuc (min n (2 ^ 31 - 1))

-- The result of a checked operation on `i64`, and of a conversion to it.
abbrev pub fits_i64 : ℤ → Bool
fits_i64 (ℤ.pos n) = ltb n (2 ^ 63)
fits_i64 (ℤ.negsuc n) = ltb n (2 ^ 63)

abbrev pub checked_i64 : ℤ → Option ℤ
checked_i64 z = if fits_i64 z then some z else none

-- `i32::try_from`
abbrev pub checked_i32 : ℤ → Option ℤ
checked_i32 (ℤ.pos n) = if ltb n (2 ^ 31) then some (ℤ.pos n) else none
checked_i32 (ℤ.negsuc n) = if ltb n (2 ^ 31) then some (ℤ.negsuc n) else none

-- `div_euclid` by a positive number: the floor of the quotient.
abbrev pub div_euclid : ℤ → ℕ → ℤ
div_euclid (ℤ.pos a) c = ℤ.pos (a / c)
div_euclid (ℤ.negsuc a) c = ℤ.negsuc (a / c)

-- The low `count` bytes of a word, the least first.
abbrev pub le_bytes : ℕ → ℕ → List ℕ
le_bytes zero n = []
le_bytes (suc count) n = n % 256 ∷ le_bytes count (n / 256)

module _ {Data : Type 0} (h : OracleHost Data) where
  unfoldable pub compute_price_observations_pda_seed : AccountId → ℕ → ℕ
  compute_price_observations_pda_seed price_source_id window_duration =
      h.hash_bytes (
        h.to_bytes price_source_id ++ (le_bytes 8 window_duration ++ bytes_of "PRICE_OBSERVATIONS"))

  unfoldable pub compute_price_observations_pda : AccountId → AccountId → ℕ → AccountId
  compute_price_observations_pda oracle_program_id price_source_id window_duration =
      h.for_public_pda oracle_program_id
        (compute_price_observations_pda_seed price_source_id window_duration)

  unfoldable pub compute_oracle_price_account_pda_seed : AccountId → ℕ → ℕ
  compute_oracle_price_account_pda_seed price_source_id window_duration = h.hash_bytes (
      h.to_bytes price_source_id ++ (le_bytes 8 window_duration ++ bytes_of "ORACLE_PRICE_ACCOUNT"))

  unfoldable pub compute_oracle_price_account_pda : AccountId → AccountId → ℕ → AccountId
  compute_oracle_price_account_pda oracle_program_id price_source_id window_duration =
      h.for_public_pda oracle_program_id
        (compute_oracle_price_account_pda_seed price_source_id window_duration)

  unfoldable pub compute_current_tick_account_pda_seed : AccountId → ℕ
  compute_current_tick_account_pda_seed price_source_id =
      h.hash_bytes (h.to_bytes price_source_id ++ bytes_of "CURRENT_TICK_ACCOUNT")

  unfoldable pub compute_current_tick_account_pda : AccountId → AccountId → AccountId
  compute_current_tick_account_pda oracle_program_id price_source_id =
      h.for_public_pda oracle_program_id (compute_current_tick_account_pda_seed price_source_id)
