-- ===== src/Twap/Root.antt =====
-- Prices as ticks, and ticks as prices: programs/twap_oracle/core/src/lib.rs.
pub mod Floor
use native.Mathlib.Nat.{pow-zero, pow-suc}
use lez_programs.Shared.{
  ℕ, zero, suc, ◌+◌, ◌-◌, ◌*◌, ◌/◌, ◌^◌, ◌<◌, ◌≤◌, ◌≡◌, refl, arith, Result, ok, err, ◌>>=◌, ltb,
  leb, ◌==◌, if◌then◌else◌, max, expect, Option, some, none, true, false, checked_sub, ℤ, u128_max,
}
use lez_programs.Twap.Core.{Panic, OracleHost, clamp_ℤ}

abbrev checked_add_u256 : ℕ → ℕ → Option ℕ
checked_add_u256 a b = if ltb (a + b) (2 ^ 256) then some (a + b) else none

-- How many bits a number has, if no more than `count`.
unfoldable pub bit_length : ℕ → ℕ → ℕ
bit_length zero n = 0
bit_length (suc count) n = let rest = bit_length count (n / 2) in if n == 0 then 0 else suc rest

-- `leading_zeros` of `U256`
abbrev pub leading_zeros : ℕ → ℕ
leading_zeros n = 256 - bit_length 256 n

-- The body of the loop of `integer_sqrt`, but for `d`, which every turn divides by 4.
unfoldable pub root_turn : ℕ → ℕ → ℕ → Result Panic (ℕ × ℕ)
root_turn c d x = do
  cd ← expect (checked_add_u256 c d) Panic.root_overflow
  if leb cd x
      then (do
        x' ← expect (checked_sub x cd) Panic.root_overflow
        c' ← expect (checked_add_u256 (c / 2) d) Panic.root_overflow
        ok (c', x'))
      else ok (c / 2, x)

unfoldable pub root_loop : ℕ → ℕ → ℕ → ℕ → Result Panic ℕ
root_loop zero c d x = err Panic.root_overflow
root_loop (suc fuel) c d x = elim (d == 0) [
  | true ↦ ok c
  | false ↦ do (c', x') ← root_turn c d x; root_loop fuel c' (d / 4) x'
]

-- `d` starts at the largest power of four that `n` reaches, so it is 0 after 129 turns at most.
unfoldable pub integer_sqrt : ℕ → Result Panic ℕ
integer_sqrt n = if n == 0 then ok 0 else (do
  msb ← expect (checked_sub 255 (leading_zeros n)) Panic.root_overflow
  root_loop 129 0 (2 ^ (msb / 2 * 2)) n)

module _ {Data : Type 0} (h : OracleHost Data) where
  unfoldable pub price_to_tick : ℕ → Result Panic ℤ
  price_to_tick price = do
    shifted ←
        expect (if ltb (price * 2 ^ 128) (2 ^ 256) then some (price * 2 ^ 128) else none)
          Panic.price_out_of_range
    root ← integer_sqrt shifted
    expect (h.get_tick_at_sqrt_ratio (max root h.min_sqrt_ratio)) Panic.tick_out_of_range

  unfoldable pub tick_to_oracle_price : ℤ → Result Panic ℕ
  tick_to_oracle_price tick = do
    let clamped_tick = clamp_ℤ tick h.min_tick h.max_tick
    sqrt_price_x96 ← expect (h.get_sqrt_ratio_at_tick clamped_tick) Panic.tick_out_of_range
    price_q64_64 ←
        expect (h.full_mul_div sqrt_price_x96 sqrt_price_x96 (2 ^ 128)) Panic.price_out_of_range
    ok (if ltb price_q64_64 (2 ^ 128) then price_q64_64 else u128_max)
