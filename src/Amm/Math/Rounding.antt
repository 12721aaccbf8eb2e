-- ===== src/Amm/Math/Rounding.antt =====
-- What `mul_div_floor` and `mul_div_ceil` of programs/amm/core/src/lib.rs round to, and when they
-- panic.
use native.Mathlib.Nat.{lt-div-mul-add, div-mul-le_self, div-add-mod', mod-lt}
use lez_programs.Shared.{
  ℕ, ◌+◌, ◌*◌, ◌/◌, ◌%◌, ◌^◌, ◌<◌, ◌≤◌, ◌≡◌, ◌⊎◌, inl, inr, arith, ok, IsU128, mul-IsU256,
}
use lez_programs.Amm.Math.{mul_div_floor, mul_div_ceil}

pub mul_div_floor_lem :
    (a b c : ℕ) {q : ℕ} → mul_div_floor a b c ≡ ok q → (0 < c) × (q ≡ a * b / c) × (q < 2 ^ 128)
unfolding mul_div_floor
mul_div_floor_lem a b c e = ground arith

pub mul_div_floor_total :
    (a b c : ℕ)
    → IsU128 a
    → IsU128 b
    → 0 < c
    → a * b / c < 2 ^ 128
    → mul_div_floor a b c ≡ ok (a * b / c)
unfolding mul_div_floor
mul_div_floor_total a b c ha hb hc hq = ground (arith, mul-IsU256 a b ha hb)

-- The floor is the largest number whose product with the divisor is within `a * b`.
pub mul_div_floor_bounds :
    (a b c : ℕ) {q : ℕ} → mul_div_floor a b c ≡ ok q → (q * c ≤ a * b) × (a * b < q * c + c)
mul_div_floor_bounds a b c e =
    let (pos, eq, _) = mul_div_floor_lem a b c e in
    rw eq (div-mul-le_self (a * b) c, lt-div-mul-add {a = a * b} {b = c} pos)

mul_div_ceil_lem :
    (a b c : ℕ) {q : ℕ}
    → mul_div_ceil a b c ≡ ok q
    → (0 < c)
      × (q < 2 ^ 128)
      × (((a * b % c ≡ 0) × (q ≡ a * b / c)) ⊎ ((0 < a * b % c) × (q ≡ a * b / c + 1)))
unfolding mul_div_ceil
mul_div_ceil_lem a b c e = ground arith

-- The ceiling is the least number whose product with the divisor reaches `a * b`.
pub mul_div_ceil_bounds :
    (a b c : ℕ) {q : ℕ}
    → mul_div_ceil a b c ≡ ok q
    → (0 < c) × (a * b ≤ q * c) × (q * c < a * b + c) × (q < 2 ^ 128)
mul_div_ceil_bounds a b c e =
    let (pos, small, cases) = mul_div_ceil_lem a b c e in
    let split : a * b / c * c + a * b % c ≡ a * b = div-add-mod' (a * b) c in
    let rest : a * b % c < c = mod-lt (a * b) pos in
    elim cases [
      | inl (whole, eq) ↦ (pos, rw eq (omega arith), rw eq (omega arith), small)
      | inr (part, eq) ↦ (pos, rw eq (omega arith), rw eq (omega arith), small)
    ]
