-- ===== src/Stablecoin/Math/Decay.antt =====
-- Rates of at most one in programs/stablecoin/core/src/math.rs: projecting by them never panics.
use native.Mathlib.Nat.{mul-le-mul_left, div-le_of_le-mul, pow-suc}
use lez_programs.Shared.{
  ℕ, zero, suc, ◌*◌, ◌/◌, ◌%◌, ◌^◌, ◌<◌, ◌≤◌, ◌≡◌, refl, ◌∙◌, arith, Bool, true, false, Result, ok,
  Bool-cases, inl, inr, ◌==◌, eq→==, not, IsU128, mul-IsU256,
}
use lez_programs.Stablecoin.Core.{Panic, fixed_point_one}
use lez_programs.Stablecoin.Math.{
  mul_div, multiply_if, compound_loop, compound_rate, compute_current_redemption_price,
  elapsed_window,
}
use lez_programs.Stablecoin.Math.Compounding.{compound_rate-cases}

-- A word scaled by a factor of at most one.
mul_div_small :
    (a factor : ℕ)
    → IsU128 a
    → factor ≤ fixed_point_one
    → (q : ℕ) × (mul_div a factor fixed_point_one ≡ ok q) × (q ≤ a)
unfolding mul_div
mul_div_small a factor ha hf =
    let q : ℕ = a * factor / fixed_point_one in
    let le : q ≤ a =
      div-le_of_le-mul fixed_point_one
        (omega (arith, mul-le-mul_left {m = factor} {n = fixed_point_one} a hf)) in
    let wide = mul-IsU256 a factor ha (omega arith) in (q, ground arith, le)

-- What a call returns, when it returns at most one.
abbrev AtMostOne : Result Panic ℕ → Type 0
AtMostOne r = (q : ℕ) × (r ≡ ok q) × (q ≤ fixed_point_one)

multiply_if-AtMostOne :
    (bit : Bool) (x y : ℕ)
    → x ≤ fixed_point_one
    → y ≤ fixed_point_one
    → AtMostOne (multiply_if bit x y)
unfolding multiply_if
multiply_if-AtMostOne true x y hx hy =
    let (q, e, le) = mul_div_small x y (omega arith) hy in (q, e, omega arith)
multiply_if-AtMostOne false x y hx hy = (x, refl, hx)

compound_loop-AtMostOne :
    (fuel result base exponent : ℕ)
    → exponent < 2 ^ fuel
    → result ≤ fixed_point_one
    → base ≤ fixed_point_one
    → AtMostOne (compound_loop fuel result base exponent)
unfolding compound_loop
compound_loop-AtMostOne zero result base exponent lt hr hb =
    let z = eq→== exponent 0 (omega arith) in (result, rw z refl, hr)
compound_loop-AtMostOne (suc fuel) result base exponent lt hr hb =
    elim (Bool-cases (exponent == 0)) [
      | inl z ↦ (result, rw (compound_loop, z) refl, hr)
      | inr n ↦
          (let half : exponent / 2 < 2 ^ fuel = omega (arith, pow-suc 2 fuel) in
            let (r, er, small_r) = multiply_if-AtMostOne (exponent % 2 == 1) result base hr hb in
            let (b, eb, small_b) =
              multiply_if-AtMostOne (not (exponent / 2 == 0)) base base hb hb in
            let (v, ev, small) =
              compound_loop-AtMostOne fuel r b (exponent / 2) half small_r small_b in
            (v, rw (compound_loop, n, er, eb) ev, small))
    ]

pub compound_rate-AtMostOne :
    (rate elapsed : ℕ)
    → rate ≤ fixed_point_one
    → elapsed < 2 ^ 64
    → AtMostOne (compound_rate rate elapsed)
compound_rate-AtMostOne rate elapsed small lt = elim (compound_rate-cases rate elapsed) [
  | inl (_, eq) ↦ (fixed_point_one, eq, omega arith)
  | inr (inl (_, eq)) ↦ (fixed_point_one, eq, omega arith)
  | inr (inr eq) ↦
      (let (v, ev, le) =
          compound_loop-AtMostOne 64 fixed_point_one rate elapsed lt (omega arith) small in
        (v, eq ∙ ev, le))
]

-- At a rate of at most one, projecting a 128-bit redemption price to any later time never panics,
-- and never raises the price.
pub compute_current_redemption_price-falls :
    (anchor rate last now : ℕ)
    → IsU128 anchor
    → rate ≤ fixed_point_one
    → (v : ℕ) × (compute_current_redemption_price anchor rate last now ≡ ok v) × (v ≤ anchor)
unfolding compute_current_redemption_price
compute_current_redemption_price-falls anchor rate last now ha small =
    let (factor, ef, le) =
      compound_rate-AtMostOne rate (elapsed_window last now) small (omega arith) in
    let (v, ev, below) = mul_div_small anchor factor ha le in (v, rw ef ev, below)
