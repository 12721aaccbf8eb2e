-- ===== src/Stablecoin/Collateralization.antt =====
-- The collateralization test of programs/stablecoin/core/src/collateralization.rs.
use native.Mathlib.Nat.{mul-le-mul_left}
use lez_programs.Shared.{
  ℕ, ◌*◌, ◌^◌, ◌<◌, ◌≤◌, ◌≡◌, ◌↔◌, ◌⊎◌, inl, inr, refl, Bool-cases, Bool, true, false, arith,
  IsU128, ltb, leb, List, [], ◌∷◌, leb→le, le→leb,
}
use lez_programs.Stablecoin.Core.{fixed_point_one}
use lez_programs.Stablecoin.Math.{u512_max}

pub record CollateralizationValues : Type 0 where
  pub collateral_value : ℕ
  pub required_collateral_value : ℕ
  pub requirement_saturated : Bool

unfoldable pub is_collateralized : CollateralizationValues → Bool
is_collateralized v = leb v.required_collateral_value v.collateral_value

-- The loop over the operands, which stops at the first product that overflows.
unfoldable pub requirement : ℕ → List ℕ → ℕ × Bool
requirement required [] = (required, false)
requirement required (operand ∷ operands) = elim (ltb (required * operand) (2 ^ 512)) [
  | true ↦ requirement (required * operand) operands
  | false ↦ (u512_max, true)
]

unfoldable pub collateralization_values : ℕ → ℕ → ℕ → ℕ → ℕ → CollateralizationValues
collateralization_values collateral_amount normalized_debt_amount current_accumulator
      current_redemption_price minimum_collateralization_ratio =
    let required =
      requirement normalized_debt_amount
        (current_accumulator ∷ current_redemption_price ∷ minimum_collateralization_ratio ∷ []) in
    record {
      collateral_value = collateral_amount * fixed_point_one * fixed_point_one * fixed_point_one;
      required_collateral_value = required.0;
      requirement_saturated = required.1;
    }

not_below : (n : ℕ) → ltb n (2 ^ 512) ≡ false → u512_max < n
not_below n e = ground arith

scaled : (n k : ℕ) → u512_max < n → 0 < k → u512_max < n * k
scaled n k h pos = omega (arith, mul-le-mul_left {m = 1} {n = k} n pos)

-- Once a product has overflowed, the requirement is the cap, and the exact product of non-zero
-- operands is beyond it.
requirement_lem :
    (required x y z : ℕ)
    → 0 < y
    → 0 < z
    → (((requirement required (x ∷ y ∷ z ∷ [])).0 ≡ required * x * y * z)
        ⊎ (((requirement required (x ∷ y ∷ z ∷ [])).0 ≡ u512_max)
            × (u512_max < required * x * y * z)))
unfolding requirement
requirement_lem required x y z hy hz = elim (Bool-cases (ltb (required * x) (2 ^ 512))) [
  | inl one ↦ elim (Bool-cases (ltb (required * x * y) (2 ^ 512))) [
    | inl two ↦ elim (Bool-cases (ltb (required * x * y * z) (2 ^ 512))) [
      | inl three ↦
          inl (rw (requirement, one, requirement, two, requirement, three, requirement) refl)
      | inr over ↦ inr (
          rw (requirement, one, requirement, two, requirement, over)
            (refl, not_below (required * x * y * z) over))
    ]
    | inr over ↦ inr (
        rw (requirement, one, requirement, over)
          (refl, scaled (required * x * y) z (not_below (required * x * y) over) hz))
  ]
  | inr over ↦ inr (
      rw (requirement, over)
        (
          refl,
          scaled (required * x * y) z (scaled (required * x) y (not_below (required * x) over) hy)
              hz,
        ))
]

-- The test is exact: at a non-zero price and ratio, a position is collateralized exactly when the
-- unrounded value of its debt times the ratio is within its collateral, although a product that
-- overflows is capped.
pub is_collateralized_iff :
    (collateral debt accumulator price ratio : ℕ)
    → IsU128 collateral
    → 0 < price
    → 0 < ratio
    → (is_collateralized (collateralization_values collateral debt accumulator price ratio) ≡ true)
      ↔ (debt * accumulator * price * ratio ≤ collateral * fixed_point_one ^ 3)
unfolding is_collateralized collateralization_values
is_collateralized_iff collateral debt accumulator price ratio hc hp hr =
    let cube : collateral * fixed_point_one * fixed_point_one * fixed_point_one
        ≡ collateral * fixed_point_one ^ 3 =
      omega arith in
    elim (requirement_lem debt accumulator price ratio hp hr) [
      | inl exact ↦ rw exact (
        λ h. omega (
          arith,
          leb→le (debt * accumulator * price * ratio)
              (collateral * fixed_point_one * fixed_point_one * fixed_point_one) h,
        ),
        λ h.
            le→leb (debt * accumulator * price * ratio)
              (collateral * fixed_point_one * fixed_point_one * fixed_point_one) (omega arith),
      )
      | inr (capped, over) ↦ rw capped (
        λ h. omega (
          arith,
          leb→le u512_max (collateral * fixed_point_one * fixed_point_one * fixed_point_one) h,
        ),
        λ h.
            le→leb u512_max (collateral * fixed_point_one * fixed_point_one * fixed_point_one)
              (omega arith),
      )
    ]
