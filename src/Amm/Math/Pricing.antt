-- ===== src/Amm/Math/Pricing.antt =====
-- The constant-product prices of programs/amm/core/src/lib.rs: what a swap pays and asks for.
use native.Mathlib.Nat.{le-div_iff_mul-le, div-le_of_le-mul, mul-le-mul_left, mul-le-mul, le_of_eq}
use mathlib.Core.Path.{subst}
use lez_programs.Shared.{
  ℕ, ◌+◌, ◌-◌, ◌*◌, ◌/◌, ◌^◌, ◌<◌, ◌≤◌, ◌≡◌, ◌↔◌, ◌⊎◌, inl, inr, sym, arith, ok, IsU128, bind-eq-ok,
}
use lez_programs.Amm.Core.{fee_bps_denominator}
use lez_programs.Amm.Math.{mul_div_floor, swap_exact_in_amounts}
use lez_programs.Amm.Math.Rounding.{mul_div_floor_lem, mul_div_floor_total}

-- The part of an input that a fee leaves, and the output that it buys.
abbrev pub effective_in : ℕ → ℕ → ℕ
effective_in amount_in fee_bps = amount_in * (fee_bps_denominator - fee_bps) / fee_bps_denominator

abbrev pub amount_out : ℕ → ℕ → ℕ → ℕ
amount_out effective reserve_in reserve_out = reserve_out * effective / (reserve_in + effective)

pub effective_in-le : (amount_in fee_bps : ℕ) → effective_in amount_in fee_bps ≤ amount_in
effective_in-le amount_in fee_bps = div-le_of_le-mul fee_bps_denominator (
    omega (
      arith,
      mul-le-mul_left {m = fee_bps_denominator - fee_bps} {n = fee_bps_denominator} amount_in
          (omega arith),
    ))

pub amount_out-le :
    (eff reserve_in reserve_out : ℕ) → amount_out eff reserve_in reserve_out ≤ reserve_out
amount_out-le eff reserve_in reserve_out =
    div-le_of_le-mul (reserve_in + eff)
      (omega (arith, mul-le-mul_left {m = eff} {n = reserve_in + eff} reserve_out (omega arith)))

-- Of two machine-word reserves whose input side does not overflow, a swap never panics.
pub swap_exact_in_amounts_total :
    (amount_in reserve_in reserve_out fee_bps : ℕ)
    → IsU128 amount_in
    → IsU128 reserve_out
    → reserve_in + effective_in amount_in fee_bps < 2 ^ 128
    → 0 < reserve_in
    → swap_exact_in_amounts amount_in reserve_in reserve_out fee_bps
      ≡ ok (
        effective_in amount_in fee_bps,
        amount_out (effective_in amount_in fee_bps) reserve_in reserve_out,
      )
unfolding swap_exact_in_amounts
swap_exact_in_amounts_total amount_in reserve_in reserve_out fee_bps hi ho ht pos =
    let eff : ℕ = effective_in amount_in fee_bps in
    let first : mul_div_floor amount_in (fee_bps_denominator - fee_bps) fee_bps_denominator
        ≡ ok eff =
      mul_div_floor_total amount_in (fee_bps_denominator - fee_bps) fee_bps_denominator hi
        (omega arith) (omega arith) (omega (arith, effective_in-le amount_in fee_bps)) in
    let second : mul_div_floor reserve_out eff (reserve_in + eff)
        ≡ ok (amount_out eff reserve_in reserve_out) =
      mul_div_floor_total reserve_out eff (reserve_in + eff) ho (omega arith) (omega arith)
        (omega (arith, amount_out-le eff reserve_in reserve_out)) in
    rw first (ground (arith, second))

-- With reserves `r` and `x + y` and an input `e`, paying out `x` keeps the product exactly when
-- `x` is within the floor.
kept_iff : (r e x y : ℕ) → (x * (r + e) ≤ (x + y) * e) ↔ (r * (x + y) ≤ (r + e) * y)
kept_iff r e x y = (λ h. omega arith, λ h. omega arith)

le-amount_out_iff :
    (x eff reserve_in reserve_out : ℕ)
    → 0 < reserve_in + eff
    → x ≤ reserve_out
    → (x ≤ amount_out eff reserve_in reserve_out)
      ↔ (reserve_in * reserve_out ≤ (reserve_in + eff) * (reserve_out - x))
le-amount_out_iff x eff reserve_in reserve_out pos le =
    let y : ℕ = reserve_out - x in
    let sum : reserve_out ≡ x + y = omega arith in
    let half : (x ≤ amount_out eff reserve_in reserve_out)
        ↔ (x * (reserve_in + eff) ≤ reserve_out * eff) =
      le-div_iff_mul-le {k = reserve_in + eff} {x = x} {y = reserve_out * eff} pos in
    let kept = kept_iff reserve_in eff x y in
    (
      λ h.
          subst (λ (t : ℕ). reserve_in * t ≤ (reserve_in + eff) * y) (sym sum)
            (kept.0 (subst (λ (t : ℕ). x * (reserve_in + eff) ≤ t * eff) sum (half.0 h))),
      λ h. half.1 (
          subst (λ (t : ℕ). x * (reserve_in + eff) ≤ t * eff) (sym sum)
            (kept.1 (subst (λ (t : ℕ). reserve_in * t ≤ (reserve_in + eff) * y) sum h))),
    )

-- The output of an exact-input swap is the largest that keeps the product of the reserves, when
-- the fee-adjusted input counts; and that input is the floor of what the fee leaves.
pub swap_exact_in_amounts_optimal :
    (amount_in reserve_in reserve_out fee_bps x : ℕ)
    → IsU128 amount_in
    → IsU128 reserve_out
    → reserve_in + effective_in amount_in fee_bps < 2 ^ 128
    → 0 < reserve_in
    → x ≤ reserve_out
    → (out : ℕ) × (swap_exact_in_amounts amount_in reserve_in reserve_out fee_bps
        ≡ ok (effective_in amount_in fee_bps, out))
      × ((x ≤ out) ↔ (
          reserve_in * reserve_out
          ≤ (reserve_in + effective_in amount_in fee_bps) * (reserve_out - x)))
swap_exact_in_amounts_optimal amount_in reserve_in reserve_out fee_bps x hi ho ht pos le =
    let eff = effective_in amount_in fee_bps in
    (
      amount_out eff reserve_in reserve_out,
      swap_exact_in_amounts_total amount_in reserve_in reserve_out fee_bps hi ho ht pos,
      le-amount_out_iff x eff reserve_in reserve_out (omega arith) le,
    )

pub swap_exact_in_amounts_lem :
    (amount_in reserve_in reserve_out fee_bps : ℕ) {eff out : ℕ}
    → swap_exact_in_amounts amount_in reserve_in reserve_out fee_bps ≡ ok (eff, out)
    → (eff ≡ effective_in amount_in fee_bps)
      × ((out ≡ 0) ⊎ ((0 < reserve_in + eff) × (out ≡ amount_out eff reserve_in reserve_out)))
unfolding swap_exact_in_amounts
swap_exact_in_amounts_lem amount_in reserve_in reserve_out fee_bps {eff} {out} e =
    let (eff', e₁, e₂) = bind-eq-ok _ _ e in
    let (_, eq, _) = mul_div_floor_lem _ _ _ e₁ in
    ground (arith, mul_div_floor_lem reserve_out eff' (reserve_in + eff') {q = out})

-- Whatever an exact-input swap pays out, the product of the reserves does not fall.
pub swap_exact_in_amounts_keeps_product :
    (amount_in reserve_in reserve_out fee_bps : ℕ) {eff out : ℕ}
    → swap_exact_in_amounts amount_in reserve_in reserve_out fee_bps ≡ ok (eff, out)
    → (eff ≤ amount_in)
      × (out ≤ reserve_out)
      × (reserve_in * reserve_out ≤ (reserve_in + eff) * (reserve_out - out))
swap_exact_in_amounts_keeps_product amount_in reserve_in reserve_out fee_bps {eff} {out} e =
    let (eq, cases) = swap_exact_in_amounts_lem amount_in reserve_in reserve_out fee_bps e in
    let bound : eff ≤ amount_in = rw eq (effective_in-le amount_in fee_bps) in
    elim cases [
      | inl nothing ↦ (
        bound,
        omega arith,
        rw nothing (
            mul-le-mul {n₁ = reserve_in} {m₁ = reserve_out} {n₂ = reserve_in + eff}
              {m₂ = reserve_out - 0} (omega arith) (omega arith)),
      )
      | inr (pos, paid) ↦
          (let le : out ≤ reserve_out = rw paid (amount_out-le eff reserve_in reserve_out) in
            (
              bound,
              le,
              (le-amount_out_iff out eff reserve_in reserve_out pos le).0 (le_of_eq paid),
            ))
    ]
