-- ===== src/Amm/Math/ExactOut.antt =====
-- `swap_exact_out_amounts` of programs/amm/core/src/lib.rs against the exact-input price.
use native.Mathlib.Nat.{le-div_iff_mul-le, mul-le-mul_right, lt_of_mul-lt-mul_right}
use mathlib.Core.Path.{subst}
use lez_programs.Shared.{ℕ, ◌+◌, ◌-◌, ◌*◌, ◌^◌, ◌<◌, ◌≤◌, ◌≡◌, ◌↔◌, sym, arith, ok, some, IsU128}
use lez_programs.Amm.Core.{fee_bps_denominator}
use lez_programs.Amm.Math.{mul_div_ceil, swap_exact_in_amounts, swap_exact_out_amounts}
use lez_programs.Amm.Math.Rounding.{mul_div_ceil_bounds}
use lez_programs.Amm.Math.Pricing.{
  effective_in, effective_in-le, amount_out, swap_exact_in_amounts_total,
}

-- The two ceilings of a resolved exact-output swap.
pub swap_exact_out_amounts_lem :
    (out reserve_in reserve_out fee_bps : ℕ) {eff gross : ℕ}
    → swap_exact_out_amounts out reserve_in reserve_out fee_bps ≡ ok (some (eff, gross))
    → (out < reserve_out)
      × (0 < reserve_in)
      × (fee_bps < fee_bps_denominator)
      × (mul_div_ceil reserve_in out (reserve_out - out) ≡ ok eff)
      × (mul_div_ceil eff fee_bps_denominator (fee_bps_denominator - fee_bps) ≡ ok gross)
unfolding swap_exact_out_amounts
swap_exact_out_amounts_lem out reserve_in reserve_out fee_bps e = ground arith

-- A ceiling is below every number that reaches the product.
mul_div_ceil_least : (a b c k : ℕ) {q : ℕ} → mul_div_ceil a b c ≡ ok q → a * b ≤ k * c → q ≤ k
mul_div_ceil_least a b c k {q} e reach =
    let (pos, _, above, _) = mul_div_ceil_bounds a b c e in
    let below : q < k + 1 = lt_of_mul-lt-mul_right c {m = q} {n = k + 1} (omega arith) in
    omega arith

-- An effective input buys `out` exactly when it reaches the product that the ceiling divides.
buys_iff :
    (out eff reserve_in rest : ℕ)
    → 0 < reserve_in
    → (out ≤ amount_out eff reserve_in (out + rest)) ↔ (reserve_in * out ≤ eff * rest)
buys_iff out eff reserve_in rest pos =
    let half : (out ≤ amount_out eff reserve_in (out + rest))
        ↔ (out * (reserve_in + eff) ≤ (out + rest) * eff) =
      le-div_iff_mul-le {k = reserve_in + eff} {x = out} {y = (out + rest) * eff} (omega arith) in
    (λ h. omega (arith, half.0 h), λ h. half.1 (omega arith))

-- A gross input leaves `eff` after the fee exactly when it reaches the product that the second
-- ceiling divides.
leaves_iff :
    (eff gross fee_bps : ℕ)
    → (eff ≤ effective_in gross fee_bps)
      ↔ (eff * fee_bps_denominator ≤ gross * (fee_bps_denominator - fee_bps))
leaves_iff eff gross fee_bps =
    le-div_iff_mul-le {k = fee_bps_denominator} {x = eff}
      {y = gross * (fee_bps_denominator - fee_bps)} (omega arith)

-- The two inputs that an exact-output swap asks for are sufficient and least: the effective one
-- is the least that buys the output, and the gross one is the least that leaves so much after
-- the fee.
pub swap_exact_out_amounts_least :
    (out reserve_in reserve_out fee_bps : ℕ) {eff gross : ℕ}
    → swap_exact_out_amounts out reserve_in reserve_out fee_bps ≡ ok (some (eff, gross))
    → (out ≤ amount_out eff reserve_in reserve_out)
      × (eff ≤ effective_in gross fee_bps)
      × ((e : ℕ) → out ≤ amount_out e reserve_in reserve_out → eff ≤ e)
      × ((g : ℕ) → eff ≤ effective_in g fee_bps → gross ≤ g)
swap_exact_out_amounts_least out reserve_in reserve_out fee_bps {eff} {gross} e =
    let (lt, pos, fee, first, second) =
      swap_exact_out_amounts_lem out reserve_in reserve_out fee_bps e in
    let rest : ℕ = reserve_out - out in
    let sum : out + rest ≡ reserve_out = omega arith in
    let multiplier : ℕ = fee_bps_denominator - fee_bps in
    let (_, reach, _, _) = mul_div_ceil_bounds reserve_in out rest first in
    let (_, lift, _, _) = mul_div_ceil_bounds eff fee_bps_denominator multiplier second in
    (
      subst (λ (t : ℕ). out ≤ amount_out eff reserve_in t) sum
          ((buys_iff out eff reserve_in rest pos).1 reach),
      (leaves_iff eff gross fee_bps).1 lift,
      λ e' h. mul_div_ceil_least reserve_in out rest e' first (
          (buys_iff out e' reserve_in rest pos).0
            (subst (λ (t : ℕ). out ≤ amount_out e' reserve_in t) (sym sum) h)),
      λ g h.
          mul_div_ceil_least eff fee_bps_denominator multiplier g second
            ((leaves_iff eff g fee_bps).0 h),
    )

-- Paying what an exact-output swap asks for into an exact-input swap gives at least that output,
-- as long as the input side of the pool does not overflow.
pub swap_exact_in-swap_exact_out :
    (out reserve_in reserve_out fee_bps : ℕ) {eff gross : ℕ}
    → IsU128 reserve_out
    → swap_exact_out_amounts out reserve_in reserve_out fee_bps ≡ ok (some (eff, gross))
    → reserve_in + gross < 2 ^ 128
    → (paid : ℕ × ℕ) × (swap_exact_in_amounts gross reserve_in reserve_out fee_bps ≡ ok paid)
      × (eff ≤ paid.0)
      × (out ≤ paid.1)
swap_exact_in-swap_exact_out out reserve_in reserve_out fee_bps {eff} {gross} ho e fits =
    let (lt, pos, fee, first, second) =
      swap_exact_out_amounts_lem out reserve_in reserve_out fee_bps e in
    let (buys, leaves, _, _) = swap_exact_out_amounts_least out reserve_in reserve_out fee_bps e in
    let rest : ℕ = reserve_out - out in
    let sum : out + rest ≡ reserve_out = omega arith in
    let left : ℕ = effective_in gross fee_bps in
    let (_, reach, _, _) = mul_div_ceil_bounds reserve_in out rest first in
    let more : eff * rest ≤ left * rest = mul-le-mul_right rest leaves in
    (
      (left, amount_out left reserve_in reserve_out),
      swap_exact_in_amounts_total gross reserve_in reserve_out fee_bps (omega arith) ho
          (omega (arith, effective_in-le gross fee_bps)) pos,
      leaves,
      subst (λ (t : ℕ). out ≤ amount_out left reserve_in t) sum
          ((buys_iff out left reserve_in rest pos).1 (omega arith)),
    )
