-- ===== src/Amm/Liquidity/Growth.antt =====
-- How much a share of a pool of programs/amm is worth: the product of the reserves over the
-- square of the supply.
use native.Mathlib.Nat.{mul-le-mul, mul-le-mul_right, le_of_mul-le-mul_right}
use lez_programs.Shared.{ℕ, ◌*◌, ◌<◌, ◌≤◌, ◌≡◌, arith, some}
use lez_programs.Amm.Core.{PoolDefinition, minimum_liquidity}
use lez_programs.Amm.Liquidity.Shares.{KeepsShares}

-- The product of the reserves, and the square of the supply.
abbrev pub product : PoolDefinition → ℕ
product p = p.reserve_a * p.reserve_b

abbrev pub square : PoolDefinition → ℕ
square p = p.liquidity_pool_supply * p.liquidity_pool_supply

-- The supply does not fall below the minimum, and the product of the reserves over the square of
-- the supply does not fall below that of `p`.
pub record Grows (p q : PoolDefinition) : Type 0 where
  pub above : minimum_liquidity ≤ q.liquidity_pool_supply
  pub value : product p * square q ≤ product q * square p

pub same_some : {p q : PoolDefinition} → some p ≡ some q → p ≡ q
same_some e = cc

pub KeepsShares-value :
    (p q : PoolDefinition) → KeepsShares p q → product p * square q ≤ product q * square p
KeepsShares-value p q k = omega (
  arith,
  mul-le-mul {n₁ = p.reserve_a * q.liquidity_pool_supply}
      {m₁ = p.reserve_b * q.liquidity_pool_supply} {n₂ = q.reserve_a * p.liquidity_pool_supply}
      {m₂ = q.reserve_b * p.liquidity_pool_supply} k.share_a k.share_b,
)

value_trans : (k k₁ k₂ s s₁ s₂ : ℕ) → 0 < s₁ → k * s₁ ≤ k₁ * s → k₁ * s₂ ≤ k₂ * s₁ → k * s₂ ≤ k₂ * s
value_trans k k₁ k₂ s s₁ s₂ pos h₁ h₂ =
    let first : k * s₁ * s₂ ≤ k₁ * s * s₂ = mul-le-mul_right s₂ h₁ in
    let second : k₁ * s₂ * s ≤ k₂ * s₁ * s = mul-le-mul_right s h₂ in
    le_of_mul-le-mul_right {m = k * s₂} {n = k₂ * s} {k = s₁} (omega arith) pos

pub Grows-trans : {p q r : PoolDefinition} → Grows p q → Grows q r → Grows p r
Grows-trans {p} {q} {r} x y =
    let pos : 0 < square q = omega (
      arith,
      x.above,
      mul-le-mul {n₁ = minimum_liquidity} {m₁ = minimum_liquidity} {n₂ = q.liquidity_pool_supply}
          {m₂ = q.liquidity_pool_supply} x.above x.above,
    ) in
    record {
      above = y.above;
      value =
          value_trans (product p) (product q) (product r) (square p) (square q) (square r) pos
            x.value y.value;
    }
