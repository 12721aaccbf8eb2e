-- ===== src/Amm/Liquidity/Shares.antt =====
-- What a share of a pool is worth across the deposits of programs/amm/src/add.rs.
use native.Mathlib.Nat.{mul-le-mul_right, le_trans}
use lez_programs.Shared.{
  true, ℕ, ◌+◌, ◌*◌, ◌<◌, ◌≤◌, ◌≡◌, sym, arith, ok, bind-eq-ok, guard-eq-ok, ok-triple, leb→le, leb,
  ltb, min, ◌==◌, not, if◌then◌else◌,
}
use lez_programs.Amm.Core.{PoolDefinition}
use lez_programs.Amm.Math.{mul_div_floor}
use lez_programs.Amm.Math.Rounding.{mul_div_floor_bounds}
use lez_programs.Amm.Liquidity.Add.{add_amounts, grow_pool}

-- No share of `p` is worth less in `q`, in either token.
pub record KeepsShares (p q : PoolDefinition) : Type 0 where
  pub share_a : p.reserve_a * q.liquidity_pool_supply ≤ q.reserve_a * p.liquidity_pool_supply
  pub share_b : p.reserve_b * q.liquidity_pool_supply ≤ q.reserve_b * p.liquidity_pool_supply

not_zero : (n : ℕ) → not (n == 0) ≡ true → 0 < n
not_zero n e = ground arith

-- What a priced deposit satisfies.
pub record Priced (p : PoolDefinition) (max_a max_b least a b lp : ℕ) : Type 0 where
  pub within_a : a ≤ max_a
  pub within_b : b ≤ max_b
  pub a_positive : 0 < a
  pub b_positive : 0 < b
  pub lp_positive : 0 < lp
  pub enough : least ≤ lp
  pub fair_a : lp * p.reserve_a ≤ p.liquidity_pool_supply * a
  pub fair_b : lp * p.reserve_b ≤ p.liquidity_pool_supply * b

min_left : (x y : ℕ) → min x y ≤ x
min_left x y = omega arith

min_right : (x y : ℕ) → min x y ≤ y
min_right x y = omega arith

priced :
    (p : PoolDefinition) (max_a max_b least a b for_a for_b : ℕ)
    → leb a max_a ≡ true
    → leb b max_b ≡ true
    → not (a == 0) ≡ true
    → not (b == 0) ≡ true
    → mul_div_floor p.liquidity_pool_supply a p.reserve_a ≡ ok for_a
    → mul_div_floor p.liquidity_pool_supply b p.reserve_b ≡ ok for_b
    → not (min for_a for_b == 0) ≡ true
    → leb least (min for_a for_b) ≡ true
    → Priced p max_a max_b least a b (min for_a for_b)
priced p max_a max_b least a b for_a for_b ha hb na nb ea eb nl hl =
    let (fair, _) = mul_div_floor_bounds p.liquidity_pool_supply a p.reserve_a ea in
    let (fair', _) = mul_div_floor_bounds p.liquidity_pool_supply b p.reserve_b eb in
    record {
      within_a = leb→le a max_a ha;
      within_b = leb→le b max_b hb;
      a_positive = not_zero a na;
      b_positive = not_zero b nb;
      lp_positive = not_zero (min for_a for_b) nl;
      enough = leb→le least (min for_a for_b) hl;
      fair_a = le_trans (mul-le-mul_right p.reserve_a (min_left for_a for_b)) fair;
      fair_b = le_trans (mul-le-mul_right p.reserve_b (min_right for_a for_b)) fair';
    }

same-Priced :
    (p : PoolDefinition) (max_a max_b least : ℕ) {a b lp a' b' lp' : ℕ}
    → (a ≡ a') × (b ≡ b') × (lp ≡ lp')
    → Priced p max_a max_b least a b lp
    → Priced p max_a max_b least a' b' lp'
same-Priced p max_a max_b least (ea, eb, el) x = rw (sym ea, sym eb, sym el) x

pub add_amounts-Priced :
    (p : PoolDefinition) (max_a max_b least : ℕ) {a b lp : ℕ}
    → add_amounts p max_a max_b least ≡ ok (a, b, lp)
    → Priced p max_a max_b least a b lp
unfolding add_amounts
add_amounts-Priced p max_a max_b least {a} {b} {lp} e =
    let (_, e₁) = guard-eq-ok (not (p.reserve_a == 0)) _ _ e in
    let (_, e₂) = guard-eq-ok (not (p.reserve_b == 0)) _ _ e₁ in
    let (ideal_a, _, e₃) = bind-eq-ok (mul_div_floor p.reserve_a max_b p.reserve_b) _ e₂ in
    let (ideal_b, _, e₄) = bind-eq-ok (mul_div_floor p.reserve_b max_a p.reserve_a) _ e₃ in
    let a' : ℕ = if ltb max_a ideal_a then max_a else ideal_a in
    let b' : ℕ = if ltb max_b ideal_b then max_b else ideal_b in
    let (le_a, e₅) = guard-eq-ok (leb a' max_a) _ _ e₄ in
    let (le_b, e₆) = guard-eq-ok (leb b' max_b) _ _ e₅ in
    let (pos_a, e₇) = guard-eq-ok (not (a' == 0)) _ _ e₆ in
    let (pos_b, e₈) = guard-eq-ok (not (b' == 0)) _ _ e₇ in
    let (for_a, ea, e₉) = bind-eq-ok (mul_div_floor p.liquidity_pool_supply a' p.reserve_a) _ e₈ in
    let (for_b, eb, f₁) = bind-eq-ok (mul_div_floor p.liquidity_pool_supply b' p.reserve_b) _ e₉ in
    let (pos_lp, f₂) = guard-eq-ok (not (min for_a for_b == 0)) _ _ f₁ in
    let (le_lp, f₃) = guard-eq-ok (leb least (min for_a for_b)) _ _ f₂ in
    same-Priced p max_a max_b least (ok-triple f₃)
      (priced p max_a max_b least a' b' for_a for_b le_a le_b pos_a pos_b ea eb pos_lp le_lp)

-- The pool after a deposit.
pub grow_pool_lem :
    (p : PoolDefinition) (a b lp : ℕ) {q : PoolDefinition}
    → grow_pool p a b lp ≡ ok q
    → q ≡ record p {
      liquidity_pool_supply = p.liquidity_pool_supply + lp;
      reserve_a = p.reserve_a + a;
      reserve_b = p.reserve_b + b;
    }
unfolding grow_pool
grow_pool_lem p a b lp {q} e = ground arith

-- A deposit lets no share of the pool be worth less.
pub grow_pool-KeepsShares :
    (p : PoolDefinition) (max_a max_b least a b lp : ℕ) {q : PoolDefinition}
    → Priced p max_a max_b least a b lp
    → grow_pool p a b lp ≡ ok q
    → KeepsShares p q
grow_pool-KeepsShares p max_a max_b least a b lp x e =
    rw (grow_pool_lem p a b lp e)
      (record { share_a = omega (arith, x.fair_a); share_b = omega (arith, x.fair_b) })
