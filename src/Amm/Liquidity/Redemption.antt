-- ===== src/Amm/Liquidity/Redemption.antt =====
-- What a share of a pool is worth across the withdrawals of programs/amm/src/remove.rs.

use mathlib.Core.Path.{subst}
use lez_programs.Shared.{
  true, ℕ, ◌+◌, ◌-◌, ◌*◌, ◌≤◌, ◌≡◌, sym, arith, ok, bind-eq-ok, guard-eq-ok, ok-pair, leb→le, leb,
  ltb, ◌==◌, ==→eq, checked_sub, expect,
}
use lez_programs.Host.{AccountId}
use lez_programs.Amm.Core.{PoolDefinition, minimum_liquidity, Panic}
use lez_programs.Amm.Math.{mul_div_floor}
use lez_programs.Amm.Math.Rounding.{mul_div_floor_bounds}
use lez_programs.Amm.Liquidity.Remove.{remove_amounts, shrink_pool}
use lez_programs.Amm.Liquidity.Shares.{KeepsShares}

-- What a priced withdrawal satisfies.
pub record Withdrawn (p : PoolDefinition) (balance amount min_a min_b a b : ℕ) : Type 0 where
  pub owned : amount ≤ balance
  pub in_supply : balance ≤ p.liquidity_pool_supply
  pub unlocked : amount + minimum_liquidity ≤ p.liquidity_pool_supply
  pub enough_a : min_a ≤ a
  pub enough_b : min_b ≤ b
  pub fair_a : a * p.liquidity_pool_supply ≤ p.reserve_a * amount
  pub fair_b : b * p.liquidity_pool_supply ≤ p.reserve_b * amount

withdrawn :
    (p : PoolDefinition) (balance amount min_a min_b rest a b : ℕ)
    → leb balance p.liquidity_pool_supply ≡ true
    → leb amount balance ≡ true
    → expect (checked_sub p.liquidity_pool_supply minimum_liquidity) Panic.supply_underflow
      ≡ ok rest
    → leb amount rest ≡ true
    → mul_div_floor p.reserve_a amount p.liquidity_pool_supply ≡ ok a
    → mul_div_floor p.reserve_b amount p.liquidity_pool_supply ≡ ok b
    → leb min_a a ≡ true
    → leb min_b b ≡ true
    → Withdrawn p balance amount min_a min_b a b
withdrawn p balance amount min_a min_b rest a b s o er u ea eb ma mb =
    let le : amount ≤ rest = leb→le amount rest u in
    let (fair, _) = mul_div_floor_bounds p.reserve_a amount p.liquidity_pool_supply ea in
    let (fair', _) = mul_div_floor_bounds p.reserve_b amount p.liquidity_pool_supply eb in
    record {
      owned = leb→le amount balance o;
      in_supply = leb→le balance p.liquidity_pool_supply s;
      unlocked = ground arith;
      enough_a = leb→le min_a a ma;
      enough_b = leb→le min_b b mb;
      fair_a = fair;
      fair_b = fair';
    }

same-Withdrawn :
    (p : PoolDefinition) (balance amount min_a min_b : ℕ) {a b a' b' : ℕ}
    → (a ≡ a') × (b ≡ b')
    → Withdrawn p balance amount min_a min_b a b
    → Withdrawn p balance amount min_a min_b a' b'
same-Withdrawn p balance amount min_a min_b (ea, eb) x = rw (sym ea, sym eb) x

pub remove_amounts-Withdrawn :
    (p : PoolDefinition) (balance amount min_a min_b : ℕ) (lp_token : AccountId) {a b : ℕ}
    → remove_amounts p balance amount min_a min_b lp_token ≡ ok (a, b)
    → Withdrawn p balance amount min_a min_b a b
unfolding remove_amounts
remove_amounts-Withdrawn p balance amount min_a min_b lp_token {a} {b} e =
    let (s, e₁) = guard-eq-ok (leb balance p.liquidity_pool_supply) _ _ e in
    let (_, e₂) = guard-eq-ok (lp_token == p.liquidity_pool_id) _ _ e₁ in
    let (_, e₃) = guard-eq-ok (ltb minimum_liquidity p.liquidity_pool_supply) _ _ e₂ in
    let (o, e₄) = guard-eq-ok (leb amount balance) _ _ e₃ in
    let (rest, er, e₅) =
      bind-eq-ok
        (expect (checked_sub p.liquidity_pool_supply minimum_liquidity) Panic.supply_underflow) _
        e₄ in
    let (u, e₆) = guard-eq-ok (leb amount rest) _ _ e₅ in
    let (wa, ea, e₇) = bind-eq-ok (mul_div_floor p.reserve_a amount p.liquidity_pool_supply) _ e₆ in
    let (wb, eb, e₈) = bind-eq-ok (mul_div_floor p.reserve_b amount p.liquidity_pool_supply) _ e₇ in
    let (ma, e₉) = guard-eq-ok (leb min_a wa) _ _ e₈ in
    let (mb, f) = guard-eq-ok (leb min_b wb) _ _ e₉ in
    same-Withdrawn p balance amount min_a min_b (ok-pair f)
      (withdrawn p balance amount min_a min_b rest wa wb s o er u ea eb ma mb)

-- The burned tokens are those of the pool.
pub remove_amounts_token :
    (p : PoolDefinition) (balance amount min_a min_b : ℕ) (lp_token : AccountId) {ab : ℕ × ℕ}
    → remove_amounts p balance amount min_a min_b lp_token ≡ ok ab
    → lp_token ≡ p.liquidity_pool_id
unfolding remove_amounts
remove_amounts_token p balance amount min_a min_b lp_token e =
    let (_, e₁) = guard-eq-ok (leb balance p.liquidity_pool_supply) _ _ e in
    let (same, _) = guard-eq-ok (lp_token == p.liquidity_pool_id) _ _ e₁ in
    ==→eq lp_token p.liquidity_pool_id same

-- The pool after a withdrawal.
pub shrink_pool_lem :
    (p : PoolDefinition) (a b lp : ℕ) {q : PoolDefinition}
    → shrink_pool p a b lp ≡ ok q
    → (lp ≤ p.liquidity_pool_supply)
      × (a ≤ p.reserve_a)
      × (b ≤ p.reserve_b)
      × (q ≡ record p {
        liquidity_pool_supply = p.liquidity_pool_supply - lp;
        reserve_a = p.reserve_a - a;
        reserve_b = p.reserve_b - b;
      })
unfolding shrink_pool
shrink_pool_lem p a b lp {q} e = ground arith

-- What the floor leaves: with `r` and `s` the parts that stay of `r + x` and `s + y`.
rest_share : (r x s y : ℕ) → x * (s + y) ≤ (r + x) * y → (r + x) * s ≤ r * (s + y)
rest_share r x s y h = omega arith

left_share :
    (reserve x supply y : ℕ)
    → x ≤ reserve
    → y ≤ supply
    → x * supply ≤ reserve * y
    → reserve * (supply - y) ≤ (reserve - x) * supply
left_share reserve x supply y hx hy h =
    let r : ℕ = reserve - x in
    let s : ℕ = supply - y in
    let er : r + x ≡ reserve = omega arith in
    let es : s + y ≡ supply = omega arith in
    subst (λ (t : ℕ). t * s ≤ r * supply) er
      (subst (λ (t : ℕ). (r + x) * s ≤ r * t) es
        (rest_share r x s y (
          subst (λ (t : ℕ). x * t ≤ (r + x) * y) (sym es)
            (subst (λ (t : ℕ). x * supply ≤ t * y) (sym er) h))))

-- A withdrawal lets no remaining share of the pool be worth less.
pub shrink_pool-KeepsShares :
    (p : PoolDefinition) (balance amount min_a min_b a b : ℕ) {q : PoolDefinition}
    → Withdrawn p balance amount min_a min_b a b
    → shrink_pool p a b amount ≡ ok q
    → KeepsShares p q
shrink_pool-KeepsShares p balance amount min_a min_b a b x e =
    let (le, le_a, le_b, eq) = shrink_pool_lem p a b amount e in
    rw eq (record {
      share_a = left_share p.reserve_a a p.liquidity_pool_supply amount le_a le x.fair_a;
      share_b = left_share p.reserve_b b p.liquidity_pool_supply amount le_b le x.fair_b;
    })
