-- ===== src/Amm/Liquidity/RoundTrip.antt =====
-- A deposit by programs/amm/src/add.rs that programs/amm/src/remove.rs takes out again.
use native.Mathlib.Nat.{le_of_mul-le-mul_right}
use lez_programs.Shared.{ℕ, ◌+◌, ◌*◌, ◌<◌, ◌≤◌, ◌≡◌, arith, ok}
use lez_programs.Host.{AccountId}
use lez_programs.Amm.Core.{PoolDefinition}
use lez_programs.Amm.Liquidity.Add.{add_amounts, grow_pool}
use lez_programs.Amm.Liquidity.Remove.{remove_amounts}
use lez_programs.Amm.Liquidity.Shares.{add_amounts-Priced, Priced, grow_pool_lem}
use lez_programs.Amm.Liquidity.Redemption.{remove_amounts-Withdrawn, Withdrawn}

-- A floor of the grown reserve that is within what was put in.
no_gain :
    (reserve supply deposit lp paid : ℕ)
    → 0 < lp
    → lp * reserve ≤ supply * deposit
    → paid * (supply + lp) ≤ (reserve + deposit) * lp
    → paid ≤ deposit
no_gain reserve supply deposit lp paid pos fair h =
    le_of_mul-le-mul_right {m = paid} {n = deposit} {k = supply + lp} (omega arith) (omega arith)

-- Adding liquidity and removing all of it at once never pays out more of either token than was
-- put in.
pub add_amounts-remove_amounts :
    (p q : PoolDefinition) (max_a max_b least a b lp balance min_a min_b : ℕ) (lp_token : AccountId)
    (a' b' : ℕ)
    → add_amounts p max_a max_b least ≡ ok (a, b, lp)
    → grow_pool p a b lp ≡ ok q
    → remove_amounts q balance lp min_a min_b lp_token ≡ ok (a', b')
    → (a' ≤ a) × (b' ≤ b)
add_amounts-remove_amounts p q max_a max_b least a b lp balance min_a min_b lp_token a' b' added
      grown removed =
    let x : Priced p max_a max_b least a b lp = add_amounts-Priced p max_a max_b least added in
    let after = grow_pool_lem p a b lp grown in
    let y : Withdrawn q balance lp min_a min_b a' b' =
      remove_amounts-Withdrawn q balance lp min_a min_b lp_token removed in
    let paid_a = rw after at y.fair_a in
    let paid_b = rw after at y.fair_b in
    (
      no_gain p.reserve_a p.liquidity_pool_supply a lp a' x.lp_positive x.fair_a paid_a,
      no_gain p.reserve_b p.liquidity_pool_supply b lp b' x.lp_positive x.fair_b paid_b,
    )
