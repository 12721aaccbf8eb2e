-- ===== src/Amm/Liquidity/Pools.antt =====
-- A pool over its whole life: every handler of programs/amm/src that writes pool data.
use native.Mathlib.Nat.{mul-le-mul, mul-le-mul_right, le_of_mul-le-mul_right}
use mathlib.Core.Path.{subst}
use lez_programs.Shared.{
  ℕ, ◌*◌, ◌<◌, ◌≤◌, ◌≡◌, arith, ok, some, none, refl, Option, Bool, List, ◌∷◌, sym, ap, ◌∙◌,
}
use lez_programs.Host.{AccountId, AccountStateDiff, RoundTrips, post_data}
use lez_programs.Amm.Core.{
  AmmHost, PoolDefinition, AmmConfig, ChainedCall, minimum_liquidity, fee_bps_denominator,
}
use lez_programs.Amm.Swap.Handlers.{SwapAccounts, check_swap, swap_exact_input, swap_exact_output}
use lez_programs.Amm.Swap.Invariant.{
  HasOwnVaults, Swapped, swap_exact_input-Swapped, swap_exact_output-Swapped,
}
use lez_programs.Amm.Liquidity.{LiquidityAccounts}
use lez_programs.Amm.Liquidity.Add.{check_add, add_liquidity}
use lez_programs.Amm.Liquidity.Remove.{check_remove, remove_liquidity}
use lez_programs.Amm.Liquidity.Sync.{SyncAccounts, check_sync, sync_reserves}
use lez_programs.Amm.Liquidity.Create.{NewPoolAccounts, check_new_pool, new_definition, opened_pool}
use lez_programs.Amm.Liquidity.Calls.{HasSeparateVaults}
use lez_programs.Amm.Liquidity.Deposits.{Added, add_liquidity-Added}
use lez_programs.Amm.Liquidity.Withdrawals.{Removed, remove_liquidity-Removed}
use lez_programs.Amm.Liquidity.Synced.{Synced, sync_reserves-Synced}
use lez_programs.Amm.Liquidity.Opening.{
  IsFloorSquareRoot, HasFreshVaults, Opened, new_definition-Opened,
}
use lez_programs.Amm.Liquidity.Growth.{
  product, square, Grows, KeepsShares-value, Grows-trans, same_some,
}

module _ {Data : Type 0} (h : AmmHost Data) where
  -- The pool that a handler's diffs store: the pool is the second account of each.
  abbrev pub stored_pool : List (AccountStateDiff Data) → Option PoolDefinition
  stored_pool (_ ∷ d ∷ _) = h.pools.try_from (post_data d)
  stored_pool _ = none

  -- One successful handler from pool state `p` to `q`. The vaults of a call are accounts of their
  -- own, and the configured protocol fee is at most the whole swap fee.
  pub data Step (p q : PoolDefinition) : Type 0 where
    swapped_input :
        (a : SwapAccounts Data) (amount_in min_out : ℕ) (program : AccountId) (c : AmmConfig)
        (a_in : Bool) (diffs : List (AccountStateDiff Data)) (calls : List ChainedCall)
        → HasOwnVaults h a
        → c.protocol_fee_bps ≤ fee_bps_denominator
        → check_swap h a program ≡ ok (p, c, a_in)
        → swap_exact_input h a amount_in min_out program ≡ ok (diffs, calls)
        → stored_pool diffs ≡ some q
        → Step p q
    swapped_output :
        (a : SwapAccounts Data) (amount_out max_in : ℕ) (program : AccountId) (c : AmmConfig)
        (a_in : Bool) (diffs : List (AccountStateDiff Data)) (calls : List ChainedCall)
        → HasOwnVaults h a
        → c.protocol_fee_bps ≤ fee_bps_denominator
        → check_swap h a program ≡ ok (p, c, a_in)
        → swap_exact_output h a amount_out max_in program ≡ ok (diffs, calls)
        → stored_pool diffs ≡ some q
        → Step p q
    added :
        (a : LiquidityAccounts Data) (least max_a max_b : ℕ) (program : AccountId) (c : AmmConfig)
        (diffs : List (AccountStateDiff Data)) (calls : List ChainedCall)
        → HasSeparateVaults h a
        → check_add h a max_a max_b program ≡ ok (p, c)
        → add_liquidity h a least max_a max_b program ≡ ok (diffs, calls)
        → stored_pool diffs ≡ some q
        → Step p q
    removed :
        (a : LiquidityAccounts Data) (amount min_a min_b : ℕ) (program : AccountId) (c : AmmConfig)
        (diffs : List (AccountStateDiff Data)) (calls : List ChainedCall)
        → HasSeparateVaults h a
        → check_remove h a min_a min_b program ≡ ok (p, c)
        → remove_liquidity h a amount min_a min_b program ≡ ok (diffs, calls)
        → stored_pool diffs ≡ some q
        → Step p q
    synced :
        (a : SyncAccounts Data) (program : AccountId) (c : AmmConfig) (va vb : ℕ)
        (diffs : List (AccountStateDiff Data)) (calls : List ChainedCall)
        → check_sync h a program ≡ ok (p, c, va, vb)
        → sync_reserves h a program ≡ ok (diffs, calls)
        → stored_pool diffs ≡ some q
        → Step p q

  -- A pool created in state `p` that has come to state `q`.
  pub data Life (p : PoolDefinition) : PoolDefinition → Type 0 where
    opened :
        (a : NewPoolAccounts Data) (amount_a amount_b : ℕ) (program token_a token_b : AccountId)
        (c : AmmConfig) (diffs : List (AccountStateDiff Data)) (calls : List ChainedCall)
        → HasFreshVaults a
        → check_new_pool h a program ≡ ok (token_a, token_b, c)
        → new_definition h a amount_a amount_b program ≡ ok (diffs, calls)
        → stored_pool diffs ≡ some p
        → Life p p
    continued : {q r : PoolDefinition} → Life p q → Step q r → Life p r

  same_pool :
      {diffs ds : List (AccountStateDiff Data)} {p q : PoolDefinition}
      → RoundTrips h.pools
      → diffs ≡ ds
      → stored_pool ds ≡ h.pools.try_from (h.pools.into p)
      → stored_pool diffs ≡ some q
      → p ≡ q
  same_pool {diffs} {ds} {p} {q} codec e d s =
      same_some (sym (codec p) ∙ sym d ∙ sym (ap stored_pool e) ∙ s)

  swap-Grows :
      {a : SwapAccounts Data} {p q : PoolDefinition} {diffs : List (AccountStateDiff Data)}
      {calls : List ChainedCall}
      → RoundTrips h.pools
      → minimum_liquidity ≤ p.liquidity_pool_supply
      → Swapped h a p diffs calls
      → stored_pool diffs ≡ some q
      → Grows p q
  swap-Grows {a} {p} {q} codec above x s =
      let after : PoolDefinition = record p {
        reserve_a = x.reserve_a';
        reserve_b = x.reserve_b';
      } in
      let grows : Grows p after = record {
        above = above;
        value = mul-le-mul_right (square p) x.product_kept;
      } in
      subst (Grows p) (same_pool {p = after} codec x.written refl s) grows

  Step-Grows :
      {p q : PoolDefinition}
      → RoundTrips h.pools
      → minimum_liquidity ≤ p.liquidity_pool_supply
      → Step p q
      → Grows p q
  Step-Grows {p} {q} codec above
        (swapped_input a amount_in min_out program c a_in diffs calls own fee checked e s) =
      swap-Grows codec above
        (swap_exact_input-Swapped h a amount_in min_out program p c a_in own checked fee e) s
  Step-Grows {p} {q} codec above
        (swapped_output a amount_out max_in program c a_in diffs calls own fee checked e s) =
      swap-Grows codec above
        (swap_exact_output-Swapped h a amount_out max_in program p c a_in own checked fee e) s
  Step-Grows {p} {q} codec above (added a least max_a max_b program c diffs calls own checked e s) =
      let x : Added h a p max_a max_b least diffs calls =
        add_liquidity-Added h a least max_a max_b program p c own checked e in
      let grows : Grows p x.after = record {
        above = rw x.new_state (omega arith);
        value = KeepsShares-value p x.after x.keeps;
      } in
      subst (Grows p) (same_pool codec x.written refl s) grows
  Step-Grows {p} {q} codec above
        (removed a amount min_a min_b program c diffs calls own checked e s) =
      let x : Removed h a p amount min_a min_b diffs calls =
        remove_liquidity-Removed h a amount min_a min_b program p c own checked e in
      let unlocked = x.withdrawn.unlocked in
      let grows : Grows p x.after = record {
        above = rw x.new_state (omega (arith, unlocked));
        value = KeepsShares-value p x.after x.keeps;
      } in
      subst (Grows p) (same_pool codec x.written refl s) grows
  Step-Grows {p} {q} codec above (synced a program c va vb diffs calls checked e s) =
      let x : Synced h a p diffs calls = sync_reserves-Synced h a program p c va vb checked e in
      let after : PoolDefinition = record p {
        reserve_a = x.vault_a_balance;
        reserve_b = x.vault_b_balance;
      } in
      let kept : product p ≤ product after =
        mul-le-mul {n₁ = p.reserve_a} {m₁ = p.reserve_b} {n₂ = x.vault_a_balance}
          {m₂ = x.vault_b_balance} x.more_a x.more_b in
      let grows : Grows p after = record {
        above = above;
        value = mul-le-mul_right (square p) kept;
      } in
      subst (Grows p) (same_pool {p = after} codec x.written refl s) grows

  -- A pool that was worth at least the square of its supply still is.
  Grows-backed :
      (p q : PoolDefinition)
      → 0 < square p
      → square p ≤ product p
      → Grows p q
      → square q ≤ product q
  Grows-backed p q pos start x =
      let more : square p * square q ≤ product p * square q = mul-le-mul_right (square q) start in
      le_of_mul-le-mul_right {m = square q} {n = product q} {k = square p}
        (omega (arith, x.value, more)) pos

  Opened-Grows :
      {a : NewPoolAccounts Data} {token_a token_b amount_a amount_b : ℕ} {p : PoolDefinition}
      {diffs : List (AccountStateDiff Data)} {calls : List ChainedCall}
      → RoundTrips h.pools
      → Opened h a token_a token_b amount_a amount_b diffs calls
      → stored_pool diffs ≡ some p
      → Grows p p × (square p ≤ product p)
  unfolding opened_pool
  Opened-Grows {a} {token_a} {token_b} {amount_a} {amount_b} {p} codec x s =
      let after : PoolDefinition = opened_pool h a token_a token_b x.initial_lp amount_a amount_b in
      let many : minimum_liquidity ≤ x.initial_lp = omega (arith, x.locked) in
      let begins : Grows after after × (square after ≤ product after) =
        (record { above = many; value = omega arith }, x.floor_root) in
      subst (λ t. Grows t t × (square t ≤ product t)) (same_pool {p = after} codec x.written refl s)
        begins

  life :
      {p q : PoolDefinition}
      → RoundTrips h.pools
      → IsFloorSquareRoot h.square_root
      → Life p q
      → Grows p q × Grows p p × (square p ≤ product p)
  life {p} codec root
        (opened a amount_a amount_b program token_a token_b c diffs calls own checked e s) =
      let (x, y) =
        Opened-Grows codec
          (new_definition-Opened h a amount_a amount_b program token_a token_b c root own checked e)
          s in
      (x, x, y)
  life codec root (continued before step) =
      let (x, y, z) = life codec root before in
      (Grows-trans x (Step-Grows codec x.above step), y, z)

  -- From the creation of a pool on, whatever swaps in both modes, deposits, withdrawals and
  -- synchronisations follow, each with vaults of their own and a protocol fee of at most the whole
  -- swap fee, the supply stays at or above the locked minimum, the product of the reserves over
  -- the square of the supply never falls below that of the creation, and the square of the supply
  -- stays within that product. The library's root is the floor of the square root, and the codec
  -- of pools round-trips.
  pub Life-Grows :
      {p q : PoolDefinition}
      → RoundTrips h.pools
      → IsFloorSquareRoot h.square_root
      → Life p q
      → Grows p q × (square q ≤ product q)
  Life-Grows {p} {q} codec root l =
      let (x, y, z) = life codec root l in
      let pos : 0 < square p = omega (
        arith,
        mul-le-mul {n₁ = minimum_liquidity} {m₁ = minimum_liquidity} {n₂ = p.liquidity_pool_supply}
            {m₂ = p.liquidity_pool_supply} y.above y.above,
      ) in
      (x, Grows-backed p q pos z x)
