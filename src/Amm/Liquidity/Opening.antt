-- ===== src/Amm/Liquidity/Opening.antt =====
-- What creating a pool by programs/amm/src/new_definition.rs leaves.
use native.Mathlib.Nat.{mul-le-mul, lt_of_not-le}
use lez_programs.Shared.{
  ℕ, ◌+◌, ◌*◌, ◌<◌, ◌≤◌, ◌≡◌, ◌≢◌, ◌^◌, arith, ok, IsU128, bind-eq-ok, ok-eq-ok, List, ◌∷◌, [], sym,
  ap, mul-IsU256, eq→==, ◌∙◌, refl,
}
use lez_programs.Host.{AccountId, AccountStateDiff}
use lez_programs.Amm.Core.{
  AmmHost, AmmConfig, ChainedCall, OracleInstruction, Panic, minimum_liquidity,
}
use lez_programs.Amm.Math.{spot_price_q64_64}
use lez_programs.Amm.Pda.{compute_pool_pda_seed}
use lez_programs.Amm.Liquidity.Create.{
  NewPoolAccounts, isqrt_product, initial_liquidity, check_new_pool, opened_pool, new_pool_diffs,
  new_pool_calls, new_definition,
}
use lez_programs.Amm.Liquidity.{mints}
use lez_programs.Amm.Liquidity.Calls.{Moves, IsSilent, oracle_call-IsSilent}

-- What `U256::root(2)` documents: the largest number whose square is within the argument.
abbrev pub IsFloorSquareRoot : (ℕ → ℕ) → Type 0
IsFloorSquareRoot root = (n : ℕ) → (root n * root n ≤ n) × (n < (root n + 1) * (root n + 1))

square-lt : (r k : ℕ) → r * r < k * k → r < k
square-lt r k h =
    lt_of_not-le λ ge. omega (arith, mul-le-mul {n₁ = k} {m₁ = k} {n₂ = r} {m₂ = r} ge ge)

-- The vaults of a new pool are neither each other nor a holding of its creator.
pub record HasFreshVaults {Data : Type 0} (a : NewPoolAccounts Data) : Type 0 where
  pub vaults : a.vault_a.account_id ≢ a.vault_b.account_id
  pub a_a : a.vault_a.account_id ≢ a.user_holding_a.account_id
  pub a_b : a.vault_a.account_id ≢ a.user_holding_b.account_id
  pub b_a : a.vault_b.account_id ≢ a.user_holding_a.account_id
  pub b_b : a.vault_b.account_id ≢ a.user_holding_b.account_id

module _ {Data : Type 0} (h : AmmHost Data) where
  -- The root of the product of two words is a word, so it never panics.
  pub isqrt_product_total :
      (a b : ℕ)
      → IsFloorSquareRoot h.square_root
      → IsU128 a
      → IsU128 b
      → isqrt_product h a b ≡ ok (h.square_root (a * b))
  unfolding isqrt_product
  isqrt_product_total a b root ha hb =
      let wide = mul-IsU256 a b ha hb in
      let (below, _) = root (a * b) in
      let small : h.square_root (a * b) < 2 ^ 128 =
        square-lt (h.square_root (a * b)) (2 ^ 128) (omega arith) in
      ground arith

  isqrt_product_lem : (a b : ℕ) {s : ℕ} → isqrt_product h a b ≡ ok s → s ≡ h.square_root (a * b)
  unfolding isqrt_product
  isqrt_product_lem a b e = ground arith

  initial_liquidity_lem :
      (a b s u : ℕ)
      → initial_liquidity h a b ≡ ok (s, u)
      → (s ≡ h.square_root (a * b)) × (minimum_liquidity < s) × (s ≡ minimum_liquidity + u)
  unfolding initial_liquidity
  initial_liquidity_lem a b s u e =
      let (r, er, e₁) = bind-eq-ok (isqrt_product h a b) _ e in
      let eq = isqrt_product_lem a b er in ground arith

  -- What the creation of a pool leaves.
  pub record Opened (acc : NewPoolAccounts Data) (token_a token_b a b : ℕ)
      (diffs : List (AccountStateDiff Data)) (calls : List ChainedCall) : Type 0 where
    pub initial_lp : ℕ
    pub user_lp : ℕ
    pub written : diffs ≡ new_pool_diffs h acc (opened_pool h acc token_a token_b initial_lp a b)
    pub floor_root : initial_lp * initial_lp ≤ a * b
    pub next_root : a * b < (initial_lp + 1) * (initial_lp + 1)
    pub user_positive : 0 < user_lp
    pub locked : initial_lp ≡ minimum_liquidity + user_lp
    pub moves :
        Moves calls acc.vault_a.account_id acc.vault_b.account_id acc.pool_definition_lp.account_id
          a 0 b 0 initial_lp 0
    pub mints_are :
        mints calls acc.pool_definition_lp.account_id
        ≡ (acc.lp_lock_holding.account_id, minimum_liquidity)
          ∷ (acc.user_holding_lp.account_id, user_lp)
          ∷ []

  new_pool_calls-mints :
      (acc : NewPoolAccounts Data) (program token_a token_b u a b : ℕ) (tick : ChainedCall)
      → mints (tick ∷ []) acc.pool_definition_lp.account_id ≡ []
      → mints
          (new_pool_calls h acc program token_a token_b u a b tick)
          acc.pool_definition_lp.account_id
        ≡ (acc.lp_lock_holding.account_id, minimum_liquidity)
          ∷ (acc.user_holding_lp.account_id, u)
          ∷ []
  unfolding new_pool_calls
  new_pool_calls-mints acc program token_a token_b u a b tick none_of_tick =
      rw
        (
          eq→== acc.pool_definition_lp.account_id acc.pool_definition_lp.account_id refl,
          none_of_tick,
        )
        refl

  new_pool_calls-Moves :
      (acc : NewPoolAccounts Data) (program token_a token_b s u a b : ℕ) (tick : ChainedCall)
      → HasFreshVaults acc
      → IsSilent (tick ∷ [])
      → s ≡ minimum_liquidity + u
      → Moves
          (new_pool_calls h acc program token_a token_b u a b tick)
          acc.vault_a.account_id
          acc.vault_b.account_id
          acc.pool_definition_lp.account_id
          a
          0
          b
          0
          s
          0
  unfolding new_pool_calls
  new_pool_calls-Moves acc program token_a token_b s u a b tick own quiet sum =
      let v = own.vaults in
      let aa = own.a_a in
      let ab = own.a_b in
      let ba = own.b_a in
      let bb = own.b_b in
      let in_a = quiet.nothing_in acc.vault_a.account_id in
      let in_b = quiet.nothing_in acc.vault_b.account_id in
      let out_a = quiet.nothing_out acc.vault_a.account_id in
      let out_b = quiet.nothing_out acc.vault_b.account_id in
      let minted_lp = quiet.nothing_minted acc.pool_definition_lp.account_id in
      let burned_lp = quiet.nothing_burned acc.pool_definition_lp.account_id in
      record {
        a_in = ground arith;
        a_out = ground arith;
        b_in = ground arith;
        b_out = ground arith;
        lp_in = ground arith;
        lp_out = ground arith;
      }

  -- If the library's root is the floor of the square root and the vaults are neither each other
  -- nor a holding of the creator, then creating a pool that does not panic writes the pool of the
  -- two tokens with the deposits as reserves and the floor of the root of their product as
  -- supply; its calls move exactly the deposits into the vaults and mint exactly the supply, first
  -- the minimum to the holding that locks it, and then the rest, which is positive, to the
  -- liquidity holding of the creator.
  pub new_definition-Opened :
      (acc : NewPoolAccounts Data) (a b : ℕ) (amm_program_id token_a token_b : AccountId)
      (c : AmmConfig) {diffs : List (AccountStateDiff Data)} {calls : List ChainedCall}
      → IsFloorSquareRoot h.square_root
      → HasFreshVaults acc
      → check_new_pool h acc amm_program_id ≡ ok (token_a, token_b, c)
      → new_definition h acc a b amm_program_id ≡ ok (diffs, calls)
      → Opened acc token_a token_b a b diffs calls
  unfolding new_definition
  new_definition-Opened acc a b amm_program_id token_a token_b c {diffs} {calls} root own checked
        e =
      let e₀ : _ ≡ ok (diffs, calls) = rw checked at e in
      let ((s, u), el, e₁) = bind-eq-ok (initial_liquidity h a b) _ e₀ in
      let (price, _, e₂) = bind-eq-ok (spot_price_q64_64 a b) _ e₁ in
      let (seed, _, e₃) =
        bind-eq-ok (compute_pool_pda_seed h acc.config.account_id token_a token_b) _ e₂ in
      let (eq, more, sum) = initial_liquidity_lem a b s u el in
      let (below, above) = root (a * b) in
      let same = ok-eq-ok {P = Panic} {T = List (AccountStateDiff Data) × List ChainedCall} e₃ in
      record {
        initial_lp = s;
        user_lp = u;
        written = sym (ap (λ (t : List (AccountStateDiff Data) × List ChainedCall). t.0) same);
        floor_root = rw eq below;
        next_root = rw eq above;
        user_positive = omega arith;
        locked = sum;
        moves = rw (sym (ap (λ (t : List (AccountStateDiff Data) × List ChainedCall). t.1) same)) (
            new_pool_calls-Moves acc c.token_program_id token_a token_b s u a b _ own
              (oracle_call-IsSilent c.twap_oracle_program_id acc.current_tick_account.account_id
                acc.pool.account_id acc.clock.account_id
                (OracleInstruction.create_current_tick_account price) seed)
              sum);
        mints_are =
            ap
              (λ (t : List (AccountStateDiff Data) × List ChainedCall).
                mints t.1 acc.pool_definition_lp.account_id)
              (sym same)
            ∙ new_pool_calls-mints acc c.token_program_id token_a token_b u a b _ refl;
      }
