-- ===== src/Amm/Liquidity/Deposits.antt =====
-- What adding liquidity by programs/amm/src/add.rs does to the pool and to its vaults.
use lez_programs.Shared.{ℕ, ◌+◌, ◌≡◌, ok, bind-eq-ok, ok-eq-ok, List, sym, ap}
use lez_programs.Host.{AccountId, AccountStateDiff}
use lez_programs.Amm.Core.{AmmHost, PoolDefinition, AmmConfig, ChainedCall, Panic}
use lez_programs.Amm.Liquidity.{LiquidityAccounts, liquidity_diffs, update_tick_call}
use lez_programs.Amm.Liquidity.Add.{add_amounts, grow_pool, check_add, add_liquidity}
use lez_programs.Amm.Liquidity.Shares.{
  KeepsShares, Priced, add_amounts-Priced, grow_pool_lem, grow_pool-KeepsShares,
}
use lez_programs.Amm.Liquidity.Calls.{
  HasSeparateVaults, Moves, update_tick_call-IsSilent, add_calls-Moves,
}

module _ {Data : Type 0} (h : AmmHost Data) (a : LiquidityAccounts Data) where
  -- What a deposit into pool state `p` leaves.
  pub record Added (p : PoolDefinition) (max_a max_b least : ℕ)
      (diffs : List (AccountStateDiff Data)) (calls : List ChainedCall) : Type 0 where
    pub amount_a : ℕ
    pub amount_b : ℕ
    pub lp : ℕ
    pub after : PoolDefinition
    pub new_state : after ≡ record p {
      liquidity_pool_supply = p.liquidity_pool_supply + lp;
      reserve_a = p.reserve_a + amount_a;
      reserve_b = p.reserve_b + amount_b;
    }
    pub written : diffs ≡ liquidity_diffs h a after
    pub priced : Priced p max_a max_b least amount_a amount_b lp
    pub keeps : KeepsShares p after
    pub moves :
        Moves calls a.vault_a.account_id a.vault_b.account_id a.pool_definition_lp.account_id
          amount_a 0 amount_b 0 lp 0

  -- Adding liquidity that does not panic takes at most the two maxima, mints at least the
  -- minimum, and writes exactly the deposits and the minted tokens into the pool; its calls move
  -- exactly these amounts; and no share of the pool is worth less in either token. The vaults are
  -- neither each other nor a holding of the user.
  pub add_liquidity-Added :
      (least max_a max_b : ℕ) (amm_program_id : AccountId) (p : PoolDefinition) (c : AmmConfig)
      {diffs : List (AccountStateDiff Data)} {calls : List ChainedCall}
      → HasSeparateVaults h a
      → check_add h a max_a max_b amm_program_id ≡ ok (p, c)
      → add_liquidity h a least max_a max_b amm_program_id ≡ ok (diffs, calls)
      → Added p max_a max_b least diffs calls
  unfolding add_liquidity
  add_liquidity-Added least max_a max_b amm_program_id p c {diffs} {calls} own checked e =
      let e₀ : _ ≡ ok (diffs, calls) = rw checked at e in
      let ((x, y, lp), priced, e₁) = bind-eq-ok (add_amounts p max_a max_b least) _ e₀ in
      let (q, grown, e₂) = bind-eq-ok (grow_pool p x y lp) _ e₁ in
      let (tick, ticked, e₃) =
        bind-eq-ok
          (update_tick_call h c.twap_oracle_program_id a.config.account_id
            a.current_tick_account.account_id a.pool.account_id a.clock.account_id q)
          _ e₂ in
      let fair : Priced p max_a max_b least x y lp =
        add_amounts-Priced p max_a max_b least priced in
      let same = ok-eq-ok {P = Panic} {T = List (AccountStateDiff Data) × List ChainedCall} e₃ in
      record {
        amount_a = x;
        amount_b = y;
        lp = lp;
        after = q;
        new_state = grow_pool_lem p x y lp grown;
        written = sym (ap (λ (t : List (AccountStateDiff Data) × List ChainedCall). t.0) same);
        priced = fair;
        keeps = grow_pool-KeepsShares p max_a max_b least x y lp fair grown;
        moves = rw (sym (ap (λ (t : List (AccountStateDiff Data) × List ChainedCall). t.1) same)) (
            add_calls-Moves h a c.token_program_id x y lp tick own (
              update_tick_call-IsSilent h c.twap_oracle_program_id a.config.account_id
                a.current_tick_account.account_id a.pool.account_id a.clock.account_id q ticked));
      }
