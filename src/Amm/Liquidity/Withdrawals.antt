-- ===== src/Amm/Liquidity/Withdrawals.antt =====
-- What removing liquidity by programs/amm/src/remove.rs does to the pool and to its vaults.
use lez_programs.Shared.{ℕ, ◌-◌, ◌≡◌, ok, bind-eq-ok, ok-eq-ok, List, ◌∙◌, sym, ap}
use lez_programs.Host.{AccountId, AccountStateDiff}
use lez_programs.Amm.Core.{AmmHost, PoolDefinition, AmmConfig, ChainedCall, Panic}
use lez_programs.Amm.Accounts.{read_fungible_holding}
use lez_programs.Amm.Liquidity.{LiquidityAccounts, liquidity_diffs, update_tick_call}
use lez_programs.Amm.Liquidity.Remove.{remove_amounts, shrink_pool, check_remove, remove_liquidity}
use lez_programs.Amm.Liquidity.Shares.{KeepsShares}
use lez_programs.Amm.Liquidity.Redemption.{
  Withdrawn, remove_amounts-Withdrawn, remove_amounts_token, shrink_pool_lem,
  shrink_pool-KeepsShares,
}
use lez_programs.Amm.Liquidity.Calls.{
  HasSeparateVaults, Moves, update_tick_call-IsSilent, remove_calls-Moves,
}

module _ {Data : Type 0} (h : AmmHost Data) (a : LiquidityAccounts Data) where
  -- What a withdrawal from pool state `p` leaves.
  pub record Removed (p : PoolDefinition) (amount min_a min_b : ℕ)
      (diffs : List (AccountStateDiff Data)) (calls : List ChainedCall) : Type 0 where
    pub amount_a : ℕ
    pub amount_b : ℕ
    pub balance : ℕ
    pub holds : read_fungible_holding h a.user_holding_lp ≡ ok (p.liquidity_pool_id, balance)
    pub after : PoolDefinition
    pub new_state : after ≡ record p {
      liquidity_pool_supply = p.liquidity_pool_supply - amount;
      reserve_a = p.reserve_a - amount_a;
      reserve_b = p.reserve_b - amount_b;
    }
    pub written : diffs ≡ liquidity_diffs h a after
    pub withdrawn : Withdrawn p balance amount min_a min_b amount_a amount_b
    pub keeps : KeepsShares p after
    pub moves :
        Moves calls a.vault_a.account_id a.vault_b.account_id a.pool_definition_lp.account_id 0
          amount_a 0 amount_b 0 amount

  -- Removing liquidity that does not panic burns at most what the user's holding of the pool's
  -- token has and never the locked minimum, pays at least the two minima and at most the share of
  -- each reserve, and writes exactly these amounts into the pool; its calls move exactly these
  -- amounts; and no remaining share is worth less. The vaults are neither each other nor a
  -- holding of the user.
  pub remove_liquidity-Removed :
      (amount min_a min_b : ℕ) (amm_program_id : AccountId) (p : PoolDefinition) (c : AmmConfig)
      {diffs : List (AccountStateDiff Data)} {calls : List ChainedCall}
      → HasSeparateVaults h a
      → check_remove h a min_a min_b amm_program_id ≡ ok (p, c)
      → remove_liquidity h a amount min_a min_b amm_program_id ≡ ok (diffs, calls)
      → Removed p amount min_a min_b diffs calls
  unfolding remove_liquidity
  remove_liquidity-Removed amount min_a min_b amm_program_id p c {diffs} {calls} own checked e =
      let e₀ : _ ≡ ok (diffs, calls) = rw checked at e in
      let ((token, balance), held, e₁) =
        bind-eq-ok (read_fungible_holding h a.user_holding_lp) _ e₀ in
      let ((x, y), priced, e₂) =
        bind-eq-ok (remove_amounts p balance amount min_a min_b token) _ e₁ in
      let (q, shrunk, e₃) = bind-eq-ok (shrink_pool p x y amount) _ e₂ in
      let (tick, ticked, e₄) =
        bind-eq-ok
          (update_tick_call h c.twap_oracle_program_id a.config.account_id
            a.current_tick_account.account_id a.pool.account_id a.clock.account_id q)
          _ e₃ in
      let fair : Withdrawn p balance amount min_a min_b x y =
        remove_amounts-Withdrawn p balance amount min_a min_b token priced in
      let same = ok-eq-ok {P = Panic} {T = List (AccountStateDiff Data) × List ChainedCall} e₄ in
      record {
        amount_a = x;
        amount_b = y;
        balance = balance;
        holds =
            held
            ∙ ap (λ (t : AccountId). ok (t, balance))
                (remove_amounts_token p balance amount min_a min_b token priced);
        after = q;
        new_state = (let (_, _, _, eq) = shrink_pool_lem p x y amount shrunk in eq);
        written = sym (ap (λ (t : List (AccountStateDiff Data) × List ChainedCall). t.0) same);
        withdrawn = fair;
        keeps = shrink_pool-KeepsShares p balance amount min_a min_b x y fair shrunk;
        moves = rw (sym (ap (λ (t : List (AccountStateDiff Data) × List ChainedCall). t.1) same)) (
            remove_calls-Moves h a p c.token_program_id x y amount tick own (
              update_tick_call-IsSilent h c.twap_oracle_program_id a.config.account_id
                a.current_tick_account.account_id a.pool.account_id a.clock.account_id q ticked));
      }
