-- ===== src/Amm/Liquidity/Calls.antt =====
-- What the calls of programs/amm/src/add.rs and remove.rs move.
use lez_programs.Shared.{ℕ, ◌≡◌, ◌≢◌, refl, arith, ok, bind-eq-ok, List, [], ◌∷◌}
use lez_programs.Host.{AccountId}
use lez_programs.Amm.Core.{AmmHost, PoolDefinition, ChainedCall, OracleInstruction, inflow, outflow}
use lez_programs.Amm.Math.{spot_price_q64_64}
use lez_programs.Amm.Pda.{compute_pool_pda_seed}
use lez_programs.Amm.Accounts.{oracle_call}
use lez_programs.Amm.Liquidity.{LiquidityAccounts, update_tick_call, minted, burned}
use lez_programs.Amm.Liquidity.Add.{add_calls}
use lez_programs.Amm.Liquidity.Remove.{remove_calls}

-- A list of calls that moves, creates and destroys no tokens.
pub record IsSilent (calls : List ChainedCall) : Type 0 where
  pub nothing_in : (x : AccountId) → inflow calls x ≡ 0
  pub nothing_out : (x : AccountId) → outflow calls x ≡ 0
  pub nothing_minted : (x : AccountId) → minted calls x ≡ 0
  pub nothing_burned : (x : AccountId) → burned calls x ≡ 0

-- What a list of calls moves through two vaults, and creates and destroys of a token.
pub record Moves (calls : List ChainedCall) (vault_a vault_b lp : AccountId)
    (in_a out_a in_b out_b created destroyed : ℕ) : Type 0 where
  pub a_in : inflow calls vault_a ≡ in_a
  pub a_out : outflow calls vault_a ≡ out_a
  pub b_in : inflow calls vault_b ≡ in_b
  pub b_out : outflow calls vault_b ≡ out_b
  pub lp_in : minted calls lp ≡ created
  pub lp_out : burned calls lp ≡ destroyed

pub oracle_call-IsSilent :
    (program tick pool clock : AccountId) (i : OracleInstruction) (seed : ℕ)
    → IsSilent (oracle_call program tick pool clock i seed ∷ [])
oracle_call-IsSilent program tick pool clock i seed = record {
  nothing_in = λ x. refl;
  nothing_out = λ x. refl;
  nothing_minted = λ x. refl;
  nothing_burned = λ x. refl;
}

module _ {Data : Type 0} (h : AmmHost Data) where
  pub update_tick_call-IsSilent :
      (program config tick pool clock : AccountId) (p : PoolDefinition) {c : ChainedCall}
      → update_tick_call h program config tick pool clock p ≡ ok c
      → IsSilent (c ∷ [])
  unfolding update_tick_call
  update_tick_call-IsSilent program config tick pool clock p {c} e =
      let (price, _, e₁) = bind-eq-ok (spot_price_q64_64 p.reserve_a p.reserve_b) _ e in
      let (seed, _, e₂) = bind-eq-ok (compute_pool_pda_seed h _ _ _) _ e₁ in
      record {
        nothing_in = λ x. ground arith;
        nothing_out = λ x. ground arith;
        nothing_minted = λ x. ground arith;
        nothing_burned = λ x. ground arith;
      }

module _ {Data : Type 0} (h : AmmHost Data) (a : LiquidityAccounts Data) where
  -- The vaults are neither each other nor a holding of the user.
  pub record HasSeparateVaults : Type 0 where
    pub vaults : a.vault_a.account_id ≢ a.vault_b.account_id
    pub a_a : a.vault_a.account_id ≢ a.user_holding_a.account_id
    pub a_b : a.vault_a.account_id ≢ a.user_holding_b.account_id
    pub b_a : a.vault_b.account_id ≢ a.user_holding_a.account_id
    pub b_b : a.vault_b.account_id ≢ a.user_holding_b.account_id

  pub add_calls-Moves :
      (program : AccountId) (amount_a amount_b lp : ℕ) (tick : ChainedCall)
      → HasSeparateVaults
      → IsSilent (tick ∷ [])
      → Moves
          (add_calls h a program amount_a amount_b lp tick)
          a.vault_a.account_id
          a.vault_b.account_id
          a.pool_definition_lp.account_id
          amount_a
          0
          amount_b
          0
          lp
          0
  unfolding add_calls
  add_calls-Moves program amount_a amount_b lp tick own quiet =
      let v = own.vaults in
      let aa = own.a_a in
      let ab = own.a_b in
      let ba = own.b_a in
      let bb = own.b_b in
      let in_a = quiet.nothing_in a.vault_a.account_id in
      let in_b = quiet.nothing_in a.vault_b.account_id in
      let out_a = quiet.nothing_out a.vault_a.account_id in
      let out_b = quiet.nothing_out a.vault_b.account_id in
      let minted_lp = quiet.nothing_minted a.pool_definition_lp.account_id in
      let burned_lp = quiet.nothing_burned a.pool_definition_lp.account_id in
      record {
        a_in = ground arith;
        a_out = ground arith;
        b_in = ground arith;
        b_out = ground arith;
        lp_in = ground arith;
        lp_out = ground arith;
      }

  pub remove_calls-Moves :
      (p : PoolDefinition) (program : AccountId) (amount_a amount_b lp : ℕ) (tick : ChainedCall)
      → HasSeparateVaults
      → IsSilent (tick ∷ [])
      → Moves
          (remove_calls h a p program amount_a amount_b lp tick)
          a.vault_a.account_id
          a.vault_b.account_id
          a.pool_definition_lp.account_id
          0
          amount_a
          0
          amount_b
          0
          lp
  unfolding remove_calls
  remove_calls-Moves p program amount_a amount_b lp tick own quiet =
      let v = own.vaults in
      let aa = own.a_a in
      let ab = own.a_b in
      let ba = own.b_a in
      let bb = own.b_b in
      let in_a = quiet.nothing_in a.vault_a.account_id in
      let in_b = quiet.nothing_in a.vault_b.account_id in
      let out_a = quiet.nothing_out a.vault_a.account_id in
      let out_b = quiet.nothing_out a.vault_b.account_id in
      let minted_lp = quiet.nothing_minted a.pool_definition_lp.account_id in
      let burned_lp = quiet.nothing_burned a.pool_definition_lp.account_id in
      record {
        a_in = ground arith;
        a_out = ground arith;
        b_in = ground arith;
        b_out = ground arith;
        lp_in = ground arith;
        lp_out = ground arith;
      }
