-- ===== src/Amm/Liquidity/Synced.antt =====
-- What synchronising the reserves by programs/amm/src/sync.rs leaves.
use lez_programs.Shared.{
  ℕ, ◌≤◌, ◌≡◌, ok, Result, bind-eq-ok, ok-eq-ok, guard-eq-ok, leb→le, leb, ◌==◌, List, sym, ap,
  expect,
}
use lez_programs.Host.{AccountId, AccountStateDiff}
use lez_programs.Amm.Core.{
  AmmHost, PoolDefinition, AmmConfig, ChainedCall, Panic, minimum_liquidity,
}
use lez_programs.Amm.Accounts.{
  read_vault_fungible_balances, read_config, assert_pool_in_config_namespace, check_oracle_accounts,
}
use lez_programs.Amm.Liquidity.{update_tick_call}
use lez_programs.Amm.Liquidity.Sync.{SyncAccounts, sync_diffs, check_sync, sync_reserves}
use lez_programs.Amm.Liquidity.Calls.{IsSilent, update_tick_call-IsSilent}

module _ {Data : Type 0} (h : AmmHost Data) (a : SyncAccounts Data) where
  -- What synchronising leaves of pool state `p`.
  pub record Synced (p : PoolDefinition) (diffs : List (AccountStateDiff Data))
      (calls : List ChainedCall) : Type 0 where
    pub vault_a_balance : ℕ
    pub vault_b_balance : ℕ
    pub read :
        read_vault_fungible_balances h a.vault_a a.vault_b ≡ ok (vault_a_balance, vault_b_balance)
    pub written :
        diffs
        ≡ sync_diffs h a (record p { reserve_a = vault_a_balance; reserve_b = vault_b_balance })
    pub more_a : p.reserve_a ≤ vault_a_balance
    pub more_b : p.reserve_b ≤ vault_b_balance
    pub quiet : IsSilent calls

  record Checked (p : PoolDefinition) (va vb : ℕ) : Type 0 where
    read : read_vault_fungible_balances h a.vault_a a.vault_b ≡ ok (va, vb)
    more_a : p.reserve_a ≤ va
    more_b : p.reserve_b ≤ vb

  same-Checked :
      {p p' : PoolDefinition} {c c' : AmmConfig} {va vb va' vb' : ℕ}
      → ◌≡◌ {A = Result Panic (PoolDefinition × AmmConfig × ℕ × ℕ)}
          (ok (p, c, va, vb))
          (ok (p', c', va', vb'))
      → Checked p va vb
      → Checked p' va' vb'
  same-Checked {p} {p'} {c} {c'} {va} {vb} {va'} {vb'} e x =
      let same = ok-eq-ok {P = Panic} {T = PoolDefinition × AmmConfig × ℕ × ℕ} e in
      let one : p ≡ p' = ap (λ (t : PoolDefinition × AmmConfig × ℕ × ℕ). t.0) same in
      let two : va ≡ va' = ap (λ (t : PoolDefinition × AmmConfig × ℕ × ℕ). t.2) same in
      let three : vb ≡ vb' = ap (λ (t : PoolDefinition × AmmConfig × ℕ × ℕ). t.3) same in
      rw (sym one, sym two, sym three) x

  check_sync-Checked :
      (amm_program_id : AccountId) (p : PoolDefinition) (c : AmmConfig) (va vb : ℕ)
      → check_sync h a amm_program_id ≡ ok (p, c, va, vb)
      → Checked p va vb
  unfolding check_sync
  check_sync-Checked amm_program_id p c va vb e =
      let (_, e₁) = guard-eq-ok (a.pool.account.program_owner == amm_program_id) _ _ e in
      let (q, _, e₂) =
        bind-eq-ok (expect (h.pools.try_from a.pool.account.account_data) Panic.invalid_pool) _
          e₁ in
      let (d, _, e₃) = bind-eq-ok (read_config h a.config amm_program_id) _ e₂ in
      let (_, _, e₄) =
        bind-eq-ok (assert_pool_in_config_namespace h a.pool a.config q amm_program_id) _ e₃ in
      let (_, e₅) = guard-eq-ok (leb minimum_liquidity q.liquidity_pool_supply) _ _ e₄ in
      let (_, e₆) = guard-eq-ok (a.vault_a.account_id == q.vault_a_id) _ _ e₅ in
      let (_, e₇) = guard-eq-ok (a.vault_b.account_id == q.vault_b_id) _ _ e₆ in
      let (_, _, e₈) =
        bind-eq-ok
          (check_oracle_accounts h a.clock a.current_tick_account a.pool d.twap_oracle_program_id) _
          e₇ in
      let ((x, y), read, e₉) =
        bind-eq-ok (read_vault_fungible_balances h a.vault_a a.vault_b) _ e₈ in
      let (le_a, f) = guard-eq-ok (leb q.reserve_a x) _ _ e₉ in
      let (le_b, g) = guard-eq-ok (leb q.reserve_b y) _ _ f in
      same-Checked g (record {
        read = read;
        more_a = leb→le q.reserve_a x le_a;
        more_b = leb→le q.reserve_b y le_b;
      })

  -- Synchronising that does not panic sets both reserves to the balances of their vaults, which
  -- are at least the reserves before, writes nothing else, and moves no tokens.
  pub sync_reserves-Synced :
      (amm_program_id : AccountId) (p : PoolDefinition) (c : AmmConfig) (va vb : ℕ)
      {diffs : List (AccountStateDiff Data)} {calls : List ChainedCall}
      → check_sync h a amm_program_id ≡ ok (p, c, va, vb)
      → sync_reserves h a amm_program_id ≡ ok (diffs, calls)
      → Synced p diffs calls
  unfolding sync_reserves
  sync_reserves-Synced amm_program_id p c va vb {diffs} {calls} checked e =
      let e₀ : _ ≡ ok (diffs, calls) = rw checked at e in
      let after : PoolDefinition = record p { reserve_a = va; reserve_b = vb } in
      let (tick, ticked, e₁) =
        bind-eq-ok
          (update_tick_call h c.twap_oracle_program_id a.config.account_id
            a.current_tick_account.account_id a.pool.account_id a.clock.account_id after)
          _ e₀ in
      let x : Checked p va vb = check_sync-Checked amm_program_id p c va vb checked in
      let same = ok-eq-ok {P = Panic} {T = List (AccountStateDiff Data) × List ChainedCall} e₁ in
      record {
        vault_a_balance = va;
        vault_b_balance = vb;
        read = x.read;
        written = sym (ap (λ (t : List (AccountStateDiff Data) × List ChainedCall). t.0) same);
        more_a = x.more_a;
        more_b = x.more_b;
        quiet = rw (sym (ap (λ (t : List (AccountStateDiff Data) × List ChainedCall). t.1) same)) (
            update_tick_call-IsSilent h c.twap_oracle_program_id a.config.account_id
              a.current_tick_account.account_id a.pool.account_id a.clock.account_id after ticked);
      }
