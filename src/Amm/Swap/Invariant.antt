-- ===== src/Amm/Swap/Invariant.antt =====
-- What a whole swap of programs/amm/src/swap.rs does to the pool and to its vaults.
use lez_programs.Shared.{
  ℕ, ◌+◌, ◌-◌, ◌*◌, ◌≤◌, ◌≡◌, arith, Result, ok, bind-eq-ok, List, [], ◌∷◌, ◌++◌, Bool, true, false,
}
use lez_programs.Host.{AccountId, AccountWithMetadata, AccountStateDiff, new, unchanged}
use lez_programs.Amm.Core.{
  Panic, AmmHost, PoolDefinition, AmmConfig, ChainedCall, inflow, outflow, fee_bps_denominator,
}
use lez_programs.Amm.Math.{spot_price_q64_64}
use lez_programs.Amm.Pda.{compute_pool_pda_seed}
use lez_programs.Amm.Accounts.{inflow-append, outflow-append}
use lez_programs.Amm.Swap.Settlement.{
  AreDistinct, Traded, swap_logic-Traded, exact_output_swap_logic-Traded,
}
use lez_programs.Amm.Swap.Handlers.{
  SwapAccounts, update_reserve, finalize_swap, check_swap, Logic, trade, swap_exact_input,
  swap_exact_output,
}

update_reserve_lem :
    {Data : Type 0} (h : AmmHost Data) (reserve deposit withdraw : ℕ) {r : ℕ}
    → update_reserve h reserve deposit withdraw ≡ ok r
    → r + withdraw ≡ reserve + deposit
unfolding update_reserve
update_reserve_lem h reserve deposit withdraw e = ground arith

module _ {Data : Type 0} (h : AmmHost Data) (a : SwapAccounts Data) where
  -- The two vaults are neither each other nor an account of the user or of the protocol.
  pub record HasOwnVaults : Type 0 where
    pub from_a :
        AreDistinct a.user_input_holding.account_id a.vault_a.account_id a.vault_b.account_id
          a.user_output_holding.account_id a.protocol_fee_holding.account_id
    pub from_b :
        AreDistinct a.user_input_holding.account_id a.vault_b.account_id a.vault_a.account_id
          a.user_output_holding.account_id a.protocol_fee_holding.account_id

  -- The pool data that a swap writes, with the other accounts echoed.
  abbrev pub swap_diffs : PoolDefinition → List (AccountStateDiff Data)
  swap_diffs p =
      unchanged a.config
      ∷ new a.pool (h.pools.into p)
      ∷ unchanged a.vault_a
      ∷ unchanged a.vault_b
      ∷ unchanged a.user_input_holding
      ∷ unchanged a.user_output_holding
      ∷ unchanged a.current_tick_account
      ∷ unchanged a.clock
      ∷ unchanged a.protocol_fee_holding
      ∷ []

  -- What a swap from pool state `p` leaves.
  pub record Swapped (p : PoolDefinition) (diffs : List (AccountStateDiff Data))
      (calls : List ChainedCall) : Type 0 where
    pub reserve_a' : ℕ
    pub reserve_b' : ℕ
    pub written : diffs ≡ swap_diffs (record p { reserve_a = reserve_a'; reserve_b = reserve_b' })
    pub product_kept : p.reserve_a * p.reserve_b ≤ reserve_a' * reserve_b'
    pub backed_a :
        p.reserve_a + inflow calls a.vault_a.account_id
        ≡ reserve_a' + outflow calls a.vault_a.account_id
    pub backed_b :
        p.reserve_b + inflow calls a.vault_b.account_id
        ≡ reserve_b' + outflow calls a.vault_b.account_id

  -- The new reserves, and the one call that refreshes the oracle, which moves no tokens.
  record Finalized (p : PoolDefinition) (deposit_a withdraw_a deposit_b withdraw_b : ℕ)
      (diffs : List (AccountStateDiff Data)) (call : ChainedCall) : Type 0 where
    reserve_a' : ℕ
    reserve_b' : ℕ
    written : diffs ≡ swap_diffs (record p { reserve_a = reserve_a'; reserve_b = reserve_b' })
    moved_a : reserve_a' + withdraw_a ≡ p.reserve_a + deposit_a
    moved_b : reserve_b' + withdraw_b ≡ p.reserve_b + deposit_b
    nothing_in : (x : AccountId) → inflow (call ∷ []) x ≡ 0
    nothing_out : (x : AccountId) → outflow (call ∷ []) x ≡ 0

  finalize_swap-Finalized :
      (p : PoolDefinition) (deposit_a withdraw_a deposit_b withdraw_b : ℕ) (oracle : AccountId)
      {diffs : List (AccountStateDiff Data)} {call : ChainedCall}
      → finalize_swap h a p deposit_a withdraw_a deposit_b withdraw_b oracle ≡ ok (diffs, call)
      → Finalized p deposit_a withdraw_a deposit_b withdraw_b diffs call
  unfolding finalize_swap
  finalize_swap-Finalized p deposit_a withdraw_a deposit_b withdraw_b oracle {diffs} {call} e =
      let (ra, ea, e₁) = bind-eq-ok (update_reserve h p.reserve_a deposit_a withdraw_a) _ e in
      let (rb, eb, e₂) = bind-eq-ok (update_reserve h p.reserve_b deposit_b withdraw_b) _ e₁ in
      let (price, _, e₃) = bind-eq-ok (spot_price_q64_64 ra rb) _ e₂ in
      let (seed, _, e₄) = bind-eq-ok (compute_pool_pda_seed h _ _ _) _ e₃ in
      record {
        reserve_a' = ra;
        reserve_b' = rb;
        written = cc;
        moved_a = update_reserve_lem h p.reserve_a deposit_a withdraw_a ea;
        moved_b = update_reserve_lem h p.reserve_b deposit_b withdraw_b eb;
        nothing_in = λ x. ground arith;
        nothing_out = λ x. ground arith;
      }

  -- The pool and its vaults after a trade whose input is token A.
  token_a_trade :
      (p : PoolDefinition) (cs : List ChainedCall) (call : ChainedCall) (net out : ℕ) {limit : ℕ}
      {ds diffs : List (AccountStateDiff Data)} {calls : List ChainedCall}
      → Traded h a.user_input_holding a.vault_a a.vault_b a.user_output_holding
          a.protocol_fee_holding p.reserve_a p.reserve_b limit cs net out
      → Finalized p net 0 0 out ds call
      → ◌≡◌ {A = Result Panic (List (AccountStateDiff Data) × List ChainedCall)}
          (ok (ds, cs ++ call ∷ []))
          (ok (diffs, calls))
      → Swapped p diffs calls
  token_a_trade p cs call net out {limit} {ds} {diffs} {calls} t f e =
      let same : calls ≡ cs ++ call ∷ [] = cc in
      let new_a : f.reserve_a' ≡ p.reserve_a + net = omega (arith, f.moved_a) in
      let new_b : f.reserve_b' ≡ p.reserve_b - out = omega (arith, f.moved_b, t.covered) in
      record {
        reserve_a' = f.reserve_a';
        reserve_b' = f.reserve_b';
        written = cc f.written;
        product_kept = rw (new_a, new_b) (omega (arith, t.product_kept));
        backed_a =
            rw (same, inflow-append, outflow-append)
              (omega (
                arith,
                t.deposited,
                new_a,
                f.nothing_in a.vault_a.account_id,
                f.nothing_out a.vault_a.account_id,
              ));
        backed_b =
            rw (same, inflow-append, outflow-append)
              (omega (
                arith,
                t.withdrawn,
                t.covered,
                new_b,
                f.nothing_in a.vault_b.account_id,
                f.nothing_out a.vault_b.account_id,
              ));
      }

  -- The same where the input is token B.
  token_b_trade :
      (p : PoolDefinition) (cs : List ChainedCall) (call : ChainedCall) (net out : ℕ) {limit : ℕ}
      {ds diffs : List (AccountStateDiff Data)} {calls : List ChainedCall}
      → Traded h a.user_input_holding a.vault_b a.vault_a a.user_output_holding
          a.protocol_fee_holding p.reserve_b p.reserve_a limit cs net out
      → Finalized p 0 out net 0 ds call
      → ◌≡◌ {A = Result Panic (List (AccountStateDiff Data) × List ChainedCall)}
          (ok (ds, cs ++ call ∷ []))
          (ok (diffs, calls))
      → Swapped p diffs calls
  token_b_trade p cs call net out {limit} {ds} {diffs} {calls} t f e =
      let same : calls ≡ cs ++ call ∷ [] = cc in
      let new_b : f.reserve_b' ≡ p.reserve_b + net = omega (arith, f.moved_b) in
      let new_a : f.reserve_a' ≡ p.reserve_a - out = omega (arith, f.moved_a, t.covered) in
      record {
        reserve_a' = f.reserve_a';
        reserve_b' = f.reserve_b';
        written = cc f.written;
        product_kept = rw (new_b, new_a) (omega (arith, t.product_kept));
        backed_b =
            rw (same, inflow-append, outflow-append)
              (omega (
                arith,
                t.deposited,
                new_b,
                f.nothing_in a.vault_b.account_id,
                f.nothing_out a.vault_b.account_id,
              ));
        backed_a =
            rw (same, inflow-append, outflow-append)
              (omega (
                arith,
                t.withdrawn,
                t.covered,
                new_a,
                f.nothing_in a.vault_a.account_id,
                f.nothing_out a.vault_a.account_id,
              ));
      }

  -- The pricing trades between the vaults that it is given.
  abbrev Prices : Logic h → ℕ → Type 0
  Prices logic limit =
      (c : AmmConfig) (vault_deposit vault_withdraw : AccountWithMetadata Data)
      (reserve_deposit reserve_withdraw : ℕ) (calls : List ChainedCall) (net out : ℕ)
      → c.protocol_fee_bps ≤ fee_bps_denominator
      → AreDistinct a.user_input_holding.account_id vault_deposit.account_id
          vault_withdraw.account_id a.user_output_holding.account_id
          a.protocol_fee_holding.account_id
      → logic c vault_deposit vault_withdraw reserve_deposit reserve_withdraw ≡ ok (calls, net, out)
      → Traded h a.user_input_holding vault_deposit vault_withdraw a.user_output_holding
          a.protocol_fee_holding reserve_deposit reserve_withdraw limit calls net out

  trade-Swapped :
      (logic : Logic h) (limit : ℕ) (p : PoolDefinition) (c : AmmConfig) (a_in : Bool)
      {diffs : List (AccountStateDiff Data)} {calls : List ChainedCall}
      → Prices logic limit
      → HasOwnVaults
      → c.protocol_fee_bps ≤ fee_bps_denominator
      → trade h a p c a_in logic ≡ ok (diffs, calls)
      → Swapped p diffs calls
  unfolding trade
  trade-Swapped logic limit p c true prices own small e =
      let ((cs, net, out), el, e₁) =
        bind-eq-ok (logic c a.vault_a a.vault_b p.reserve_a p.reserve_b) _ e in
      let ((ds, call), ef, e₂) =
        bind-eq-ok (finalize_swap h a p net 0 0 out c.twap_oracle_program_id) _ e₁ in
      let t : Traded h _ _ _ _ _ _ _ _ cs net out =
        prices c a.vault_a a.vault_b p.reserve_a p.reserve_b cs net out small own.from_a el in
      let f : Finalized p net 0 0 out ds call =
        finalize_swap-Finalized p net 0 0 out c.twap_oracle_program_id ef in
      token_a_trade p cs call net out t f e₂
  trade-Swapped logic limit p c false prices own small e =
      let ((cs, net, out), el, e₁) =
        bind-eq-ok (logic c a.vault_b a.vault_a p.reserve_b p.reserve_a) _ e in
      let ((ds, call), ef, e₂) =
        bind-eq-ok (finalize_swap h a p 0 out net 0 c.twap_oracle_program_id) _ e₁ in
      let t : Traded h _ _ _ _ _ _ _ _ cs net out =
        prices c a.vault_b a.vault_a p.reserve_b p.reserve_a cs net out small own.from_b el in
      let f : Finalized p 0 out net 0 ds call =
        finalize_swap-Finalized p 0 out net 0 c.twap_oracle_program_id ef in
      token_b_trade p cs call net out t f e₂

  -- An exact-input swap that does not panic, in either direction, writes only the two reserves
  -- of the pool; their product does not fall; and each reserve changes by exactly what the calls
  -- move into and out of its vault, so reserves that the vaults backed stay backed. The protocol
  -- fee of the configuration is at most the whole swap fee.
  pub swap_exact_input-Swapped :
      (swap_amount_in min_amount_out : ℕ) (amm_program_id : AccountId) (p : PoolDefinition)
      (c : AmmConfig) (a_in : Bool) {diffs : List (AccountStateDiff Data)}
      {calls : List ChainedCall}
      → HasOwnVaults
      → check_swap h a amm_program_id ≡ ok (p, c, a_in)
      → c.protocol_fee_bps ≤ fee_bps_denominator
      → swap_exact_input h a swap_amount_in min_amount_out amm_program_id ≡ ok (diffs, calls)
      → Swapped p diffs calls
  unfolding swap_exact_input
  swap_exact_input-Swapped swap_amount_in min_amount_out amm_program_id p c a_in own checked small
        e =
      trade-Swapped _ swap_amount_in p c a_in
        (λ c' vd vw rd rw calls net out small' d el.
          (swap_logic-Traded h a.user_input_holding vd vw a.user_output_holding
            a.protocol_fee_holding swap_amount_in min_amount_out c'.swap_fee_bps c'.protocol_fee_bps
            rd rw a.pool.account_id a.config.account_id small' d el).0)
        own small (rw checked at e)

  -- The same of an exact-output swap.
  pub swap_exact_output-Swapped :
      (exact_amount_out max_amount_in : ℕ) (amm_program_id : AccountId) (p : PoolDefinition)
      (c : AmmConfig) (a_in : Bool) {diffs : List (AccountStateDiff Data)}
      {calls : List ChainedCall}
      → HasOwnVaults
      → check_swap h a amm_program_id ≡ ok (p, c, a_in)
      → c.protocol_fee_bps ≤ fee_bps_denominator
      → swap_exact_output h a exact_amount_out max_amount_in amm_program_id ≡ ok (diffs, calls)
      → Swapped p diffs calls
  unfolding swap_exact_output
  swap_exact_output-Swapped exact_amount_out max_amount_in amm_program_id p c a_in own checked small
        e =
      trade-Swapped _ max_amount_in p c a_in
        (λ c' vd vw rd rw calls net out small' d el.
          (exact_output_swap_logic-Traded h a.user_input_holding vd vw a.user_output_holding
            a.protocol_fee_holding exact_amount_out max_amount_in rd rw c'.swap_fee_bps
            c'.protocol_fee_bps a.pool.account_id a.config.account_id small' d el).0)
        own small (rw checked at e)
