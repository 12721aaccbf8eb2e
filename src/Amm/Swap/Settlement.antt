-- ===== src/Amm/Swap/Settlement.antt =====
-- What the two swap routines of programs/amm/src/swap.rs hand to the reserve bookkeeping.
use native.Mathlib.Nat.{mul-le-mul_left, mul-le-mul_right, div-le_of_le-mul, le_trans}
use mathlib.Core.Path.{subst}
use lez_programs.Shared.{
  ℕ, ap, ◌∙◌, expect, not, ltb, ◌+◌, ◌-◌, ◌*◌, ◌<◌, ◌≤◌, ◌≡◌, ◌≢◌, arith, ok, some, bind-eq-ok,
  guard-eq-ok, expect-eq-ok, leb→le, leb, checked_sub, List, ◌==◌,
}
use lez_programs.Host.{AccountId, AccountWithMetadata}
use lez_programs.Amm.Core.{Panic, AmmHost, ChainedCall, fee_bps_denominator, inflow, outflow}
use lez_programs.Amm.Math.{swap_exact_in_amounts, swap_exact_out_amounts, protocol_fee_amount}
use lez_programs.Amm.Math.Rounding.{mul_div_floor_lem, mul_div_ceil_bounds}
use lez_programs.Amm.Math.Pricing.{swap_exact_in_amounts_keeps_product}
use lez_programs.Amm.Math.ExactOut.{swap_exact_out_amounts_lem}
use lez_programs.Amm.Swap.{token_of, swap_calls, settle_swap, swap_logic, exact_output_swap_logic}

-- The vaults are accounts of their own.
pub record AreDistinct (user_in vault_in vault_out user_out fee : AccountId) : Type 0 where
  pub vaults : vault_in ≢ vault_out
  pub in_in : vault_in ≢ user_in
  pub in_out : vault_in ≢ user_out
  pub out_in : vault_out ≢ user_in
  pub out_out : vault_out ≢ user_out
  pub fee_in : vault_in ≢ fee
  pub fee_out : vault_out ≢ fee

pub protocol_fee_amount-le :
    (swap_fee protocol_fee_bps : ℕ) {fee : ℕ}
    → protocol_fee_bps ≤ fee_bps_denominator
    → protocol_fee_amount swap_fee protocol_fee_bps ≡ ok fee
    → fee ≤ swap_fee
unfolding protocol_fee_amount
protocol_fee_amount-le swap_fee protocol_fee_bps {fee} small e =
    let (_, eq, _) = mul_div_floor_lem swap_fee protocol_fee_bps fee_bps_denominator e in
    rw eq (
      div-le_of_le-mul fee_bps_denominator (
        omega
          (arith, mul-le-mul_left {m = protocol_fee_bps} {n = fee_bps_denominator} swap_fee small)))

-- An input that reaches the product keeps it, and so does any larger one.
product_of_reach :
    (reserve_in reserve_out out eff net : ℕ)
    → out < reserve_out
    → reserve_in * out ≤ eff * (reserve_out - out)
    → eff ≤ net
    → reserve_in * reserve_out ≤ (reserve_in + net) * (reserve_out - out)
product_of_reach reserve_in reserve_out out eff net lt reach more =
    let rest : ℕ = reserve_out - out in
    let sum : out + rest ≡ reserve_out = omega arith in
    let wider : eff * rest ≤ net * rest = mul-le-mul_right rest more in
    subst (λ (t : ℕ). reserve_in * t ≤ (reserve_in + net) * rest) sum (omega arith)

module _ {Data : Type 0} (h : AmmHost Data)
    (user_deposit vault_deposit vault_withdraw user_withdraw fee_holding : AccountWithMetadata
      Data) where
  -- What a settled swap leaves: the net input is at least the priced one and at most the gross
  -- one, and the calls move exactly the net input into one vault and the output out of the other.
  pub record Settled (amount_in effective out : ℕ) (calls : List ChainedCall) (net : ℕ)
      : Type 0 where
    pub priced : effective ≤ net
    pub gross : net ≤ amount_in
    pub deposited :
        inflow calls vault_deposit.account_id ≡ outflow calls vault_deposit.account_id + net
    pub withdrawn :
        outflow calls vault_withdraw.account_id ≡ inflow calls vault_withdraw.account_id + out

  abbrev pub Distinct : Type 0
  Distinct =
      AreDistinct user_deposit.account_id vault_deposit.account_id vault_withdraw.account_id
        user_withdraw.account_id fee_holding.account_id

  swap_calls_flow :
      (amount_in out fee : ℕ) (deposit_token withdraw_token pool_id config_id : AccountId)
      → Distinct
      → let calls =
          swap_calls h user_deposit vault_deposit vault_withdraw user_withdraw fee_holding amount_in
            out fee deposit_token withdraw_token pool_id config_id in
        (inflow calls vault_deposit.account_id ≡ amount_in)
        × (outflow calls vault_deposit.account_id ≡ fee)
        × (outflow calls vault_withdraw.account_id ≡ out)
        × (inflow calls vault_withdraw.account_id ≡ 0)
  unfolding swap_calls
  swap_calls_flow amount_in out fee deposit_token withdraw_token pool_id config_id d = ground arith

  pub settle_swap-Settled :
      (amount_in effective out protocol_fee_bps : ℕ) (pool_id config_id : AccountId)
      {calls : List ChainedCall} {net paid : ℕ}
      → protocol_fee_bps ≤ fee_bps_denominator
      → Distinct
      → settle_swap h user_deposit vault_deposit vault_withdraw user_withdraw fee_holding amount_in
          effective out protocol_fee_bps pool_id config_id
        ≡ ok (calls, net, paid)
      → Settled amount_in effective out calls net × (paid ≡ out)
  unfolding settle_swap
  settle_swap-Settled amount_in effective out protocol_fee_bps pool_id config_id {calls} small d e =
      let (deposit_token, _, e₁) = bind-eq-ok (token_of h vault_deposit) _ e in
      let (swap_fee, ef, e₂) = bind-eq-ok _ _ e₁ in
      let (fee, ep, e₃) = bind-eq-ok _ _ e₂ in
      let (withdraw_token, _, e₄) = bind-eq-ok (token_of h vault_withdraw) _ e₃ in
      let (net', en, e₅) = bind-eq-ok _ _ e₄ in
      let below : fee ≤ swap_fee = protocol_fee_amount-le swap_fee protocol_fee_bps small ep in
      let (i, o, w, z) =
        swap_calls_flow amount_in out fee deposit_token withdraw_token pool_id config_id d in
      let spent : checked_sub amount_in effective ≡ some swap_fee = expect-eq-ok _ _ ef in
      let left : checked_sub amount_in fee ≡ some net' = expect-eq-ok _ _ en in ground arith

  -- A trade against reserves: it takes `net` at most `limit` in and pays `out`, moves exactly
  -- that between the vaults, and does not lower the product of the reserves.
  pub record Traded (reserve_deposit reserve_withdraw limit : ℕ) (calls : List ChainedCall)
      (net out : ℕ) : Type 0 where
    pub limited : net ≤ limit
    pub covered : out ≤ reserve_withdraw
    pub paid : 0 < out
    pub deposited :
        inflow calls vault_deposit.account_id ≡ outflow calls vault_deposit.account_id + net
    pub withdrawn :
        outflow calls vault_withdraw.account_id ≡ inflow calls vault_withdraw.account_id + out
    pub product_kept :
        reserve_deposit * reserve_withdraw ≤ (reserve_deposit + net) * (reserve_withdraw - out)

  -- An exact-input swap that does not panic trades at most its input for at least the minimum
  -- asked for, and the product of the reserves does not fall, with the protocol's cut taken out.
  pub swap_logic-Traded :
      (amount_in min_out fee_bps protocol_fee_bps reserve_deposit reserve_withdraw : ℕ)
      (pool_id config_id : AccountId) {calls : List ChainedCall} {net out : ℕ}
      → protocol_fee_bps ≤ fee_bps_denominator
      → Distinct
      → swap_logic h user_deposit vault_deposit vault_withdraw user_withdraw amount_in min_out
          fee_bps protocol_fee_bps fee_holding reserve_deposit reserve_withdraw pool_id config_id
        ≡ ok (calls, net, out)
      → Traded reserve_deposit reserve_withdraw amount_in calls net out × (min_out ≤ out)
  unfolding swap_logic
  swap_logic-Traded amount_in min_out fee_bps protocol_fee_bps reserve_deposit reserve_withdraw
        pool_id config_id {calls} {net} {out} small d e =
      let ((eff, paid), ep, e₁) =
        bind-eq-ok (swap_exact_in_amounts amount_in reserve_deposit reserve_withdraw fee_bps) _ e in
      let (_, e₂) = guard-eq-ok (not (eff == 0)) _ _ e₁ in
      let (enough, e₃) = guard-eq-ok (leb min_out paid) _ _ e₂ in
      let (some_out, e₄) = guard-eq-ok (not (paid == 0)) _ _ e₃ in
      let (settled, same) =
        settle_swap-Settled amount_in eff paid protocol_fee_bps pool_id config_id small d e₄ in
      let (_, covered, kept) =
        swap_exact_in_amounts_keeps_product amount_in reserve_deposit reserve_withdraw fee_bps ep in
      let wider : (reserve_deposit + eff) * (reserve_withdraw - paid)
          ≤ (reserve_deposit + net) * (reserve_withdraw - paid) =
        mul-le-mul_right (reserve_withdraw - paid) (omega (arith, settled.priced)) in
      rw same (
        record {
          limited = settled.gross;
          covered = covered;
          paid = ground arith;
          deposited = settled.deposited;
          withdrawn = settled.withdrawn;
          product_kept = le_trans kept wider;
        },
        leb→le _ _ enough,
      )

  -- An exact-output swap that does not panic pays exactly that output for at most the maximum
  -- input, and the product of the reserves does not fall, with the protocol's cut taken out.
  pub exact_output_swap_logic-Traded :
      (exact_out max_in reserve_deposit reserve_withdraw fee_bps protocol_fee_bps : ℕ)
      (pool_id config_id : AccountId) {calls : List ChainedCall} {net out : ℕ}
      → protocol_fee_bps ≤ fee_bps_denominator
      → Distinct
      → exact_output_swap_logic h user_deposit vault_deposit vault_withdraw user_withdraw exact_out
          max_in reserve_deposit reserve_withdraw fee_bps protocol_fee_bps fee_holding pool_id
          config_id
        ≡ ok (calls, net, out)
      → Traded reserve_deposit reserve_withdraw max_in calls net out × (out ≡ exact_out)
  unfolding exact_output_swap_logic
  exact_output_swap_logic-Traded exact_out max_in reserve_deposit reserve_withdraw fee_bps
        protocol_fee_bps pool_id config_id {calls} {net} {out} small d e =
      let (some_out, e₁) = guard-eq-ok (not (exact_out == 0)) _ _ e in
      let (below, e₂) = guard-eq-ok (ltb exact_out reserve_withdraw) _ _ e₁ in
      let (priced, ep, e₃) =
        bind-eq-ok (swap_exact_out_amounts exact_out reserve_deposit reserve_withdraw fee_bps) _
          e₂ in
      let ((eff, gross), eg, e₄) = bind-eq-ok (expect priced Panic.no_price) _ e₃ in
      let (within, e₅) = guard-eq-ok (leb gross max_in) _ _ e₄ in
      let (settled, same) =
        settle_swap-Settled gross eff exact_out protocol_fee_bps pool_id config_id small d e₅ in
      let (lt, pos, _, first, _) =
        swap_exact_out_amounts_lem exact_out reserve_deposit reserve_withdraw fee_bps
          (ep ∙ ap ok (expect-eq-ok _ _ eg)) in
      let (_, reach, _, _) =
        mul_div_ceil_bounds reserve_deposit exact_out (reserve_withdraw - exact_out) first in
      (
        record {
          limited = omega (arith, settled.gross, leb→le _ _ within);
          covered = omega (arith, same);
          paid = ground arith;
          deposited = settled.deposited;
          withdrawn = rw same settled.withdrawn;
          product_kept = rw same (
              product_of_reach reserve_deposit reserve_withdraw exact_out eff net lt reach
                settled.priced);
        },
        same,
      )
