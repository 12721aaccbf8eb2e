-- ===== src/Stablecoin/Positions/Circulation.antt =====
-- That every stablecoin that the handlers of programs/stablecoin/src mint is owed by a position.
use lez_programs.Shared.{ℕ, ◌+◌, ◌-◌, ◌*◌, ◌≤◌, ◌≡◌, refl, arith, ap, ◌∙◌, sym}
use lez_programs.Stablecoin.Core.{fixed_point_one}
use lez_programs.Stablecoin.State.{Position, StabilityFeeAccumulator}
use lez_programs.Stablecoin.Checks.{FeeAccrual}
use lez_programs.Stablecoin.Positions.Backing.{
  Protocol, Step, opened, accrued, borrowed, settled, moved, Reachable, started, next, IsOwed,
  debts-set, IsAccrued, accrue_fees-IsAccrued, borrow_lem, settle_lem,
}

-- What an accrual leaves: as much debt as before, and the coins with the fees within its value.
backed_accrual :
    (supply total rate : ℕ) (accumulator : StabilityFeeAccumulator) (accrual : FeeAccrual)
    → accumulator.total_normalized_debt ≡ total
    → accumulator.accumulated_rate_at_last_accrual ≡ rate
    → IsAccrued accumulator accrual
    → supply * fixed_point_one ≤ total * rate
    → (accrual.accumulator.total_normalized_debt ≡ total)
      × ((supply + accrual.accrued_fees) * fixed_point_one
          ≤ total * accrual.accumulator.accumulated_rate_at_last_accrual)
backed_accrual supply total rate accumulator accrual t r (rises, same, fees) backed =
    let c = accrual.accumulator.accumulated_rate_at_last_accrual in
    let old = accumulator.accumulated_rate_at_last_accrual in
    let split : c ≡ old + (c - old) = omega arith in
    let spread = ap (λ (n : ℕ). accumulator.total_normalized_debt * n) split in
    let total_eq = ap (λ (n : ℕ). n * c) t in
    let old_eq = ap (λ (n : ℕ). n * old) t in
    let rate_eq = ap (λ (n : ℕ). total * n) r in (same ∙ t, omega arith)

backed_loan :
    (supply total rate amount delta : ℕ)
    → supply * fixed_point_one ≤ total * rate
    → amount * fixed_point_one ≤ delta * rate
    → (supply + amount) * fixed_point_one ≤ (total + delta) * rate
backed_loan supply total rate amount delta h k = omega arith

backed_payment :
    (supply total rate amount delta : ℕ)
    → supply * fixed_point_one ≤ total * rate
    → delta * rate ≤ amount * fixed_point_one
    → delta ≤ total
    → amount ≤ supply
    → (supply - amount) * fixed_point_one ≤ (total - delta) * rate
backed_payment supply total rate amount delta h k debt coins =
    let split : total ≡ total - delta + delta = omega arith in
    let spread = ap (λ (n : ℕ). n * rate) split in omega arith

Step-IsOwed : {s s' : Protocol} → Step s s' → IsOwed s → IsOwed s'
Step-IsOwed (opened s owner nonce vault amount now) (total, backed) = (omega arith, backed)
Step-IsOwed (accrued s params now accrual e) (total, backed) =
    let (same, fees_backed) =
      backed_accrual s.circulating s.accumulator.total_normalized_debt
        s.accumulator.accumulated_rate_at_last_accrual s.accumulator accrual refl refl
        (accrue_fees-IsAccrued params s.accumulator now e) backed in
    let value = ap (λ (n : ℕ). n * accrual.accumulator.accumulated_rate_at_last_accrual) same in
    (total ∙ sym same, omega arith)
Step-IsOwed (borrowed s params now i amount accrual p p' accumulator e found b) (total, backed) =
    let (same, fees_backed) =
      backed_accrual s.circulating s.accumulator.total_normalized_debt
        s.accumulator.accumulated_rate_at_last_accrual s.accumulator accrual refl refl
        (accrue_fees-IsAccrued params s.accumulator now e) backed in
    let (delta, bound, p_eq, a_eq) = borrow_lem p accrual.accumulator amount b in
    let debt = ap (λ (q : Position). q.normalized_debt_amount) p_eq in
    let new_total = ap (λ (a : StabilityFeeAccumulator). a.total_normalized_debt) a_eq in
    let rate = ap (λ (a : StabilityFeeAccumulator). a.accumulated_rate_at_last_accrual) a_eq in
    let sum = debts-set s.positions i p p' found in
    let loan =
      backed_loan (s.circulating + accrual.accrued_fees) s.accumulator.total_normalized_debt
        accrual.accumulator.accumulated_rate_at_last_accrual amount delta fees_backed bound in
    let moved_total : accumulator.total_normalized_debt
        ≡ s.accumulator.total_normalized_debt + delta =
      omega arith in
    (omega arith, rw (moved_total, rate) loan)
Step-IsOwed (settled s params now i amount accrual p p' accumulator e found b coins)
      (total, backed) =
    let (same, fees_backed) =
      backed_accrual s.circulating s.accumulator.total_normalized_debt
        s.accumulator.accumulated_rate_at_last_accrual s.accumulator accrual refl refl
        (accrue_fees-IsAccrued params s.accumulator now e) backed in
    let (delta, bound, debt_le, total_le, p_eq, a_eq) = settle_lem p accrual.accumulator amount b in
    let debt = ap (λ (q : Position). q.normalized_debt_amount) p_eq in
    let new_total = ap (λ (a : StabilityFeeAccumulator). a.total_normalized_debt) a_eq in
    let rate = ap (λ (a : StabilityFeeAccumulator). a.accumulated_rate_at_last_accrual) a_eq in
    let sum = debts-set s.positions i p p' found in
    let payment =
      backed_payment (s.circulating + accrual.accrued_fees) s.accumulator.total_normalized_debt
        accrual.accumulator.accumulated_rate_at_last_accrual amount delta fees_backed bound
        (omega arith) coins in
    let moved_total : accumulator.total_normalized_debt
        ≡ s.accumulator.total_normalized_debt - delta =
      omega arith in
    (omega arith, rw (moved_total, rate) payment)
Step-IsOwed (moved s i collateral p found) (total, backed) =
    let sum = debts-set s.positions i p (record p { collateral_amount = collateral }) found in
    (omega arith, backed)

-- After any openings, fee accruals, loans, payments of coins that are in circulation and changes
-- of collateral, from a start without positions, the total debt of the accumulator is the sum of
-- the debts of all positions, and the stablecoins in circulation, the fees among them, are worth
-- no more than that debt at the accumulated rate.
pub Reachable-IsOwed : {s : Protocol} → Reachable s → IsOwed s
Reachable-IsOwed (started rate now) = (refl, omega arith)
Reachable-IsOwed (next before step) = Step-IsOwed step (Reachable-IsOwed before)
