-- ===== src/Stablecoin/Positions/Backing.antt =====
-- The stablecoins in circulation and the debt of all positions, over a run of the handlers of
-- programs/stablecoin/src: how `accrue_fees`, `borrow` and `settle` keep them in step.
use native.Mathlib.Nat.{div-mul-le_self, div-add-mod', mod-lt}
use mathlib.Core.Path.{subst}
use lez_programs.Shared.{
  ℕ, zero, suc, ◌+◌, ◌-◌, ◌*◌, ◌/◌, ◌%◌, ◌<◌, ◌≤◌, ◌≡◌, refl, arith, ap, sym, ◌∙◌, some, List, [],
  ◌∷◌, get_elem?, set, not, ◌==◌, if◌then◌else◌, ok, expect, bind-eq-ok, guard-eq-ok, expect-eq-ok,
  ok-eq-ok, some-eq-some, checked_add, checked_add-some, checked_sub, checked_sub-some, ◌⊎◌, inl,
  inr, checked_mul_u256, to_u128,
}
use lez_programs.Stablecoin.Core.{Panic, fixed_point_one}
use lez_programs.Stablecoin.Math.{mul_div, mul_div_ceil, compute_current_accumulated_rate}
use lez_programs.Stablecoin.Math.Projection.{mul_div_lem}
use lez_programs.Stablecoin.State.{Position, ProtocolParameters, StabilityFeeAccumulator}
use lez_programs.Stablecoin.Checks.{FeeAccrual, accrue_fees}
use lez_programs.Stablecoin.Positions.Debt.{borrow, settle}
use lez_programs.Stablecoin.Positions.Lifecycle.{new_position}
use lez_programs.Host.{AccountId}

-- The open positions, the accumulator, and the stablecoins in circulation.
pub record Protocol : Type 0 where
  pub positions : List Position
  pub accumulator : StabilityFeeAccumulator
  pub circulating : ℕ

-- A handler's change of the protocol. Each accrual mints its fees, a loan mints its amount, and a
-- payment burns its own; a change of collateral leaves the debt of the position as it is.
pub data Step : Protocol → Protocol → Type 0 where
  opened :
      (s : Protocol) (owner : AccountId) (nonce : ℕ) (vault : AccountId) (amount now : ℕ)
      → Step s (record s { positions = new_position owner nonce vault amount now ∷ s.positions })
  accrued :
      (s : Protocol) (params : ProtocolParameters) (now : ℕ) (accrual : FeeAccrual)
      → accrue_fees params s.accumulator now ≡ ok accrual
      → Step s (record s {
        accumulator = accrual.accumulator;
        circulating = s.circulating + accrual.accrued_fees;
      })
  borrowed :
      (s : Protocol) (params : ProtocolParameters) (now i amount : ℕ) (accrual : FeeAccrual)
      (p p' : Position) (accumulator : StabilityFeeAccumulator)
      → accrue_fees params s.accumulator now ≡ ok accrual
      → get_elem? s.positions i ≡ some p
      → borrow p accrual.accumulator amount ≡ ok (p', accumulator)
      → Step s (record {
        positions = set s.positions i p';
        accumulator = accumulator;
        circulating = s.circulating + accrual.accrued_fees + amount;
      })
  settled :
      (s : Protocol) (params : ProtocolParameters) (now i amount : ℕ) (accrual : FeeAccrual)
      (p p' : Position) (accumulator : StabilityFeeAccumulator)
      → accrue_fees params s.accumulator now ≡ ok accrual
      → get_elem? s.positions i ≡ some p
      → settle p accrual.accumulator amount ≡ ok (p', accumulator)
      → amount ≤ s.circulating + accrual.accrued_fees
      → Step s (record {
        positions = set s.positions i p';
        accumulator = accumulator;
        circulating = s.circulating + accrual.accrued_fees - amount;
      })
  moved :
      (s : Protocol) (i collateral : ℕ) (p : Position)
      → get_elem? s.positions i ≡ some p
      → Step s
          (record s { positions = set s.positions i (record p { collateral_amount = collateral }) })

-- The protocols that a start can come to.
pub data Reachable : Protocol → Type 0 where
  started :
      (rate now : ℕ)
      → Reachable (record {
        positions = [];
        accumulator = record {
          accumulated_rate_at_last_accrual = rate;
          last_accrued_at = now;
          total_normalized_debt = 0;
        };
        circulating = 0;
      })
  next : {s s' : Protocol} → Reachable s → Step s s' → Reachable s'

abbrev pub debts : List Position → ℕ
debts [] = 0
debts (p ∷ ps) = p.normalized_debt_amount + debts ps

-- The total is that of the positions, and every stablecoin in circulation is owed by a position.
abbrev pub IsOwed : Protocol → Type 0
IsOwed s =
    (debts s.positions ≡ s.accumulator.total_normalized_debt)
    × (s.circulating * fixed_point_one
        ≤ s.accumulator.total_normalized_debt * s.accumulator.accumulated_rate_at_last_accrual)

pub debts-set :
    (ps : List Position) (i : ℕ) (old p : Position)
    → get_elem? ps i ≡ some old
    → debts (set ps i p) + old.normalized_debt_amount ≡ debts ps + p.normalized_debt_amount
debts-set [] i old p e = cc
debts-set (x ∷ ps) zero old p e =
    let same = ap (λ (q : Position). q.normalized_debt_amount) (some-eq-some e) in omega arith
debts-set (x ∷ ps) (suc i) old p e = omega (arith, debts-set ps i old p e)

ceil_lem :
    (n c q : ℕ) → 0 < c → to_u128 (if n % c == 0 then n / c else n / c + 1) ≡ some q → n ≤ q * c
ceil_lem n c q pos e =
    let whole = div-add-mod' n c in
    let rest = mod-lt n pos in
    let up : (n / c + 1) * c ≡ n / c * c + c = omega arith in
    let value : (q ≡ n / c) × (n % c ≡ 0) ⊎ (q ≡ n / c + 1) = ground arith in
    elim value [
      | inl (same, none_left) ↦ (let scaled = ap (λ (t : ℕ). t * c) same in omega arith)
      | inr same ↦ (let scaled = ap (λ (t : ℕ). t * c) same in omega arith)
    ]

checked_mul_u256-some : (a b : ℕ) {c : ℕ} → checked_mul_u256 a b ≡ some c → a * b ≡ c
checked_mul_u256-some a b e = ground arith

mul_div_ceil_lem : (a b c : ℕ) {q : ℕ} → mul_div_ceil a b c ≡ ok q → (0 < c) × (a * b ≤ q * c)
unfolding mul_div_ceil
mul_div_ceil_lem a b c {q} e =
    let (nonzero, e₁) = guard-eq-ok (not (c == 0)) _ _ e in
    let (product, m, e₂) = bind-eq-ok (expect (checked_mul_u256 a b) _) _ e₁ in
    let pos : 0 < c = ground arith in
    let same : a * b ≡ product = checked_mul_u256-some a b (expect-eq-ok _ _ m) in
    (pos, rw same (ceil_lem product c q pos (expect-eq-ok _ _ e₂)))

floor_lem :
    (amount rate delta : ℕ)
    → mul_div amount fixed_point_one rate ≡ ok delta
    → delta * rate ≤ amount * fixed_point_one
floor_lem amount rate delta m =
    let (_, eq, _) = mul_div_lem amount fixed_point_one rate m in
    rw eq (div-mul-le_self (amount * fixed_point_one) rate)

fees_lem :
    (total current rate delta fees : ℕ)
    → delta ≡ current - rate
    → mul_div total delta fixed_point_one ≡ ok fees
    → fees * fixed_point_one ≤ total * (current - rate)
fees_lem total current rate delta fees same m =
    let (_, eq, _) = mul_div_lem total delta fixed_point_one m in
    rw (sym same, eq) (div-mul-le_self (total * delta) fixed_point_one)

-- The accumulated rate does not fall, the total debt stays, and the fees are within the growth of
-- the debt.
abbrev pub IsAccrued : StabilityFeeAccumulator → FeeAccrual → Type 0
IsAccrued accumulator accrual =
    (accumulator.accumulated_rate_at_last_accrual
      ≤ accrual.accumulator.accumulated_rate_at_last_accrual)
    × (accrual.accumulator.total_normalized_debt ≡ accumulator.total_normalized_debt)
    × (accrual.accrued_fees * fixed_point_one
        ≤ accumulator.total_normalized_debt
          * (accrual.accumulator.accumulated_rate_at_last_accrual
              - accumulator.accumulated_rate_at_last_accrual))

pub accrue_fees-IsAccrued :
    (params : ProtocolParameters) (accumulator : StabilityFeeAccumulator) (now : ℕ)
    {accrual : FeeAccrual}
    → accrue_fees params accumulator now ≡ ok accrual
    → IsAccrued accumulator accrual
unfolding accrue_fees
accrue_fees-IsAccrued params accumulator now {accrual} e =
    let total = accumulator.total_normalized_debt in
    let rate = accumulator.accumulated_rate_at_last_accrual in
    let (current, _, e₁) =
      bind-eq-ok
        (compute_current_accumulated_rate rate params.stability_fee_per_millisecond
          accumulator.last_accrued_at now)
        _ e in
    let (delta, d, e₂) = bind-eq-ok (expect (checked_sub current rate) _) _ e₁ in
    let (fees, f, e₃) = bind-eq-ok (mul_div total delta fixed_point_one) _ e₂ in
    let (delta_eq, below) = checked_sub-some current rate (expect-eq-ok _ _ d) in
    subst (IsAccrued accumulator) (ok-eq-ok {P = Panic} e₃)
      (below, refl, fees_lem total current rate delta fees delta_eq f)

pub borrow_lem :
    (p : Position) (before : StabilityFeeAccumulator) (amount : ℕ) {p' : Position}
    {accumulator : StabilityFeeAccumulator}
    → borrow p before amount ≡ ok (p', accumulator)
    → (delta : ℕ) × (amount * fixed_point_one ≤ delta * before.accumulated_rate_at_last_accrual)
      × (p' ≡ record p { normalized_debt_amount = p.normalized_debt_amount + delta })
      × (accumulator
          ≡ record before { total_normalized_debt = before.total_normalized_debt + delta })
unfolding borrow
borrow_lem p before amount {p'} {accumulator} e =
    let rate = before.accumulated_rate_at_last_accrual in
    let (delta, m, e₁) = bind-eq-ok (mul_div_ceil amount fixed_point_one rate) _ e in
    let (debt, d, e₂) = bind-eq-ok (expect (checked_add p.normalized_debt_amount delta) _) _ e₁ in
    let (total, t, e₃) =
      bind-eq-ok (expect (checked_add before.total_normalized_debt delta) _) _ e₂ in
    let (_, bound) = mul_div_ceil_lem amount fixed_point_one rate m in
    let debt_eq : p.normalized_debt_amount + delta ≡ debt =
      checked_add-some p.normalized_debt_amount delta (expect-eq-ok _ _ d) in
    let total_eq : before.total_normalized_debt + delta ≡ total =
      checked_add-some before.total_normalized_debt delta (expect-eq-ok _ _ t) in
    let same = ok-eq-ok {P = Panic} {T = Position × StabilityFeeAccumulator} e₃ in
    (
      delta,
      bound,
      sym (ap (λ (x : Position × StabilityFeeAccumulator). x.0) same)
          ∙ ap (λ (n : ℕ). record p { normalized_debt_amount = n }) (sym debt_eq),
      sym (ap (λ (x : Position × StabilityFeeAccumulator). x.1) same)
          ∙ ap (λ (n : ℕ). record before { total_normalized_debt = n }) (sym total_eq),
    )

pub settle_lem :
    (p : Position) (before : StabilityFeeAccumulator) (amount : ℕ) {p' : Position}
    {accumulator : StabilityFeeAccumulator}
    → settle p before amount ≡ ok (p', accumulator)
    → (delta : ℕ) × (delta * before.accumulated_rate_at_last_accrual ≤ amount * fixed_point_one)
      × (delta ≤ p.normalized_debt_amount)
      × (delta ≤ before.total_normalized_debt)
      × (p' ≡ record p { normalized_debt_amount = p.normalized_debt_amount - delta })
      × (accumulator
          ≡ record before { total_normalized_debt = before.total_normalized_debt - delta })
unfolding settle
settle_lem p before amount {p'} {accumulator} e =
    let rate = before.accumulated_rate_at_last_accrual in
    let (delta, m, e₁) = bind-eq-ok (mul_div amount fixed_point_one rate) _ e in
    let (debt, d, e₂) = bind-eq-ok (expect (checked_sub p.normalized_debt_amount delta) _) _ e₁ in
    let (total, t, e₃) =
      bind-eq-ok (expect (checked_sub before.total_normalized_debt delta) _) _ e₂ in
    let (debt_eq, debt_le) = checked_sub-some p.normalized_debt_amount delta (expect-eq-ok _ _ d) in
    let (total_eq, total_le) =
      checked_sub-some before.total_normalized_debt delta (expect-eq-ok _ _ t) in
    let same = ok-eq-ok {P = Panic} {T = Position × StabilityFeeAccumulator} e₃ in
    (
      delta,
      floor_lem amount rate delta m,
      debt_le,
      total_le,
      sym (ap (λ (x : Position × StabilityFeeAccumulator). x.0) same)
          ∙ ap (λ (n : ℕ). record p { normalized_debt_amount = n }) debt_eq,
      sym (ap (λ (x : Position × StabilityFeeAccumulator). x.1) same)
          ∙ ap (λ (n : ℕ). record before { total_normalized_debt = n }) total_eq,
    )
