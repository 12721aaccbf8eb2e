-- ===== src/Stablecoin/Positions/Security.antt =====
-- The position that a loan leaves: programs/stablecoin/src/generate_debt.rs.

use lez_programs.Shared.{
  ℕ, ◌*◌, ◌^◌, ◌<◌, ◌≤◌, ◌≡◌, arith, ap, sym, not, ◌==◌, ==→eq, Bool-cases, inl, inr, List, [], ◌∷◌,
  ◌++◌, IsU128, ok, guard, bind-eq-ok, guard-eq-ok, guard-true, ok-eq-ok,
}
use lez_programs.Host.{AccountId, AccountStateDiff}
use lez_programs.Amm.Core.{ChainedCall}
use lez_programs.Stablecoin.Core.{Panic, fixed_point_one}
use lez_programs.Stablecoin.Math.{compute_current_redemption_price_wide}
use lez_programs.Stablecoin.Collateralization.{
  is_collateralized, collateralization_values, is_collateralized_iff,
}
use lez_programs.Stablecoin.State.{
  Position, ProtocolParameters, StabilityFeeAccumulator, RedemptionPriceState, StablecoinHost,
}
use lez_programs.Stablecoin.Checks.{
  FeeAccrual, accrue_fees, assert_secure, assert_position_is_collateralized, surplus_mint_call,
}
use lez_programs.Stablecoin.Positions.Debt.{
  GenerateAccounts, borrow, check_generate, generate_diffs, mint_call, generate_debt,
}
use lez_programs.Stablecoin.Positions.Backing.{borrow_lem}

-- The value of the debt, times the minimum ratio, is within the collateral: nothing is rounded.
abbrev pub IsSecure : Position → ℕ → ℕ → ℕ → Type 0
IsSecure position rate price ratio =
    position.normalized_debt_amount * rate * price * ratio
    ≤ position.collateral_amount * fixed_point_one ^ 3

collateralized-IsSecure :
    (position : Position) (rate price ratio : ℕ) {u : Unit {0}}
    → IsU128 position.collateral_amount
    → 0 < price
    → 0 < ratio
    → assert_position_is_collateralized position rate price ratio ≡ ok u
    → IsSecure position rate price ratio
unfolding assert_position_is_collateralized
collateralized-IsSecure position rate price ratio {u} hc hp hr e =
    let debt = position.normalized_debt_amount in
    let test =
      is_collateralized
        (collateralization_values position.collateral_amount debt rate price ratio) in
    elim (Bool-cases (debt == 0)) [
      | inl none_left ↦
          (let zero_debt : debt ≡ 0 = ==→eq debt 0 none_left in
            let nothing : debt * rate * price * ratio ≡ 0 = rw zero_debt (omega arith) in
            omega arith)
      | inr some_debt ↦
          (let e₁ : guard test Panic.undercollateralized ≡ ok u = rw some_debt at e in
            (is_collateralized_iff position.collateral_amount debt rate price ratio hc hp hr).0
              (guard-true test _ e₁))
    ]

-- A position that passes the check is secure at the price projected to now, which is not 0.
pub assert_secure-IsSecure :
    (position : Position) (rate : ℕ) (redemption : RedemptionPriceState) (now : ℕ)
    (parameters : ProtocolParameters) {u : Unit {0}}
    → IsU128 position.collateral_amount
    → 0 < parameters.minimum_collateralization_ratio
    → assert_secure position rate redemption now parameters ≡ ok u
    → (price : ℕ) × (compute_current_redemption_price_wide
          redemption.redemption_price_at_last_update redemption.redemption_rate_per_millisecond
          redemption.last_updated_at now
        ≡ ok price)
      × (0 < price)
      × IsSecure position rate price parameters.minimum_collateralization_ratio
unfolding assert_secure
assert_secure-IsSecure position rate redemption now parameters {u} hc hr e =
    let (price, p, e₁) =
      bind-eq-ok
        (compute_current_redemption_price_wide redemption.redemption_price_at_last_update
          redemption.redemption_rate_per_millisecond redemption.last_updated_at now)
        _ e in
    let (nonzero, e₂) = guard-eq-ok (not (price == 0)) _ _ e₁ in
    let pos : 0 < price = ground arith in
    (
      price,
      p,
      pos,
      collateralized-IsSecure position rate price parameters.minimum_collateralization_ratio hc pos
          hr e₂,
    )

-- What `generate_debt` reads.
abbrev pub GenerateRead : Type 0
GenerateRead = Position × ProtocolParameters × StabilityFeeAccumulator × RedemptionPriceState × ℕ

abbrev pub Outcome : (Data : Type 0) → Type 0
Outcome Data = List (AccountStateDiff Data) × List ChainedCall

module _ {Data : Type 0} (h : StablecoinHost Data) where
  -- A loan: the fees are accrued first, the position and the accumulator are written with the debt
  -- that `borrow` adds, the calls mint the surplus and the amount, and the position is secure at
  -- the accumulated rate and the price of now.
  abbrev pub Loan : GenerateAccounts Data → AccountId → ℕ → GenerateRead → Outcome Data → Type 0
  Loan a program amount (position, parameters, accumulator, redemption, now) (diffs, calls) =
      (accrual : FeeAccrual) × (surplus : List ChainedCall) × (position' : Position)
      × (accumulator' : StabilityFeeAccumulator) × (price : ℕ) × (accrue_fees parameters accumulator
            now
          ≡ ok accrual)
      × (surplus_mint_call h a.stablecoin_definition a.stablecoin_master_holding parameters program
            accrual.accrued_fees
          ≡ ok surplus)
      × (borrow position accrual.accumulator amount ≡ ok (position', accumulator'))
      × (diffs ≡ generate_diffs h a position' accumulator')
      × (calls ≡ surplus ++ (mint_call h a amount ∷ []))
      × (compute_current_redemption_price_wide redemption.redemption_price_at_last_update
            redemption.redemption_rate_per_millisecond redemption.last_updated_at now
          ≡ ok price)
      × (0 < price)
      × IsSecure position' accrual.accumulator.accumulated_rate_at_last_accrual price
          parameters.minimum_collateralization_ratio

  borrow-collateral :
      (position : Position) (accumulator : StabilityFeeAccumulator) (amount : ℕ)
      {position' : Position} {accumulator' : StabilityFeeAccumulator}
      → borrow position accumulator amount ≡ ok (position', accumulator')
      → position'.collateral_amount ≡ position.collateral_amount
  borrow-collateral position accumulator amount b =
      let (_, _, same, _) = borrow_lem position accumulator amount b in
      ap (λ (p : Position). p.collateral_amount) same

  -- On accounts that pass the checks, where the stored collateral is a 128-bit number and the
  -- minimum ratio is not 0, a call of `generate_debt` that does not panic accrues the fees, writes
  -- only the position and the accumulator, with the debt that `borrow` adds, mints exactly the
  -- surplus and the amount, and leaves a position whose debt times the rate, the price and the
  -- ratio of now is within its collateral.
  pub generate_debt-Loan :
      (a : GenerateAccounts Data) (program : AccountId) (amount : ℕ) (position : Position)
      (parameters : ProtocolParameters) (accumulator : StabilityFeeAccumulator)
      (redemption : RedemptionPriceState) (now : ℕ) {outcome : Outcome Data}
      → IsU128 position.collateral_amount
      → 0 < parameters.minimum_collateralization_ratio
      → check_generate h a program ≡ ok (position, parameters, accumulator, redemption, now)
      → generate_debt h a program amount ≡ ok outcome
      → Loan a program amount (position, parameters, accumulator, redemption, now) outcome
  unfolding generate_debt
  generate_debt-Loan a program amount position parameters accumulator redemption now {outcome} hc hr
        checked e =
      let e₀ : _ ≡ ok outcome = rw checked at e in
      let (accrual, f, e₁) = bind-eq-ok (accrue_fees parameters accumulator now) _ e₀ in
      let (surplus, s, e₂) =
        bind-eq-ok
          (surplus_mint_call h a.stablecoin_definition a.stablecoin_master_holding parameters
            program accrual.accrued_fees)
          _ e₁ in
      let ((position', accumulator'), b, e₃) =
        bind-eq-ok (borrow position accrual.accumulator amount) _ e₂ in
      let rate = accrual.accumulator.accumulated_rate_at_last_accrual in
      let (_, k, e₄) = bind-eq-ok (assert_secure position' rate redemption now parameters) _ e₃ in
      let same = borrow-collateral position accrual.accumulator amount b in
      let (price, p, pos, secure) =
        assert_secure-IsSecure position' rate redemption now parameters (omega arith) hr k in
      let result = ok-eq-ok {P = Panic} {T = Outcome Data} e₄ in
      (
        accrual,
        surplus,
        position',
        accumulator',
        price,
        f,
        s,
        b,
        sym (ap (λ (o : Outcome Data). o.0) result),
        sym (ap (λ (o : Outcome Data). o.1) result),
        p,
        pos,
        secure,
      )
