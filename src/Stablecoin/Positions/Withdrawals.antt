-- ===== src/Stablecoin/Positions/Withdrawals.antt =====
-- The position that a withdrawal leaves: programs/stablecoin/src/withdraw_collateral.rs.
use mathlib.Core.Path.{subst}
use lez_programs.Shared.{
  ℕ, ◌-◌, ◌<◌, ◌≤◌, ◌≡◌, arith, ap, sym, ◌∙◌, ◌==◌, ==→eq, Bool-cases, inl, inr, [], ◌∷◌, IsU128,
  ok, expect, bind-eq-ok, expect-eq-ok, ok-eq-ok, checked_sub, checked_sub-some,
}
use lez_programs.Host.{AccountId}
use lez_programs.Stablecoin.Core.{Panic}
use lez_programs.Stablecoin.Math.{
  compute_current_redemption_price_wide, compute_current_accumulated_rate_wide,
}
use lez_programs.Stablecoin.State.{
  Position, ProtocolParameters, StabilityFeeAccumulator, RedemptionPriceState, StablecoinHost,
}
use lez_programs.Stablecoin.Positions.Security.{IsSecure, assert_secure-IsSecure, Outcome}
use lez_programs.Stablecoin.Positions.Collateral.{
  WithdrawAccounts, release, assert_withdrawal, check_withdraw, withdraw_diffs, release_call,
  withdraw_collateral,
}

-- What `withdraw_collateral` reads.
abbrev pub WithdrawRead : Type 0
WithdrawRead =
    Position × ProtocolParameters × StabilityFeeAccumulator × RedemptionPriceState × ℕ × ℕ

-- No collateral moves, there is no debt, or the position is secure at the rate and the price of
-- now.
pub data Withdrawable (position : Position) (amount : ℕ) (parameters : ProtocolParameters)
    (accumulator : StabilityFeeAccumulator) (redemption : RedemptionPriceState) (now : ℕ)
    : Type 0 where
  nothing_moves : amount ≡ 0 → Withdrawable position amount parameters accumulator redemption now
  nothing_owed :
      position.normalized_debt_amount ≡ 0
      → Withdrawable position amount parameters accumulator redemption now
  still_secure :
      (rate price : ℕ)
      → compute_current_accumulated_rate_wide accumulator.accumulated_rate_at_last_accrual
          parameters.stability_fee_per_millisecond accumulator.last_accrued_at now
        ≡ ok rate
      → compute_current_redemption_price_wide redemption.redemption_price_at_last_update
          redemption.redemption_rate_per_millisecond redemption.last_updated_at now
        ≡ ok price
      → 0 < price
      → IsSecure position rate price parameters.minimum_collateralization_ratio
      → Withdrawable position amount parameters accumulator redemption now

assert_withdrawal-Withdrawable :
    (position : Position) (amount : ℕ) (parameters : ProtocolParameters)
    (accumulator : StabilityFeeAccumulator) (redemption : RedemptionPriceState) (now : ℕ)
    {u : Unit {0}}
    → IsU128 position.collateral_amount
    → 0 < parameters.minimum_collateralization_ratio
    → assert_withdrawal position amount parameters accumulator redemption now ≡ ok u
    → Withdrawable position amount parameters accumulator redemption now
unfolding assert_withdrawal
assert_withdrawal-Withdrawable position amount parameters accumulator redemption now {u} hc hr e =
    elim (Bool-cases (amount == 0)) [
      | inl none_moves ↦ nothing_moves (==→eq amount 0 none_moves)
      | inr some_moves ↦ elim (Bool-cases (position.normalized_debt_amount == 0)) [
        | inl none_owed ↦ nothing_owed (==→eq position.normalized_debt_amount 0 none_owed)
        | inr some_owed ↦
            (let e₀ : _ ≡ ok u = rw (some_moves, some_owed) at e in
              let (rate, r, e₁) =
                bind-eq-ok
                  (compute_current_accumulated_rate_wide
                    accumulator.accumulated_rate_at_last_accrual
                    parameters.stability_fee_per_millisecond accumulator.last_accrued_at now)
                  _ e₀ in
              let (price, p, pos, secure) =
                assert_secure-IsSecure position rate redemption now parameters hc hr e₁ in
              still_secure rate price r p pos secure)
      ]
    ]

module _ {Data : Type 0} (h : StablecoinHost Data) where
  -- A withdrawal: the position loses the amount, which its vault pays out.
  abbrev pub Withdrawal : WithdrawAccounts Data → ℕ → WithdrawRead → Outcome Data → Type 0
  Withdrawal a amount (position, parameters, accumulator, redemption, now, vault_seed)
        (diffs, calls) =
      let position' : Position = record position {
        collateral_amount = position.collateral_amount - amount;
      } in
      (amount ≤ position.collateral_amount)
      × (diffs ≡ withdraw_diffs h a position')
      × (calls ≡ release_call h a vault_seed amount ∷ [])
      × Withdrawable position' amount parameters accumulator redemption now

  -- On accounts that pass the checks, where the stored collateral is a 128-bit number and the
  -- minimum ratio is not 0, a call of `withdraw_collateral` that does not panic takes the amount,
  -- which is at most the collateral, off the position, transfers exactly it out of the vault, and
  -- leaves a position without debt or one whose debt times the rate, the price and the ratio of
  -- now is within its collateral, unless the amount is 0.
  pub withdraw_collateral-Withdrawal :
      (a : WithdrawAccounts Data) (program : AccountId) (amount : ℕ) (position : Position)
      (parameters : ProtocolParameters) (accumulator : StabilityFeeAccumulator)
      (redemption : RedemptionPriceState) (now vault_seed : ℕ) {outcome : Outcome Data}
      → IsU128 position.collateral_amount
      → 0 < parameters.minimum_collateralization_ratio
      → check_withdraw h a program
        ≡ ok (position, parameters, accumulator, redemption, now, vault_seed)
      → withdraw_collateral h a program amount ≡ ok outcome
      → Withdrawal a amount (position, parameters, accumulator, redemption, now, vault_seed) outcome
  unfolding withdraw_collateral release
  withdraw_collateral-Withdrawal a program amount position parameters accumulator redemption now
        vault_seed {outcome} hc hr checked e =
      let e₀ : _ ≡ ok outcome = rw checked at e in
      let (left, l, e₁) = bind-eq-ok (release position amount) _ e₀ in
      let (_, k, e₂) =
        bind-eq-ok (assert_withdrawal left amount parameters accumulator redemption now) _ e₁ in
      let (rest, r, l₁) =
        bind-eq-ok (expect (checked_sub position.collateral_amount amount) _) _ l in
      let (rest_eq, enough) =
        checked_sub-some position.collateral_amount amount (expect-eq-ok _ _ r) in
      let same : left
          ≡ record position { collateral_amount = position.collateral_amount - amount } =
        sym (ok-eq-ok {P = Panic} l₁)
        ∙ ap (λ (n : ℕ). record position { collateral_amount = n }) rest_eq in
      let k' =
        subst
          (λ (p : Position).
            assert_withdrawal p amount parameters accumulator redemption now ≡ ok tt)
          same k in
      let result = ok-eq-ok {P = Panic} {T = Outcome Data} e₂ in
      (
        enough,
        sym (ap (λ (o : Outcome Data). o.0) result) ∙ ap (withdraw_diffs h a) same,
        sym (ap (λ (o : Outcome Data). o.1) result),
        assert_withdrawal-Withdrawable
            (record position { collateral_amount = position.collateral_amount - amount }) amount
            parameters accumulator redemption now (omega arith) hr k',
      )
