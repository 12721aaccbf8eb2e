-- ===== src/Stablecoin/Globals/Advances.antt =====
-- That the combined refresh of programs/stablecoin/src/refresh_globals.rs advances the redemption
-- price as programs/stablecoin/src/update_redemption_rate.rs does.
use mathlib.Core.Path.{subst}
use lez_programs.Shared.{
  ℕ, ◌≡◌, ap, sym, ◌∙◌, List, [], ◌∷◌, Option, some, ok, bind-eq-ok, guard-eq-ok, ok-eq-ok,
  some-eq-some,
}
use lez_programs.Host.{AccountId, AccountWithMetadata, new, unchanged}
use lez_programs.Twap.Core.{OraclePriceAccount}
use lez_programs.Stablecoin.Core.{Panic}
use lez_programs.Stablecoin.State.{ProtocolParameters, RedemptionPriceState, StablecoinHost}
use lez_programs.Stablecoin.Checks.{FeeAccrual, accrue_fees, read_clock, surplus_mint_call}
use lez_programs.Amm.Core.{ChainedCall}
use lez_programs.Stablecoin.Globals.Accruals.{accrual_diffs, accrue_stability_fee-accrues}
use lez_programs.Stablecoin.Globals.{
  accrue_stability_fee, AccrueAccounts, UpdateAccounts, usable_price, refresh_redemption,
  decode_fee_accrual_inputs, decode_redemption_inputs, read_oracle, update_redemption_rate,
  redemption_diff, refresh_globals,
}
use lez_programs.Stablecoin.Positions.Security.{Outcome}
use lez_programs.Stablecoin.Globals.Updates.{
  refresh_redemption-advances, fee_parameters, redemption_parameters,
  update_redemption_rate-Updated,
}

module _ {Data : Type 0} (h : StablecoinHost Data) where
  -- What a successful refresh wrote, for the state of the redemption price that it leaves: the
  -- accumulator that an accrual on the same accounts writes, with the calls of that accrual.
  abbrev pub Refreshed :
      AccrueAccounts Data
      → AccountWithMetadata Data
      → AccountWithMetadata Data
      → AccountId
      → Option RedemptionPriceState
      → Outcome Data
      → Type 0
  Refreshed a redemption_price_state market_price_oracle program refreshed (diffs, calls) =
      (accrual : FeeAccrual) × (accrue_stability_fee h a program
        ≡ ok (
          unchanged a.caller
              ∷ unchanged a.protocol_parameters
              ∷ new a.stability_fee_accumulator (h.accumulators.into accrual.accumulator)
              ∷ unchanged a.stablecoin_definition
              ∷ unchanged a.stablecoin_master_holding
              ∷ unchanged a.clock
              ∷ [],
          calls,
        ))
      × (diffs ≡ (
          unchanged a.caller
          ∷ unchanged a.protocol_parameters
          ∷ new a.stability_fee_accumulator (h.accumulators.into accrual.accumulator)
          ∷ unchanged a.stablecoin_definition
          ∷ unchanged a.stablecoin_master_holding
          ∷ redemption_diff h redemption_price_state refreshed
          ∷ unchanged market_price_oracle
          ∷ unchanged a.clock
          ∷ []))

  abbrev Accrues : AccrueAccounts Data → AccountId → FeeAccrual → List ChainedCall → Type 0
  Accrues a program accrual calls =
      accrue_stability_fee h a program
      ≡ ok (unchanged a.caller ∷ unchanged a.protocol_parameters ∷ accrual_diffs h a accrual, calls)

  refresh_globals-Refreshed :
      (a : AccrueAccounts Data) (rp mo : AccountWithMetadata Data) (program : AccountId)
      (params : ProtocolParameters) (redemption : RedemptionPriceState)
      (oracle : Option OraclePriceAccount) (now : ℕ) {outcome : Outcome Data}
      → decode_redemption_inputs h a.protocol_parameters rp program ≡ ok (params, redemption)
      → read_oracle h mo params ≡ ok oracle
      → read_clock h a.clock ≡ ok now
      → refresh_globals h a rp mo program ≡ ok outcome
      → (refreshed : Option RedemptionPriceState) × (refresh_redemption params redemption
            (usable_price oracle params now)
            now
          ≡ ok refreshed)
        × Refreshed a rp mo program refreshed outcome
  unfolding refresh_globals
  refresh_globals-Refreshed a rp mo program params redemption oracle now {outcome} d o t e =
      let (signed, e₁) = guard-eq-ok a.caller.is_authorized _ _ e in
      let ((params', accumulator), f, e₂) =
        bind-eq-ok
          (decode_fee_accrual_inputs h a.protocol_parameters a.stability_fee_accumulator program) _
          e₁ in
      let same_params : params ≡ params' = some-eq-some (
        sym (redemption_parameters h a.protocol_parameters rp program d)
        ∙ fee_parameters h a.protocol_parameters a.stability_fee_accumulator program f) in
      let o' : read_oracle h mo params' ≡ ok oracle = ap (read_oracle h mo) (sym same_params) ∙ o in
      let e₃ : _ ≡ ok outcome = rw (d, o', t) at e₂ in
      let (accrual, accrued, e₄) = bind-eq-ok (accrue_fees params' accumulator now) _ e₃ in
      let (surplus, minted, e₅) =
        bind-eq-ok
          (surplus_mint_call h a.stablecoin_definition a.stablecoin_master_holding params' program
            accrual.accrued_fees)
          _ e₄ in
      let (refreshed, r, e₆) =
        bind-eq-ok (refresh_redemption params' redemption (usable_price oracle params' now) now) _
          e₅ in
      let same = ok-eq-ok {P = Panic} {T = Outcome Data} e₆ in
      let accrues =
        accrue_stability_fee-accrues h a program params' accumulator now accrual surplus signed f t
          accrued minted in
      (
        refreshed,
        ap
              (λ (p : ProtocolParameters).
                refresh_redemption p redemption (usable_price oracle p now) now)
              same_params
            ∙ r,
        (
          accrual,
          subst (Accrues a program accrual) (ap (λ (x : Outcome Data). x.1) same) accrues,
          sym (ap (λ (x : Outcome Data). x.0) same),
        ),
      )

  -- Where a call of `update_redemption_rate` succeeds, a call of `refresh_globals` on the same
  -- parameters, redemption state, oracle and clock that does not panic writes the same redemption
  -- state, and writes the accumulator and makes the calls that an accrual of the fee by the same
  -- caller on the same accounts writes and makes.
  pub update_redemption_rate-refresh_globals :
      (a : AccrueAccounts Data) (caller rp mo : AccountWithMetadata Data) (program : AccountId)
      {strict combined : Outcome Data}
      → update_redemption_rate h
          (record {
            caller = caller;
            protocol_parameters = a.protocol_parameters;
            redemption_price_state = rp;
            market_price_oracle = mo;
            clock = a.clock;
          })
          program
        ≡ ok strict
      → refresh_globals h a rp mo program ≡ ok combined
      → (state : RedemptionPriceState) × (strict.0 ≡ (
          unchanged caller
          ∷ unchanged a.protocol_parameters
          ∷ new rp (h.redemptions.into state)
          ∷ unchanged mo
          ∷ unchanged a.clock
          ∷ []))
        × Refreshed a rp mo program (some state) combined
  update_redemption_rate-refresh_globals a caller rp mo program {strict} {combined} e e' =
      let u : UpdateAccounts Data = record {
        caller = caller;
        protocol_parameters = a.protocol_parameters;
        redemption_price_state = rp;
        market_price_oracle = mo;
        clock = a.clock;
      } in
      let (params, redemption, oracle, now, state, d, o, t, fresh, positive, due, s, diffs) =
        update_redemption_rate-Updated h u program e in
      let (refreshed, r, wrote) =
        refresh_globals-Refreshed a rp mo program params redemption (some oracle) now d o t e' in
      let through =
        refresh_redemption-advances params redemption oracle now state fresh positive due s in
      let same : refreshed ≡ some state = ok-eq-ok {P = Panic} (sym r ∙ through) in
      (
        state,
        diffs,
        subst (λ (x : Option RedemptionPriceState). Refreshed a rp mo program x combined) same
            wrote,
      )
