-- ===== src/Stablecoin/Globals/Updates.antt =====
-- What programs/stablecoin/src/update_redemption_rate.rs reads and writes where it succeeds.

use lez_programs.Shared.{
  ℕ, ◌≡◌, refl, ap, sym, ◌∙◌, true, not, ltb, ◌==◌, [], ◌∷◌, some, ok, expect, bind-eq-ok,
  guard-eq-ok, expect-eq-ok, ok-eq-ok,
}
use lez_programs.Host.{AccountId, AccountWithMetadata, new, unchanged}
use lez_programs.Twap.Core.{OraclePriceAccount}
use lez_programs.Stablecoin.Core.{Panic}
use lez_programs.Stablecoin.State.{
  ProtocolParameters, StabilityFeeAccumulator, RedemptionPriceState, StablecoinHost,
  compute_redemption_price_state_pda, compute_stability_fee_accumulator_pda,
}
use lez_programs.Stablecoin.Checks.{decode_global, read_clock}
use lez_programs.Stablecoin.Globals.{
  UpdateAccounts, advance_redemption_price, is_fresh, interval_due, usable_price,
  refresh_redemption, decode_fee_accrual_inputs, decode_redemption_inputs, read_oracle,
  update_redemption_rate,
}
use lez_programs.Stablecoin.Positions.Security.{Outcome}

-- Where the strict gates hold, the soft ones let the same update through.
pub refresh_redemption-advances :
    (params : ProtocolParameters) (redemption : RedemptionPriceState) (oracle : OraclePriceAccount)
    (now : ℕ) (state : RedemptionPriceState)
    → is_fresh oracle params now ≡ true
    → ltb 0 oracle.price ≡ true
    → interval_due redemption params now ≡ true
    → advance_redemption_price params redemption oracle.price now ≡ ok state
    → refresh_redemption params redemption (usable_price (some oracle) params now) now
      ≡ ok (some state)
unfolding refresh_redemption
refresh_redemption-advances params redemption oracle now state fresh positive due advanced =
    rw (fresh, positive, due, advanced) refl

module _ {Data : Type 0} (h : StablecoinHost Data) where
  pub fee_parameters :
      (protocol_parameters stability_fee_accumulator : AccountWithMetadata Data)
      (program : AccountId) {params : ProtocolParameters} {accumulator : StabilityFeeAccumulator}
      → decode_fee_accrual_inputs h protocol_parameters stability_fee_accumulator program
        ≡ ok (params, accumulator)
      → h.parameters.try_from protocol_parameters.account.account_data ≡ some params
  unfolding decode_fee_accrual_inputs
  fee_parameters pp acc program e =
      let (_, e₁) = guard-eq-ok (not (h.is_default pp.account)) _ _ e in
      let (_, e₂) = guard-eq-ok (pp.account.program_owner == program) _ _ e₁ in
      let (content, _, e₃) =
        bind-eq-ok (decode_global h acc (compute_stability_fee_accumulator_pda h program) program) _
          e₂ in
      let (found, p, e₄) =
        bind-eq-ok (expect (h.parameters.try_from pp.account.account_data) _) _ e₃ in
      let (_, _, e₅) = bind-eq-ok (expect (h.accumulators.try_from content) _) _ e₄ in
      let same = ok-eq-ok {P = Panic} {T = ProtocolParameters × StabilityFeeAccumulator} e₅ in
      expect-eq-ok _ _ p ∙ ap (λ (x : ProtocolParameters × StabilityFeeAccumulator). some x.0) same

  pub redemption_parameters :
      (protocol_parameters redemption_price_state : AccountWithMetadata Data) (program : AccountId)
      {params : ProtocolParameters} {redemption : RedemptionPriceState}
      → decode_redemption_inputs h protocol_parameters redemption_price_state program
        ≡ ok (params, redemption)
      → h.parameters.try_from protocol_parameters.account.account_data ≡ some params
  unfolding decode_redemption_inputs
  redemption_parameters pp state program e =
      let (_, e₁) = guard-eq-ok (not (h.is_default pp.account)) _ _ e in
      let (_, e₂) = guard-eq-ok (pp.account.program_owner == program) _ _ e₁ in
      let (content, _, e₃) =
        bind-eq-ok (decode_global h state (compute_redemption_price_state_pda h program) program) _
          e₂ in
      let (found, p, e₄) =
        bind-eq-ok (expect (h.parameters.try_from pp.account.account_data) _) _ e₃ in
      let (_, _, e₅) = bind-eq-ok (expect (h.redemptions.try_from content) _) _ e₄ in
      let same = ok-eq-ok {P = Panic} {T = ProtocolParameters × RedemptionPriceState} e₅ in
      expect-eq-ok _ _ p ∙ ap (λ (x : ProtocolParameters × RedemptionPriceState). some x.0) same

  -- What a successful update read and wrote.
  abbrev pub Updated : UpdateAccounts Data → AccountId → Outcome Data → Type 0
  Updated u program (diffs, calls) =
      (params : ProtocolParameters) × (redemption : RedemptionPriceState)
      × (oracle : OraclePriceAccount) × (now : ℕ) × (state : RedemptionPriceState)
      × (decode_redemption_inputs h u.protocol_parameters u.redemption_price_state program
          ≡ ok (params, redemption))
      × (read_oracle h u.market_price_oracle params ≡ ok (some oracle))
      × (read_clock h u.clock ≡ ok now)
      × (is_fresh oracle params now ≡ true)
      × (ltb 0 oracle.price ≡ true)
      × (interval_due redemption params now ≡ true)
      × (advance_redemption_price params redemption oracle.price now ≡ ok state)
      × (diffs ≡ (
          unchanged u.caller
          ∷ unchanged u.protocol_parameters
          ∷ new u.redemption_price_state (h.redemptions.into state)
          ∷ unchanged u.market_price_oracle
          ∷ unchanged u.clock
          ∷ []))

  pub update_redemption_rate-Updated :
      (u : UpdateAccounts Data) (program : AccountId) {outcome : Outcome Data}
      → update_redemption_rate h u program ≡ ok outcome
      → Updated u program outcome
  unfolding update_redemption_rate
  update_redemption_rate-Updated u program {outcome} e =
      let (_, e₁) = guard-eq-ok u.caller.is_authorized _ _ e in
      let ((params, redemption), d, e₂) =
        bind-eq-ok
          (decode_redemption_inputs h u.protocol_parameters u.redemption_price_state program) _
          e₁ in
      let (_, e₃) = guard-eq-ok (not (h.is_default u.market_price_oracle.account)) _ _ e₂ in
      let (read, r, e₄) = bind-eq-ok (read_oracle h u.market_price_oracle params) _ e₃ in
      let (oracle, o, e₅) = bind-eq-ok (expect read Panic.no_oracle_price) _ e₄ in
      let (now, t, e₆) = bind-eq-ok (read_clock h u.clock) _ e₅ in
      let (fresh, e₇) = guard-eq-ok (is_fresh oracle params now) _ _ e₆ in
      let (positive, e₈) = guard-eq-ok (ltb 0 oracle.price) _ _ e₇ in
      let (due, e₉) = guard-eq-ok (interval_due redemption params now) _ _ e₈ in
      let (state, s, e₁₀) =
        bind-eq-ok (advance_redemption_price params redemption oracle.price now) _ e₉ in
      let same = ok-eq-ok {P = Panic} {T = Outcome Data} e₁₀ in
      (
        params,
        redemption,
        oracle,
        now,
        state,
        d,
        r ∙ ap ok (expect-eq-ok _ _ o),
        t,
        fresh,
        positive,
        due,
        s,
        sym (ap (λ (x : Outcome Data). x.0) same),
      )
