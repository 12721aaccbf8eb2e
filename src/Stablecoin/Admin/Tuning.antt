-- ===== src/Stablecoin/Admin/Tuning.antt =====
-- Who may tune the stablecoin, and what a tuning keeps: programs/stablecoin/src/admin.rs.
use mathlib.Core.Path.{subst}
use lez_programs.Shared.{
  ℕ, ◌≡◌, refl, ap, sym, ◌∙◌, arith, Bool, true, List, [], ◌∷◌, ◌++◌, Result, ok, bind-eq-ok,
  ok-eq-ok,
}
use lez_programs.Host.{AccountId, AccountWithMetadata, AccountStateDiff, new, unchanged}
use lez_programs.Stablecoin.Core.{Panic}
use lez_programs.Stablecoin.State.{ProtocolParameters, StablecoinHost}
use lez_programs.Stablecoin.Checks.{
  accrue_fees, read_parameters, read_accumulator, read_clock, surplus_mint_call,
}
use lez_programs.Stablecoin.Positions.Security.{Outcome}
use lez_programs.Stablecoin.Admin.{
  assert_stability_fee_in_band, tune_ratio, tune_gains, tune_timing, AdminInstruction,
  AdminAccounts, assert_admin_authorized, update_parameters, assert_quotes, tune_oracle,
  set_stability_fee, set_oracle, run_admin,
}
use lez_programs.Stablecoin.Admin.Bands.{
  InBands, SameMarket, Tuned, tune_ratio-Tuned, tune_gains-Tuned, tune_timing-Tuned, fee_lem,
}

-- The handles and the freeze are no part of the bands.
pub handles-Tuned :
    (p : ProtocolParameters) (admin freeze_authority oracle : AccountId) (freeze : Bool)
    → Tuned p (record p {
      admin_account_id = admin;
      freeze_authority_account_id = freeze_authority;
      market_price_oracle_id = oracle;
      is_frozen = freeze;
    })
handles-Tuned p admin freeze_authority oracle freeze = (
  λ b. record {
    fee = b.fee;
    ratio = b.ratio;
    proportional = b.proportional;
    integral = b.integral;
    interval = b.interval;
    age = b.age;
  },
  record { stablecoin = refl; collateral = refl },
)

module _ {Data : Type 0} (h : StablecoinHost Data) where
  assert_admin_authorized_lem :
      (admin : AccountWithMetadata Data) (p : ProtocolParameters)
      → assert_admin_authorized h admin p ≡ ok tt
      → (admin.is_authorized ≡ true) × (admin.account_id ≡ p.admin_account_id)
  unfolding assert_admin_authorized
  assert_admin_authorized_lem admin p e = ground arith

  -- The admin that the parameters name has signed, and the parameters that are written keep the
  -- market, and the bands if they hold.
  pub record Retuned (p : ProtocolParameters) (admin protocol_parameters : AccountWithMetadata Data)
      (diffs : List (AccountStateDiff Data)) : Type 0 where
    pub signed : admin.is_authorized ≡ true
    pub is_admin : admin.account_id ≡ p.admin_account_id
    pub tuned : ProtocolParameters
    pub keeps : Tuned p tuned
    pub others : List (AccountStateDiff Data)
    pub written :
        diffs ≡ unchanged admin ∷ new protocol_parameters (h.parameters.into tuned) ∷ others

  update_parameters-Retuned :
      (admin pp : AccountWithMetadata Data) (program : AccountId)
      (mutate : ProtocolParameters → Result Panic ProtocolParameters) (p : ProtocolParameters)
      (outcome : Outcome Data)
      → ((q : ProtocolParameters) → mutate p ≡ ok q → Tuned p q)
      → read_parameters h pp program ≡ ok p
      → update_parameters h admin pp program mutate ≡ ok outcome
      → Retuned p admin pp outcome.0
  unfolding update_parameters
  update_parameters-Retuned admin pp program mutate p outcome tunes read e =
      let e₀ : _ ≡ ok outcome = rw read at e in
      let (_, authorized, e₁) = bind-eq-ok (assert_admin_authorized h admin p) _ e₀ in
      let (q, mutated, e₂) = bind-eq-ok (mutate p) _ e₁ in
      let (signed, is_admin) = assert_admin_authorized_lem admin p authorized in
      let same = ok-eq-ok {P = Panic} {T = Outcome Data} e₂ in
      record {
        signed = signed;
        is_admin = is_admin;
        tuned = q;
        keeps = tunes q mutated;
        others = [];
        written = ap (λ (x : Outcome Data). x.0) (sym same);
      }

  tune_oracle-Tuned :
      (new_oracle : AccountWithMetadata Data) (p : ProtocolParameters) {q : ProtocolParameters}
      → tune_oracle h new_oracle p ≡ ok q
      → Tuned p q
  unfolding tune_oracle
  tune_oracle-Tuned new_oracle p e =
      let (_, _, e₁) = bind-eq-ok (assert_quotes h new_oracle _ _) _ e in
      subst (Tuned p) (ok-eq-ok {P = Panic} e₁) (
        handles-Tuned p p.admin_account_id p.freeze_authority_account_id new_oracle.account_id
          p.is_frozen)

  set_oracle-Retuned :
      (admin pp new_oracle : AccountWithMetadata Data) (program : AccountId)
      (p : ProtocolParameters) (outcome : Outcome Data)
      → read_parameters h pp program ≡ ok p
      → set_oracle h admin pp new_oracle program ≡ ok outcome
      → Retuned p admin pp outcome.0
  unfolding set_oracle
  set_oracle-Retuned admin pp new_oracle program p outcome read e =
      let (inner, updated, e₁) =
        bind-eq-ok (update_parameters h admin pp program (tune_oracle h new_oracle)) _ e in
      let x =
        update_parameters-Retuned admin pp program (tune_oracle h new_oracle) p inner
          (λ q mutated. tune_oracle-Tuned new_oracle p {q = q} mutated) read updated in
      let same = ok-eq-ok {P = Panic} {T = Outcome Data} e₁ in
      record {
        signed = x.signed;
        is_admin = x.is_admin;
        tuned = x.tuned;
        keeps = x.keeps;
        others = x.others ++ (unchanged new_oracle ∷ []);
        written =
            sym (ap (λ (y : Outcome Data). y.0) same)
            ∙ ap (λ (ds : List (AccountStateDiff Data)). ds ++ (unchanged new_oracle ∷ []))
                x.written;
      }

  set_stability_fee-Retuned :
      (a : AdminAccounts Data) (program : AccountId) (rate : ℕ) (p : ProtocolParameters)
      (outcome : Outcome Data)
      → read_parameters h a.protocol_parameters program ≡ ok p
      → set_stability_fee h a program rate ≡ ok outcome
      → Retuned p a.admin a.protocol_parameters outcome.0
  unfolding set_stability_fee
  set_stability_fee-Retuned a program rate p outcome read e =
      let e₀ : _ ≡ ok outcome = rw read at e in
      let (_, authorized, e₁) = bind-eq-ok (assert_admin_authorized h a.admin p) _ e₀ in
      let (_, fee, e₂) = bind-eq-ok (assert_stability_fee_in_band rate) _ e₁ in
      let (accumulator, _, e₃) =
        bind-eq-ok (read_accumulator h a.stability_fee_accumulator program) _ e₂ in
      let (now, _, e₄) = bind-eq-ok (read_clock h a.clock) _ e₃ in
      let (accrual, _, e₅) = bind-eq-ok (accrue_fees p accumulator now) _ e₄ in
      let (calls, _, e₆) =
        bind-eq-ok
          (surplus_mint_call h a.stablecoin_definition a.stablecoin_master_holding p program
            accrual.accrued_fees)
          _ e₅ in
      let (signed, is_admin) = assert_admin_authorized_lem a.admin p authorized in
      let same = ok-eq-ok {P = Panic} {T = Outcome Data} e₆ in
      record {
        signed = signed;
        is_admin = is_admin;
        tuned = record p { stability_fee_per_millisecond = rate };
        keeps = (
          λ bands. record {
            fee = fee_lem rate fee;
            ratio = bands.ratio;
            proportional = bands.proportional;
            integral = bands.integral;
            interval = bands.interval;
            age = bands.age;
          },
          record { stablecoin = refl; collateral = refl },
        );
        others =
            new a.stability_fee_accumulator (h.accumulators.into accrual.accumulator)
            ∷ unchanged a.stablecoin_definition
            ∷ unchanged a.stablecoin_master_holding
            ∷ unchanged a.clock
            ∷ [];
        written = ap (λ (x : Outcome Data). x.0) (sym same);
      }

  rename-Tuned :
      (p q r : ProtocolParameters)
      → (InBands p → InBands q) × SameMarket p q
      → ◌≡◌ {A = Result Panic ProtocolParameters} (ok q) (ok r)
      → Tuned p r
  rename-Tuned p q r keeps e = subst (Tuned p) (ok-eq-ok {P = Panic} e) keeps

  pub run_admin-Retuned :
      (a : AdminAccounts Data) (program : AccountId) (i : AdminInstruction) (p : ProtocolParameters)
      (outcome : Outcome Data)
      → read_parameters h a.protocol_parameters program ≡ ok p
      → run_admin h a program i ≡ ok outcome
      → Retuned p a.admin a.protocol_parameters outcome.0
  unfolding run_admin
  run_admin-Retuned a program (AdminInstruction.set_stability_fee_per_millisecond rate) p outcome
        read e =
      set_stability_fee-Retuned a program rate p outcome read e
  run_admin-Retuned a program (AdminInstruction.set_minimum_collateralization_ratio ratio) p outcome
        read e =
      update_parameters-Retuned a.admin a.protocol_parameters program (tune_ratio ratio) p outcome
        (λ q m. tune_ratio-Tuned ratio p {q = q} m) read e
  run_admin-Retuned a program (AdminInstruction.set_controller_gains proportional integral) p
        outcome read e =
      update_parameters-Retuned a.admin a.protocol_parameters program
        (tune_gains proportional integral) p outcome
        (λ q m. tune_gains-Tuned proportional integral p {q = q} m) read e
  run_admin-Retuned a program AdminInstruction.set_market_price_oracle p outcome read e =
      set_oracle-Retuned a.admin a.protocol_parameters a.new_oracle program p outcome read e
  run_admin-Retuned a program (AdminInstruction.set_timing_parameters interval age) p outcome read
        e =
      update_parameters-Retuned a.admin a.protocol_parameters program (tune_timing interval age) p
        outcome (λ q m. tune_timing-Tuned interval age p {q = q} m) read e
  run_admin-Retuned a program (AdminInstruction.set_admin id) p outcome read e =
      let renamed = record p { admin_account_id = id } in
      update_parameters-Retuned a.admin a.protocol_parameters program _ p outcome
        (λ q m.
          rename-Tuned p renamed q
            (handles-Tuned p id p.freeze_authority_account_id p.market_price_oracle_id p.is_frozen)
            m)
        read e
  run_admin-Retuned a program (AdminInstruction.set_freeze_authority id) p outcome read e =
      let renamed = record p { freeze_authority_account_id = id } in
      update_parameters-Retuned a.admin a.protocol_parameters program _ p outcome
        (λ q m.
          rename-Tuned p renamed q
            (handles-Tuned p p.admin_account_id id p.market_price_oracle_id p.is_frozen) m)
        read e
