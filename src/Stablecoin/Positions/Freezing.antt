-- ===== src/Stablecoin/Positions/Freezing.antt =====
-- That a frozen protocol refuses what could weaken it: programs/stablecoin/src/open_position.rs,
-- withdraw_collateral.rs and generate_debt.rs.
use lez_programs.Shared.{
  ℕ, arith, ◌≡◌, ◌≢◌, ap, sym, ◌∙◌, true, not, Result, ok, bind-eq-ok, guard-eq-ok, ok-eq-ok,
}
use lez_programs.Host.{AccountId, AccountWithMetadata}
use lez_programs.Stablecoin.Core.{Panic}
use lez_programs.Stablecoin.State.{ProtocolParameters, StablecoinHost}
use lez_programs.Stablecoin.Checks.{read_parameters, read_position}
use lez_programs.Stablecoin.Positions.Debt.{GenerateAccounts, check_generate, generate_debt}
use lez_programs.Stablecoin.Positions.Collateral.{
  WithdrawAccounts, check_withdraw, withdraw_collateral,
}
use lez_programs.Stablecoin.Positions.Lifecycle.{OpenAccounts, check_open, open_position}
use lez_programs.Stablecoin.Positions.Security.{Outcome, GenerateRead}
use lez_programs.Stablecoin.Positions.Withdrawals.{WithdrawRead}

frozen_lem :
    {parameters parameters' : ProtocolParameters}
    → ◌≡◌ {A = Result Panic ProtocolParameters} (ok parameters) (ok parameters')
    → parameters.is_frozen ≡ true
    → not parameters'.is_frozen ≢ true
frozen_lem {parameters} {parameters'} same frozen thawed =
    let is_frozen = ap (λ (p : ProtocolParameters). p.is_frozen) (ok-eq-ok {P = Panic} same) in
    ground arith

module _ {Data : Type 0} (h : StablecoinHost Data) where
  check_generate-frozen :
      (a : GenerateAccounts Data) (program : AccountId) (parameters : ProtocolParameters)
      → read_parameters h a.protocol_parameters program ≡ ok parameters
      → parameters.is_frozen ≡ true
      → (outcome : GenerateRead) → check_generate h a program ≢ ok outcome
  unfolding check_generate
  check_generate-frozen a program parameters read frozen outcome e =
      let (_, e₁) = guard-eq-ok a.owner.is_authorized _ _ e in
      let (_, _, e₂) = bind-eq-ok (read_position h a.owner a.position program) _ e₁ in
      let (found, r, e₃) = bind-eq-ok (read_parameters h a.protocol_parameters program) _ e₂ in
      let (thawed, _) = guard-eq-ok (not found.is_frozen) _ _ e₃ in
      frozen_lem (sym read ∙ r) frozen thawed

  check_withdraw-frozen :
      (a : WithdrawAccounts Data) (program : AccountId) (parameters : ProtocolParameters)
      → read_parameters h a.protocol_parameters program ≡ ok parameters
      → parameters.is_frozen ≡ true
      → (outcome : WithdrawRead) → check_withdraw h a program ≢ ok outcome
  unfolding check_withdraw
  check_withdraw-frozen a program parameters read frozen outcome e =
      let (found, r, e₁) = bind-eq-ok (read_parameters h a.protocol_parameters program) _ e in
      let (thawed, _) = guard-eq-ok (not found.is_frozen) _ _ e₁ in
      frozen_lem (sym read ∙ r) frozen thawed

  check_open-frozen :
      (a : OpenAccounts Data) (program : AccountId) (nonce : ℕ) (parameters : ProtocolParameters)
      → read_parameters h a.protocol_parameters program ≡ ok parameters
      → parameters.is_frozen ≡ true
      → (outcome : ℕ × ℕ) → check_open h a program nonce ≢ ok outcome
  unfolding check_open
  check_open-frozen a program nonce parameters read frozen outcome e =
      let (_, e₁) = guard-eq-ok a.owner.is_authorized _ _ e in
      let (_, e₂) = guard-eq-ok a.user_collateral_holding.is_authorized _ _ e₁ in
      let (_, e₃) = guard-eq-ok (h.is_default a.position.account) _ _ e₂ in
      let (_, e₄) = guard-eq-ok (h.is_default a.vault.account) _ _ e₃ in
      let (found, r, e₅) = bind-eq-ok (read_parameters h a.protocol_parameters program) _ e₄ in
      let (thawed, _) = guard-eq-ok (not found.is_frozen) _ _ e₅ in
      frozen_lem (sym read ∙ r) frozen thawed

  -- While the parameters say that the protocol is frozen, a call of `generate_debt`,
  -- `withdraw_collateral` or `open_position` never succeeds, whatever its other accounts and its
  -- amounts are.
  pub frozen-Refused :
      (a : GenerateAccounts Data) (b : WithdrawAccounts Data) (c : OpenAccounts Data)
      (program : AccountId) (parameters : ProtocolParameters) (loan payout nonce deposit : ℕ)
      (x y z : Outcome Data)
      → read_parameters h a.protocol_parameters program ≡ ok parameters
      → b.protocol_parameters ≡ a.protocol_parameters
      → c.protocol_parameters ≡ a.protocol_parameters
      → parameters.is_frozen ≡ true
      → (generate_debt h a program loan ≢ ok x)
        × (withdraw_collateral h b program payout ≢ ok y)
        × (open_position h c program nonce deposit ≢ ok z)
  unfolding generate_debt withdraw_collateral open_position
  frozen-Refused a b c program parameters loan payout nonce deposit x y z read same_b same_c
        frozen =
      let read_b =
        ap (λ (d : AccountWithMetadata Data). read_parameters h d program) same_b ∙ read in
      let read_c =
        ap (λ (d : AccountWithMetadata Data). read_parameters h d program) same_c ∙ read in
      (
        λ e.
            (let (found, checks, _) = bind-eq-ok (check_generate h a program) _ e in
              check_generate-frozen a program parameters read frozen found checks),
        λ e.
            (let (found, checks, _) = bind-eq-ok (check_withdraw h b program) _ e in
              check_withdraw-frozen b program parameters read_b frozen found checks),
        λ e.
            (let (found, checks, _) = bind-eq-ok (check_open h c program nonce) _ e in
              check_open-frozen c program nonce parameters read_c frozen found checks),
      )
