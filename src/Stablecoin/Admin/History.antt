-- ===== src/Stablecoin/Admin/History.antt =====
-- The parameters of the stablecoin from the bootstrap on: programs/stablecoin/src/admin.rs,
-- initialize_program.rs and freeze.rs.
use mathlib.Core.Path.{subst}
use lez_programs.Shared.{
  ◌≡◌, ap, sym, ◌∙◌, Bool, ◌==◌, List, [], ◌∷◌, some, ok, guard-eq-ok, ok-eq-ok, some-eq-some,
}
use lez_programs.Host.{AccountId, AccountWithMetadata, AccountStateDiff, new, unchanged, RoundTrips}
use lez_programs.Stablecoin.Core.{Panic}
use lez_programs.Stablecoin.State.{ProtocolParameters, StablecoinHost}
use lez_programs.Stablecoin.Checks.{read_parameters}
use lez_programs.Stablecoin.Positions.Security.{Outcome}
use lez_programs.Stablecoin.Globals.{set_frozen}
use lez_programs.Stablecoin.Admin.{AdminInstruction, AdminAccounts, run_admin}
use lez_programs.Stablecoin.Admin.Bootstrap.{
  InitializeAccounts, InitializeProgramParams, initialize_program,
}
use lez_programs.Stablecoin.Admin.Bands.{InBands, Tuned}
use lez_programs.Stablecoin.Admin.Founding.{initialize_program_lem}
use lez_programs.Stablecoin.Admin.Tuning.{handles-Tuned, run_admin-Retuned}

module _ {Data : Type 0} (h : StablecoinHost Data) where
  set_frozen_lem :
      (authority pp : AccountWithMetadata Data) (program : AccountId) (freeze : Bool)
      (p : ProtocolParameters) (outcome : Outcome Data)
      → read_parameters h pp program ≡ ok p
      → set_frozen h authority pp program freeze ≡ ok outcome
      → outcome.0
        ≡ unchanged authority ∷ new pp (h.parameters.into (record p { is_frozen = freeze })) ∷ []
  unfolding set_frozen
  set_frozen_lem authority pp program freeze p outcome read e =
      let (_, e₁) = guard-eq-ok authority.is_authorized _ _ e in
      let e₂ : _ ≡ ok outcome = rw read at e₁ in
      let (_, e₃) = guard-eq-ok (authority.account_id == p.freeze_authority_account_id) _ _ e₂ in
      ap (λ (x : Outcome Data). x.0) (sym (ok-eq-ok {P = Panic} {T = Outcome Data} e₃))

  -- The stored parameters of a protocol bootstrapped for two definitions, as the bootstrap stored
  -- them or after instructions of the admin and freezes that each read what the one before stored.
  pub data Administered (stablecoin collateral : AccountId) : ProtocolParameters → Type 0 where
    bootstrapped :
        (a : InitializeAccounts Data) (program : AccountId) (params : InitializeProgramParams)
        (outcome : Outcome Data) (stored : Data) (others : List (AccountStateDiff Data))
        (q : ProtocolParameters)
        → a.stablecoin_definition.account_id ≡ stablecoin
        → a.collateral_definition.account_id ≡ collateral
        → initialize_program h a program params ≡ ok outcome
        → outcome.0 ≡ unchanged a.admin ∷ new a.protocol_parameters stored ∷ others
        → h.parameters.try_from stored ≡ some q
        → Administered stablecoin collateral q
    retuned :
        {q : ProtocolParameters} (a : AdminAccounts Data) (program : AccountId)
        (i : AdminInstruction) (outcome : Outcome Data) (stored : Data)
        (others : List (AccountStateDiff Data)) (r : ProtocolParameters)
        → Administered stablecoin collateral q
        → read_parameters h a.protocol_parameters program ≡ ok q
        → run_admin h a program i ≡ ok outcome
        → outcome.0 ≡ unchanged a.admin ∷ new a.protocol_parameters stored ∷ others
        → h.parameters.try_from stored ≡ some r
        → Administered stablecoin collateral r
    refrozen :
        {q : ProtocolParameters} (authority pp : AccountWithMetadata Data) (program : AccountId)
        (freeze : Bool) (outcome : Outcome Data) (stored : Data)
        (others : List (AccountStateDiff Data)) (r : ProtocolParameters)
        → Administered stablecoin collateral q
        → read_parameters h pp program ≡ ok q
        → set_frozen h authority pp program freeze ≡ ok outcome
        → outcome.0 ≡ unchanged authority ∷ new pp stored ∷ others
        → h.parameters.try_from stored ≡ some r
        → Administered stablecoin collateral r

  same_data :
      {a b : AccountWithMetadata Data} {s t : Data} {xs ys : List (AccountStateDiff Data)}
      → ◌≡◌ {A = List (AccountStateDiff Data)}
          (unchanged a ∷ new b s ∷ xs)
          (unchanged a ∷ new b t ∷ ys)
      → s ≡ t
  same_data e = cc

  -- The bands hold, and the two definitions are those.
  abbrev pub Sound : AccountId → AccountId → ProtocolParameters → Type 0
  Sound stablecoin collateral q =
      InBands q
      × (q.stablecoin_definition_id ≡ stablecoin)
      × (q.collateral_definition_id ≡ collateral)

  -- What is written and read again is what was meant.
  stored-is :
      {p q : ProtocolParameters} {a b : AccountWithMetadata Data} {stored : Data}
      {xs ys diffs : List (AccountStateDiff Data)}
      → RoundTrips h.parameters
      → diffs ≡ unchanged a ∷ new b (h.parameters.into p) ∷ xs
      → diffs ≡ unchanged a ∷ new b stored ∷ ys
      → h.parameters.try_from stored ≡ some q
      → p ≡ q
  stored-is {p} codec written shape decoded =
      some-eq-some
        (sym (codec p) ∙ ap h.parameters.try_from (same_data (sym written ∙ shape)) ∙ decoded)

  Tuned-Sound :
      {stablecoin collateral : AccountId} (q tuned : ProtocolParameters)
      → Sound stablecoin collateral q
      → Tuned q tuned
      → Sound stablecoin collateral tuned
  Tuned-Sound q tuned (bands, s, c) (keeps, same) =
      (keeps bands, same.stablecoin ∙ s, same.collateral ∙ c)

  -- The bootstrap of the protocol stores a fee, ratio, gains and times within the bands of the
  -- specification, and the two definitions of its accounts; whatever instructions of the admin and
  -- freezes follow it, the stored parameters stay within the bands and keep the two definitions.
  -- The codec of parameters round-trips.
  pub Administered-InBands :
      {stablecoin collateral : AccountId} {q : ProtocolParameters}
      → RoundTrips h.parameters
      → Administered stablecoin collateral q
      → InBands q
        × (q.stablecoin_definition_id ≡ stablecoin)
        × (q.collateral_definition_id ≡ collateral)
  Administered-InBands {stablecoin} {collateral} codec
        (bootstrapped a program params outcome stored others q same_s same_c e shape decoded) =
      let (bands, x) = initialize_program_lem h a program params e in
      subst (Sound stablecoin collateral) (stored-is codec x.written shape decoded)
        (bands, same_s, same_c)
  Administered-InBands {stablecoin} {collateral} codec
        (retuned {q} a program i outcome stored others r before read ran shape decoded) =
      let x = run_admin-Retuned h a program i q outcome read ran in
      subst (Sound stablecoin collateral) (stored-is codec x.written shape decoded)
        (Tuned-Sound q x.tuned (Administered-InBands codec before) x.keeps)
  Administered-InBands {stablecoin} {collateral} codec
        (refrozen {q} authority pp program freeze outcome stored others r before read ran shape
          decoded) =
      let written = set_frozen_lem authority pp program freeze q outcome read ran in
      subst (Sound stablecoin collateral) (stored-is codec written shape decoded) (
        Tuned-Sound q (record q { is_frozen = freeze }) (Administered-InBands codec before)
          (handles-Tuned q q.admin_account_id q.freeze_authority_account_id q.market_price_oracle_id
            freeze))
