-- ===== src/Amm/Admin/Governance.antt =====
-- Who governs an AMM instance, and what stays as it was initialized: programs/amm/src/initialize.rs,
-- update_config.rs and withdraw_protocol_fees.rs.
use mathlib.Core.Path.{subst}
use lez_programs.Shared.{
  ℕ, ◌<◌, ◌≤◌, ◌≡◌, ◌≢◌, refl, true, some, ok, ok-eq-ok, bind-eq-ok, guard-eq-ok, List, [], ◌∷◌,
  sym, ap, ◌∙◌, ==→eq, ◌==◌, leb, ltb, leb→le, ltb→lt, arith,
}
use lez_programs.Host.{AccountId, AccountWithMetadata, AccountStateDiff, new, unchanged, RoundTrips}
use lez_programs.Amm.Core.{
  Panic, AmmHost, AmmConfig, ChainedCall, transfer_call, inflow, outflow, fee_bps_denominator,
}
use lez_programs.Amm.Math.{assert_valid_swap_fee_bps, assert_valid_protocol_fee_bps}
use lez_programs.Amm.Pda.{
  compute_config_pda, compute_protocol_fee_pda, compute_protocol_fee_pda_seed,
}
use lez_programs.Amm.Accounts.{read_config, owned_by_token_program}
use lez_programs.Amm.Swap.{token_of}
use lez_programs.Amm.Admin.{initialize, check_admin, update_config, withdraw_protocol_fees}

-- Fees that the swap handlers can charge.
pub record HasValidFees (c : AmmConfig) : Type 0 where
  pub swap_fee : c.swap_fee_bps < fee_bps_denominator
  pub protocol_fee : c.protocol_fee_bps ≤ fee_bps_denominator

module _ {Data : Type 0} (h : AmmHost Data) where
  check_admin_lem :
      (c : AmmConfig) (authority : AccountWithMetadata Data)
      → check_admin h c authority ≡ ok tt
      → (authority.account_id ≡ c.authority) × (authority.is_authorized ≡ true)
  unfolding check_admin
  check_admin_lem c authority e = ground arith

  initialize_lem :
      (owner config : AccountWithMetadata Data) (nonce : List ℕ) (c : AmmConfig)
      (program : AccountId) {diffs : List (AccountStateDiff Data)}
      → initialize h owner config nonce c program ≡ ok diffs
      → HasValidFees c × (diffs ≡ unchanged owner ∷ new config (h.configs.into c) ∷ [])
  unfolding initialize assert_valid_swap_fee_bps assert_valid_protocol_fee_bps
  initialize_lem owner config nonce c program {diffs} e =
      let (_, e₁) = guard-eq-ok owner.is_authorized _ _ e in
      let (_, e₂) =
        guard-eq-ok (config.account_id == compute_config_pda h program owner.account_id nonce) _ _
          e₁ in
      let (_, e₃) = guard-eq-ok (h.is_default config.account) _ _ e₂ in
      let (small, e₄) = guard-eq-ok (ltb c.swap_fee_bps fee_bps_denominator) _ _ e₃ in
      let (part, e₅) = guard-eq-ok (leb c.protocol_fee_bps fee_bps_denominator) _ _ e₄ in
      (
        record {
          swap_fee = ltb→lt c.swap_fee_bps fee_bps_denominator small;
          protocol_fee = leb→le c.protocol_fee_bps fee_bps_denominator part;
        },
        sym (ok-eq-ok {P = Panic} e₅),
      )

  -- What an update leaves.
  pub record Updated (config authority : AccountWithMetadata Data) (new_authority : AccountId)
      (c : AmmConfig) (diffs : List (AccountStateDiff Data)) : Type 0 where
    pub is_admin : authority.account_id ≡ c.authority
    pub signed : authority.is_authorized ≡ true
    pub written :
        diffs
        ≡ new config (h.configs.into (record c { authority = new_authority }))
          ∷ unchanged authority
          ∷ []

  -- Updating the configuration that does not panic was signed by its stored authority, replaces
  -- that authority by the requested one, and writes nothing else.
  pub update_config-Updated :
      (config authority : AccountWithMetadata Data) (new_authority program : AccountId)
      (c : AmmConfig) {diffs : List (AccountStateDiff Data)}
      → read_config h config program ≡ ok c
      → update_config h config authority new_authority program ≡ ok diffs
      → Updated config authority new_authority c diffs
  unfolding update_config
  update_config-Updated config authority new_authority program c {diffs} read e =
      let e₀ : _ ≡ ok diffs = rw read at e in
      let (_, admin, e₁) = bind-eq-ok (check_admin h c authority) _ e₀ in
      let (is_admin, signed) = check_admin_lem c authority admin in
      record { is_admin = is_admin; signed = signed; written = sym (ok-eq-ok {P = Panic} e₁) }

  -- An instance initialized with the parameters `c` whose stored configuration has come to `d`, by
  -- updates that each read what the one before stored, from what the initialization stored on.
  pub data Governed (c : AmmConfig) : AmmConfig → Type 0 where
    initialized :
        (owner config : AccountWithMetadata Data) (nonce : List ℕ) (program : AccountId)
        (diffs : List (AccountStateDiff Data)) (stored : Data) (d : AmmConfig)
        → initialize h owner config nonce c program ≡ ok diffs
        → diffs ≡ unchanged owner ∷ new config stored ∷ []
        → h.configs.try_from stored ≡ some d
        → Governed c d
    updated :
        {d : AmmConfig} (config authority : AccountWithMetadata Data)
        (new_authority program : AccountId) (diffs : List (AccountStateDiff Data)) (stored : Data)
        (e : AmmConfig)
        → Governed c d
        → read_config h config program ≡ ok d
        → update_config h config authority new_authority program ≡ ok diffs
        → diffs ≡ new config stored ∷ unchanged authority ∷ []
        → h.configs.try_from stored ≡ some e
        → Governed c e

  -- What no update changes.
  pub record Keeps (c d : AmmConfig) : Type 0 where
    pub token_program : d.token_program_id ≡ c.token_program_id
    pub oracle_program : d.twap_oracle_program_id ≡ c.twap_oracle_program_id
    pub swap_fee : d.swap_fee_bps ≡ c.swap_fee_bps
    pub protocol_fee : d.protocol_fee_bps ≡ c.protocol_fee_bps

  same_data :
      {a b : AccountWithMetadata Data} {s t : Data}
      → ◌≡◌ {A = List (AccountStateDiff Data)}
          (new a s ∷ unchanged b ∷ [])
          (new a t ∷ unchanged b ∷ [])
      → s ≡ t
  same_data e = cc

  same_first :
      {a b : AccountWithMetadata Data} {s t : Data}
      → ◌≡◌ {A = List (AccountStateDiff Data)}
          (unchanged a ∷ new b s ∷ [])
          (unchanged a ∷ new b t ∷ [])
      → s ≡ t
  same_first e = cc

  same_config : {d e : AmmConfig} → some d ≡ some e → d ≡ e
  same_config e = cc

  -- Initializing an instance stores the programs and fees that it is given, with fees in the range
  -- that the swap handlers need, and no update that follows changes them in what is stored. The
  -- codec of configurations round-trips.
  pub Governed-HasValidFees :
      {c d : AmmConfig} → RoundTrips h.configs → Governed c d → Keeps c d × HasValidFees d
  Governed-HasValidFees {c} codec
        (initialized owner config nonce program diffs stored d e shape decoded) =
      let (valid, written) = initialize_lem owner config nonce c program e in
      let same : h.configs.into c ≡ stored = same_first (sym written ∙ shape) in
      let is_stored : c ≡ d = same_config (sym (codec c) ∙ ap h.configs.try_from same ∙ decoded) in
      subst (λ t. Keeps c t × HasValidFees t) is_stored
        (
          record {
            token_program = refl;
            oracle_program = refl;
            swap_fee = refl;
            protocol_fee = refl;
          },
          valid,
        )
  Governed-HasValidFees {c} codec
        (updated {d} config authority new_authority program diffs stored e before read ran shape
          decoded) =
      let (keeps, valid) = Governed-HasValidFees codec before in
      let x : Updated config authority new_authority d diffs =
        update_config-Updated config authority new_authority program d read ran in
      let after : AmmConfig = record d { authority = new_authority } in
      let same : h.configs.into after ≡ stored = same_data (sym x.written ∙ shape) in
      let is_after : after ≡ e =
        same_config (sym (codec after) ∙ ap h.configs.try_from same ∙ decoded) in
      subst (λ t. Keeps c t × HasValidFees t) is_after
        (
          record {
            token_program = keeps.token_program;
            oracle_program = keeps.oracle_program;
            swap_fee = keeps.swap_fee;
            protocol_fee = keeps.protocol_fee;
          },
          record { swap_fee = valid.swap_fee; protocol_fee = valid.protocol_fee },
        )

  -- What a withdrawal of fees asks for.
  pub record FeesWithdrawn (config holding destination authority : AccountWithMetadata Data)
      (amount : ℕ) (program : AccountId) (c : AmmConfig) (diffs : List (AccountStateDiff Data))
      (calls : List ChainedCall) : Type 0 where
    pub token : AccountId
    pub is_admin : authority.account_id ≡ c.authority
    pub signed : authority.is_authorized ≡ true
    pub is_fees : holding.account_id ≡ compute_protocol_fee_pda h program config.account_id token
    pub of_token : token_of h destination ≡ ok token
    pub unwritten :
        diffs
        ≡ unchanged config ∷ unchanged holding ∷ unchanged destination ∷ unchanged authority ∷ []
    pub taken : outflow calls holding.account_id ≡ amount
    pub received : inflow calls destination.account_id ≡ amount
    pub untouched : (x : AccountId) → x ≢ holding.account_id → outflow calls x ≡ 0

  one_transfer :
      (program from to amount : ℕ) (seeds : List ℕ) (x : AccountId)
      → (outflow (transfer_call program from to amount seeds ∷ []) from ≡ amount)
        × (inflow (transfer_call program from to amount seeds ∷ []) to ≡ amount)
        × (x ≢ from → outflow (transfer_call program from to amount seeds ∷ []) x ≡ 0)
  one_transfer program from to amount seeds x = (ground arith, ground arith, λ n. ground arith)

  -- Withdrawing protocol fees that does not panic was signed by the stored authority, takes
  -- exactly the amount out of the fee holding that the instance derives for one token and out of
  -- no other account, hands it to a holding of that token, and writes nothing itself.
  pub withdraw_protocol_fees-FeesWithdrawn :
      (config holding destination authority : AccountWithMetadata Data) (amount : ℕ)
      (program : AccountId) (c : AmmConfig) {diffs : List (AccountStateDiff Data)}
      {calls : List ChainedCall}
      → read_config h config program ≡ ok c
      → withdraw_protocol_fees h config holding destination authority amount program
        ≡ ok (diffs, calls)
      → FeesWithdrawn config holding destination authority amount program c diffs calls
  unfolding withdraw_protocol_fees
  withdraw_protocol_fees-FeesWithdrawn config holding destination authority amount program c {diffs}
        {calls} read e =
      let e₀ : _ ≡ ok (diffs, calls) = rw read at e in
      let (_, admin, e₁) = bind-eq-ok (check_admin h c authority) _ e₀ in
      let (is_admin, signed) = check_admin_lem c authority admin in
      let (_, _, e₂) = bind-eq-ok (owned_by_token_program h holding c.token_program_id _) _ e₁ in
      let (token, _, e₃) = bind-eq-ok (token_of h holding) _ e₂ in
      let (fees, e₄) =
        guard-eq-ok
          (holding.account_id == compute_protocol_fee_pda h program config.account_id token) _ _
          e₃ in
      let (_, _, e₅) =
        bind-eq-ok (owned_by_token_program h destination c.token_program_id _) _ e₄ in
      let (other, read', e₆) = bind-eq-ok (token_of h destination) _ e₅ in
      let (same_token, e₇) = guard-eq-ok (other == token) _ _ e₆ in
      let same = ok-eq-ok {P = Panic} {T = List (AccountStateDiff Data) × List ChainedCall} e₇ in
      let asked = sym (ap (λ (t : List (AccountStateDiff Data) × List ChainedCall). t.1) same) in
      let moved =
        one_transfer c.token_program_id holding.account_id destination.account_id amount
          (compute_protocol_fee_pda_seed h config.account_id token ∷ []) in
      record {
        token = token;
        is_admin = is_admin;
        signed = signed;
        is_fees =
            ==→eq holding.account_id (compute_protocol_fee_pda h program config.account_id token)
              fees;
        of_token = read' ∙ ap (λ (t : AccountId). ok t) (==→eq other token same_token);
        unwritten = sym (ap (λ (t : List (AccountStateDiff Data) × List ChainedCall). t.0) same);
        taken = ap (λ (cs : List ChainedCall). outflow cs holding.account_id) asked ∙ (moved 0).0;
        received =
            ap (λ (cs : List ChainedCall). inflow cs destination.account_id) asked ∙ (moved 0).1;
        untouched = λ x other_account.
            ap (λ (cs : List ChainedCall). outflow cs x) asked ∙ (moved x).2 other_account;
      }
