-- ===== src/Token/Authority.antt =====
-- The mint authority over time: mint.rs, set_authority.rs and new_definition.rs of
-- programs/token/src.
use Prim.Native.String.{String}
use lez_programs.Shared.{
  ℕ, ◌≡◌, ◌≢◌, true, Option, none, some, List, ◌∷◌, arith, ok, bind-eq-ok, guard-eq-ok,
  expect-eq-ok, ==→eq,
}
use lez_programs.Host.{AccountId, AccountWithMetadata, AccountStateDiff, new}
use lez_programs.Token.Core.{TokenHolding, TokenHost, supply, TokenDefinition, non_fungible}
use lez_programs.Token.Mint.{
  mint_units, check_mint_authority, authority_ref, echo_authority, mint_inner,
}
use lez_programs.Token.SetAuthority.{rotate, set_authority_inner}
use lez_programs.Token.Outcome.{Minted, mint_inner-Minted}

-- Who may mint under a definition: nobody, once the authority is gone.
abbrev pub authority_of : TokenDefinition → Option AccountId
authority_of (TokenDefinition.fungible _ _ _ authority) = authority
authority_of (non_fungible _ _ _) = none

-- The check passes for a fungible definition exactly when the signer is the stored authority.
pub check_mint_authority_lem :
    {Data : Type 0} (name : String) (total : ℕ) (m a : Option AccountId)
    (signer : AccountWithMetadata Data)
    → check_mint_authority (TokenDefinition.fungible name total m a) signer ≡ ok tt
    → (signer.is_authorized ≡ true) × (a ≡ some signer.account_id)
unfolding check_mint_authority
check_mint_authority_lem name total m a signer e = ground arith

pub rotate_lem :
    {Data : Type 0} (d : TokenDefinition) (signer : AccountWithMetadata Data)
    (new_authority : Option AccountId) {d' : TokenDefinition}
    → rotate d signer new_authority ≡ ok d'
    → (signer.is_authorized ≡ true)
      × (authority_of d ≡ some signer.account_id)
      × (authority_of d' ≡ new_authority)
      × (new_authority ≢ some 0)
      × (supply d' ≡ supply d)
unfolding rotate
rotate_lem (TokenDefinition.fungible n t m a) signer none e = ground arith
rotate_lem (TokenDefinition.fungible n t m a) signer (some id) e = ground arith
rotate_lem (non_fungible n t m) signer new_authority e = cc

revoked_cannot_mint :
    {Data : Type 0} (d : TokenDefinition) (t : TokenHolding) (n : ℕ)
    (signer : AccountWithMetadata Data) {p : TokenDefinition × TokenHolding}
    → authority_of d ≡ none
    → check_mint_authority d signer ≡ ok tt
    → mint_units d t n ≢ ok p
unfolding check_mint_authority mint_units
revoked_cannot_mint (TokenDefinition.fungible a b c d) t n signer r e = ground arith
revoked_cannot_mint (non_fungible _ _ _) (TokenHolding.fungible _ _) n signer r e = ground arith
revoked_cannot_mint (non_fungible _ _ _) (TokenHolding.nft_master _ _) n signer r e = ground arith
revoked_cannot_mint (non_fungible _ _ _) (TokenHolding.nft_printed_copy _ _) n signer r e =
    ground arith

module _ {Data : Type 0} (h : TokenHost Data) where
  -- What a change of authority has checked and written.
  pub record Rotated (definition_account : AccountWithMetadata Data)
      (external : Option (AccountWithMetadata Data)) (new_authority : Option AccountId)
      (token_program_id : AccountId) (diffs : List (AccountStateDiff Data)) : Type 0 where
    pub d : TokenDefinition
    pub d' : TokenDefinition
    pub owned : definition_account.account.program_owner ≡ token_program_id
    pub defined : h.definitions.try_from definition_account.account.account_data ≡ some d
    pub signed : (authority_ref definition_account external).is_authorized ≡ true
    pub by_the_authority :
        authority_of d ≡ some (authority_ref definition_account external).account_id
    pub written : diffs ≡ new definition_account (h.definitions.into d') ∷ echo_authority external
    pub handed_over : authority_of d' ≡ new_authority
    pub not_zero : new_authority ≢ some 0
    pub supply_kept : supply d' ≡ supply d

  -- A change of authority that does not panic was signed by the current authority, installs
  -- the requested one, which is not the zero account, and leaves the supply alone.
  pub set_authority_inner-Rotated :
      (definition_account : AccountWithMetadata Data) (external : Option (AccountWithMetadata Data))
      (new_authority : Option AccountId) (token_program_id : AccountId)
      {diffs : List (AccountStateDiff Data)}
      → set_authority_inner h definition_account external new_authority token_program_id ≡ ok diffs
      → Rotated definition_account external new_authority token_program_id diffs
  unfolding set_authority_inner
  set_authority_inner-Rotated definition_account external new_authority token_program_id e =
      let (own, e₁) = guard-eq-ok _ _ _ e in
      let (d, ed, e₂) = bind-eq-ok _ _ e₁ in
      let (d', em, e₃) = bind-eq-ok _ _ e₂ in
      let (auth, cur, next, nz, sup) = rotate_lem d _ new_authority em in
      record {
        d = d;
        d' = d';
        owned = ==→eq _ _ own;
        defined = expect-eq-ok _ _ ed;
        signed = auth;
        by_the_authority = cur;
        written = cc;
        handed_over = next;
        not_zero = nz;
        supply_kept = sup;
      }

  -- The account holds a definition that nobody may mint under.
  abbrev pub IsRevoked : AccountWithMetadata Data → Type 0
  IsRevoked definition_account =
      (d : TokenDefinition)
      → h.definitions.try_from definition_account.account.account_data ≡ some d
      → authority_of d ≡ none

  mint_inner_revoked :
      (definition_account holding_account : AccountWithMetadata Data)
      (external : Option (AccountWithMetadata Data)) (n : ℕ) (token_program_id : AccountId)
      {diffs : List (AccountStateDiff Data)}
      → IsRevoked definition_account
      → mint_inner h definition_account holding_account external n token_program_id ≢ ok diffs
  mint_inner_revoked definition_account holding_account external n token_program_id r e =
      let m : Minted h definition_account holding_account external n token_program_id _ =
        mint_inner-Minted h definition_account holding_account external n token_program_id e in
      revoked_cannot_mint m.d m.t n _ (r m.d m.defined) m.entitled m.minted

  set_authority_inner_revoked :
      (definition_account : AccountWithMetadata Data) (external : Option (AccountWithMetadata Data))
      (new_authority : Option AccountId) (token_program_id : AccountId)
      {diffs : List (AccountStateDiff Data)}
      → IsRevoked definition_account
      → set_authority_inner h definition_account external new_authority token_program_id ≢ ok diffs
  set_authority_inner_revoked definition_account external new_authority token_program_id r e =
      let o : Rotated definition_account external new_authority token_program_id _ =
        set_authority_inner-Rotated definition_account external new_authority token_program_id e in
      cc (r o.d o.defined, o.by_the_authority)

  -- A definition whose stored authority is gone can never be minted under or get an authority
  -- again: whoever signs, both handlers panic in both their modes.
  pub revoked_is_final :
      (definition_account : AccountWithMetadata Data)
      → IsRevoked definition_account
      → ((holding_account : AccountWithMetadata Data) (external : Option (AccountWithMetadata Data))
            (n : ℕ) (token_program_id : AccountId) (diffs : List (AccountStateDiff Data))
          → mint_inner h definition_account holding_account external n token_program_id ≢ ok diffs)
        × ((external : Option (AccountWithMetadata Data)) (new_authority : Option AccountId)
              (token_program_id : AccountId) (diffs : List (AccountStateDiff Data))
            → set_authority_inner h definition_account external new_authority token_program_id
              ≢ ok diffs)
  revoked_is_final definition_account r = (
    λ holding_account external n token_program_id diffs.
        mint_inner_revoked definition_account holding_account external n token_program_id r,
    λ external new_authority token_program_id diffs.
        set_authority_inner_revoked definition_account external new_authority token_program_id r,
  )
