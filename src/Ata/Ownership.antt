-- ===== src/Ata/Ownership.antt =====
-- Whose accounts programs/ata/src/transfer.rs and burn.rs draw on.
use lez_programs.Shared.{
  ℕ, ◌≡◌, ap, sym, ◌∙◌, true, not, ◌==◌, ==→eq, [], ◌∷◌, some, ok, expect, bind-eq-ok, guard-eq-ok,
  expect-eq-ok, ok-eq-ok,
}
use lez_programs.Host.{AccountId, AccountWithMetadata, unchanged}
use lez_programs.Token.Core.{TokenHolding, Instruction, definition_id}
use lez_programs.Ata.{
  Panic, AtaHost, Outcome, seeded_call, compute_ata_seed, get_associated_token_account_id,
  verify_ata_and_get_seed, held_definition, transfer_from_associated_token_account,
}

module _ {Data : Type 0} (h : AtaHost Data) where
  verify_ata_and_get_seed_lem :
      (ata owner : AccountWithMetadata Data) (token definition program : AccountId) {seed : ℕ}
      → verify_ata_and_get_seed h ata owner token definition program ≡ ok seed
      → (seed ≡ compute_ata_seed h token owner.account_id definition)
        × (ata.account_id ≡ get_associated_token_account_id h program seed)
  unfolding verify_ata_and_get_seed
  verify_ata_and_get_seed_lem ata owner token definition program e =
      let expected = compute_ata_seed h token owner.account_id definition in
      let (placed, e₁) =
        guard-eq-ok (ata.account_id == get_associated_token_account_id h program expected) _ _ e in
      let same = ok-eq-ok {P = Panic} {T = ℕ} e₁ in
      (sym same, ==→eq _ _ placed ∙ ap (λ s. get_associated_token_account_id h program s) same)

  -- A holding of the token program, of one definition.
  pub record Holds (a : AccountWithMetadata Data) (token definition : AccountId) : Type 0 where
    pub owned : a.account.program_owner ≡ token
    pub held : TokenHolding
    pub decoded : h.holdings.try_from a.account.account_data ≡ some held
    pub of_definition : definition_id held ≡ definition

  held_definition-Holds :
      (a : AccountWithMetadata Data) (token : AccountId) {d : AccountId}
      → held_definition h a token ≡ ok d
      → Holds a token d
  unfolding held_definition
  held_definition-Holds a token e =
      let (owned, e₁) = guard-eq-ok (a.account.program_owner == token) _ _ e in
      let (held, decoded, e₂) =
        bind-eq-ok (expect (h.holdings.try_from a.account.account_data) _) _ e₁ in
      record {
        owned = ==→eq _ _ owned;
        held = held;
        decoded = expect-eq-ok _ _ decoded;
        of_definition = ok-eq-ok {P = Panic} {T = AccountId} e₂;
      }

  -- A draw on the account of an owner who has signed: the account has the address of the owner and
  -- of the definition that it holds, and the call shows that address alone.
  pub record Drawn (owner ata : AccountWithMetadata Data) (program token definition : AccountId)
      (seed : ℕ) : Type 0 where
    pub signed : owner.is_authorized ≡ true
    pub holds : Holds ata token definition
    pub seed_of : seed ≡ compute_ata_seed h token owner.account_id definition
    pub placed : ata.account_id ≡ get_associated_token_account_id h program seed

  pub record Paid (owner ata recipient : AccountWithMetadata Data) (program token : AccountId)
      (amount : ℕ) (outcome : Outcome Data) : Type 0 where
    pub definition : AccountId
    pub seed : ℕ
    pub drawn : Drawn owner ata program token definition seed
    pub exists : not (h.is_default recipient.account) ≡ true
    pub receives : Holds recipient token definition
    pub outcome_is : outcome ≡ (
      unchanged owner ∷ unchanged ata ∷ unchanged recipient ∷ [],
      seeded_call token ata.account_id recipient.account_id (Instruction.transfer amount) seed ∷ [],
    )

  -- A transfer out of an associated account that does not panic was signed by the owner, whose
  -- address and token give the account its address, goes to an existing holding of the same token
  -- and token program, writes no account itself, and asks the token program for exactly that
  -- transfer, with the seed of that account alone.
  pub transfer_from_associated_token_account-Paid :
      (owner ata recipient : AccountWithMetadata Data) (program token : AccountId) (amount : ℕ)
      (outcome : Outcome Data)
      → transfer_from_associated_token_account h owner ata recipient program token amount
        ≡ ok outcome
      → Paid owner ata recipient program token amount outcome
  unfolding transfer_from_associated_token_account
  transfer_from_associated_token_account-Paid owner ata recipient program token amount outcome e =
      let (signed, e₁) = guard-eq-ok owner.is_authorized _ _ e in
      let (d, held, e₂) = bind-eq-ok (held_definition h ata token) _ e₁ in
      let (seed, verified, e₃) =
        bind-eq-ok (verify_ata_and_get_seed h ata owner token d program) _ e₂ in
      let (exists, e₄) = guard-eq-ok (not (h.is_default recipient.account)) _ _ e₃ in
      let (d', held', e₅) = bind-eq-ok (held_definition h recipient token) _ e₄ in
      let (same, e₆) = guard-eq-ok (d' == d) _ _ e₅ in
      let (seed_of, placed) = verify_ata_and_get_seed_lem ata owner token d program verified in
      let x = held_definition-Holds recipient token held' in
      record {
        definition = d;
        seed = seed;
        drawn = record {
          signed = signed;
          holds = held_definition-Holds ata token held;
          seed_of = seed_of;
          placed = placed;
        };
        exists = exists;
        receives = record {
          owned = x.owned;
          held = x.held;
          decoded = x.decoded;
          of_definition = x.of_definition ∙ ==→eq _ _ same;
        };
        outcome_is = sym (ok-eq-ok {P = Panic} {T = Outcome Data} e₆);
      }
