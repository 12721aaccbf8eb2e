-- ===== src/Token/Outcome.antt =====
-- What a successful call of a token handler has checked and written: transfer.rs, mint.rs and
-- burn.rs of programs/token/src.
use lez_programs.Shared.{
  ℕ, ◌+◌, ◌-◌, ◌<◌, ◌≤◌, ◌^◌, ◌≡◌, true, false, Option, some, List, [], ◌∷◌, arith, ok, bind-eq-ok,
  guard-eq-ok, expect-eq-ok, ==→eq, eq→==, ◌↔◌,
}
use lez_programs.Host.{AccountId, AccountWithMetadata, AccountStateDiff, new}
use lez_programs.Token.Core.{
  TokenHolding, nft_master, nft_printed_copy, definition_id, TokenHost, units, supply,
  TokenDefinition, non_fungible,
}
use lez_programs.Token.Transfer.{move_units, recipient_holding, transfer}
use lez_programs.Token.Mint.{
  mint_units, check_mint_authority, authority_ref, echo_authority, user_holding, mint_inner,
}
use lez_programs.Token.Burn.{burn_units, burn}

-- The parts of a definition that no change of supply touches: name, metadata and authority.
abbrev pub SameTerms : TokenDefinition → TokenDefinition → Type 0
SameTerms (TokenDefinition.fungible n _ m a) (TokenDefinition.fungible n' _ m' a') =
    (n ≡ n') × (m ≡ m') × (a ≡ a')
SameTerms (non_fungible n _ m) (non_fungible n' _ m') = (n ≡ n') × (m ≡ m')
SameTerms _ _ = ⊥

pub move_units_lem :
    (s r : TokenHolding) (n : ℕ) {s' r' : TokenHolding}
    → move_units s r n ≡ ok (s', r')
    → (units s' + n ≡ units s)
      × (units r' ≡ units r + n)
      × (definition_id s' ≡ definition_id s)
      × (definition_id r' ≡ definition_id r)
unfolding move_units
move_units_lem (TokenHolding.fungible _ _) (TokenHolding.fungible _ _) n h = ground arith
move_units_lem (nft_master _ _) (nft_master _ _) n h = ground arith
move_units_lem (nft_printed_copy _ a) (nft_printed_copy _ b) n h = ground arith
move_units_lem _ _ n h = ground arith

pub mint_units_lem :
    (d : TokenDefinition) (t : TokenHolding) (n : ℕ) {d' : TokenDefinition} {t' : TokenHolding}
    → mint_units d t n ≡ ok (d', t')
    → (supply d' ≡ supply d + n)
      × (supply d' < 2 ^ 128)
      × (units t' ≡ units t + n)
      × (definition_id t' ≡ definition_id t)
      × SameTerms d d'
unfolding mint_units
mint_units_lem (TokenDefinition.fungible _ _ _ _) (TokenHolding.fungible _ _) n h = ground arith
mint_units_lem (non_fungible _ _ _) (nft_master _ _) n h = ground arith
mint_units_lem (non_fungible _ _ _) (nft_printed_copy _ _) n h = ground arith
mint_units_lem _ _ n h = ground arith

pub burn_units_lem :
    (d : TokenDefinition) (t : TokenHolding) (n : ℕ) {d' : TokenDefinition} {t' : TokenHolding}
    → burn_units d t n ≡ ok (d', t')
    → (supply d' + n ≡ supply d)
      × (units t' + n ≡ units t)
      × (definition_id t' ≡ definition_id t)
      × SameTerms d d'
unfolding burn_units
burn_units_lem (TokenDefinition.fungible _ _ _ _) (TokenHolding.fungible _ _) n h = ground arith
burn_units_lem (non_fungible _ _ _) (nft_master _ _) n h = ground arith
burn_units_lem (non_fungible _ _ _) (nft_printed_copy _ _) n h = ground arith
burn_units_lem _ _ n h = ground arith

module _ {Data : Type 0} (h : TokenHost Data) where
  -- What a transfer of `n` units has checked and written.
  pub record Transferred (sender recipient : AccountWithMetadata Data) (n : ℕ)
      (diffs : List (AccountStateDiff Data)) : Type 0 where
    pub s : TokenHolding
    pub r : TokenHolding
    pub s' : TokenHolding
    pub r' : TokenHolding
    pub authorized : sender.is_authorized ≡ true
    pub sender_held : h.holdings.try_from sender.account.account_data ≡ some s
    pub recipient_held : recipient_holding h recipient s ≡ ok r
    pub one_definition : definition_id s ≡ definition_id r
    pub moved : move_units s r n ≡ ok (s', r')
    pub written : diffs ≡ new sender (h.holdings.into s') ∷ new recipient (h.holdings.into r') ∷ []
    pub debited : units s' + n ≡ units s
    pub credited : units r' ≡ units r + n
    pub sender_kept : definition_id s' ≡ definition_id s
    pub recipient_kept : definition_id r' ≡ definition_id r

  -- A transfer that does not panic is signed by the sender, stays within one definition, and
  -- moves exactly `n` units of whatever kind from the sender's holding to the recipient's.
  pub transfer-Transferred :
      (sender recipient : AccountWithMetadata Data) (n : ℕ) {diffs : List (AccountStateDiff Data)}
      → transfer h sender recipient n ≡ ok diffs
      → Transferred sender recipient n diffs
  unfolding transfer
  transfer-Transferred sender recipient n e =
      let (auth, e₁) = guard-eq-ok _ _ _ e in
      let (s, es, e₂) = bind-eq-ok _ _ e₁ in
      let (r, er, e₃) = bind-eq-ok _ _ e₂ in
      let (same, e₄) = guard-eq-ok _ _ _ e₃ in
      let ((s', r'), em, e₅) = bind-eq-ok _ _ e₄ in
      let (debit, credit, ks, kr) = move_units_lem s r n em in
      record {
        s = s;
        r = r;
        s' = s';
        r' = r';
        authorized = auth;
        sender_held = expect-eq-ok _ _ es;
        recipient_held = er;
        one_definition = ==→eq _ _ same;
        moved = em;
        written = cc;
        debited = debit;
        credited = credit;
        sender_kept = ks;
        recipient_kept = kr;
      }

  -- What minting `n` units has checked and written; `signer` is who proved the authority.
  pub record Minted (definition_account holding_account : AccountWithMetadata Data)
      (external : Option (AccountWithMetadata Data)) (n : ℕ) (token_program_id : AccountId)
      (diffs : List (AccountStateDiff Data)) : Type 0 where
    pub d : TokenDefinition
    pub t : TokenHolding
    pub d' : TokenDefinition
    pub t' : TokenHolding
    pub owned : definition_account.account.program_owner ≡ token_program_id
    pub defined : h.definitions.try_from definition_account.account.account_data ≡ some d
    pub entitled : check_mint_authority d (authority_ref definition_account external) ≡ ok tt
    pub held : user_holding h holding_account definition_account.account_id d ≡ ok t
    pub one_definition : definition_account.account_id ≡ definition_id t
    pub minted : mint_units d t n ≡ ok (d', t')
    pub written :
        diffs
        ≡ new definition_account (h.definitions.into d')
          ∷ new holding_account (h.holdings.into t')
          ∷ echo_authority external
    pub supplied : supply d' ≡ supply d + n
    pub fits : supply d' < 2 ^ 128
    pub credited : units t' ≡ units t + n
    pub holding_kept : definition_id t' ≡ definition_id t
    pub terms_kept : SameTerms d d'

  -- Minting that does not panic was entitled by the authority check on a definition that the
  -- token program owns, and adds `n` to the supply and to one holding, and nothing else.
  pub mint_inner-Minted :
      (definition_account holding_account : AccountWithMetadata Data)
      (external : Option (AccountWithMetadata Data)) (n : ℕ) (token_program_id : AccountId)
      {diffs : List (AccountStateDiff Data)}
      → mint_inner h definition_account holding_account external n token_program_id ≡ ok diffs
      → Minted definition_account holding_account external n token_program_id diffs
  unfolding mint_inner
  mint_inner-Minted definition_account holding_account external n token_program_id e =
      let (own, e₁) = guard-eq-ok _ _ _ e in
      let (d, ed, e₂) = bind-eq-ok _ _ e₁ in
      let (_, ea, e₃) = bind-eq-ok _ _ e₂ in
      let (t, et, e₄) = bind-eq-ok _ _ e₃ in
      let (same, e₅) = guard-eq-ok _ _ _ e₄ in
      let ((d', t'), em, e₆) = bind-eq-ok _ _ e₅ in
      let (sup, fit, cred, kept, terms) = mint_units_lem d t n em in
      record {
        d = d;
        t = t;
        d' = d';
        t' = t';
        owned = ==→eq _ _ own;
        defined = expect-eq-ok _ _ ed;
        entitled = ea;
        held = et;
        one_definition = ==→eq _ _ same;
        minted = em;
        written = cc;
        supplied = sup;
        fits = fit;
        credited = cred;
        holding_kept = kept;
        terms_kept = terms;
      }

  -- What burning `n` units has checked and written.
  pub record Burned (definition_account holding_account : AccountWithMetadata Data) (n : ℕ)
      (diffs : List (AccountStateDiff Data)) : Type 0 where
    pub d : TokenDefinition
    pub t : TokenHolding
    pub d' : TokenDefinition
    pub t' : TokenHolding
    pub authorized : holding_account.is_authorized ≡ true
    pub defined : h.definitions.try_from definition_account.account.account_data ≡ some d
    pub held : h.holdings.try_from holding_account.account.account_data ≡ some t
    pub one_definition : definition_account.account_id ≡ definition_id t
    pub written :
        diffs
        ≡ new definition_account (h.definitions.into d')
          ∷ new holding_account (h.holdings.into t')
          ∷ []
    pub burned : burn_units d t n ≡ ok (d', t')
    pub withdrawn : supply d' + n ≡ supply d
    pub debited : units t' + n ≡ units t
    pub holding_kept : definition_id t' ≡ definition_id t
    pub terms_kept : SameTerms d d'

  -- Burning that does not panic is signed by the holder, and takes `n` from the supply and from
  -- that one holding, and nothing else.
  pub burn-Burned :
      (definition_account holding_account : AccountWithMetadata Data) (n : ℕ)
      {diffs : List (AccountStateDiff Data)}
      → burn h definition_account holding_account n ≡ ok diffs
      → Burned definition_account holding_account n diffs
  unfolding burn
  burn-Burned definition_account holding_account n e =
      let (auth, e₁) = guard-eq-ok _ _ _ e in
      let (d, ed, e₂) = bind-eq-ok _ _ e₁ in
      let (t, et, e₃) = bind-eq-ok _ _ e₂ in
      let (same, e₄) = guard-eq-ok _ _ _ e₃ in
      let ((d', t'), em, e₅) = bind-eq-ok _ _ e₄ in
      let (sup, deb, kept, terms) = burn_units_lem d t n em in
      record {
        d = d;
        t = t;
        d' = d';
        t' = t';
        authorized = auth;
        defined = expect-eq-ok _ _ ed;
        held = expect-eq-ok _ _ et;
        one_definition = ==→eq _ _ same;
        written = cc;
        burned = em;
        withdrawn = sup;
        debited = deb;
        holding_kept = kept;
        terms_kept = terms;
      }

-- When a transfer of `n` units between two holdings goes through.
abbrev pub Transferable : TokenHolding → TokenHolding → ℕ → Type 0
Transferable (TokenHolding.fungible _ b) (TokenHolding.fungible _ c) n = (n ≤ b) × (c + n < 2 ^ 128)
Transferable (nft_master _ b) (nft_master _ c) n = (c ≡ 0) × (b ≡ n)
Transferable (nft_printed_copy _ a) (nft_printed_copy _ b) n = (n ≡ 1) × (a ≡ true) × (b ≡ false)
Transferable _ _ _ = ⊥

move_units-Transferable :
    (s r : TokenHolding) (n : ℕ)
    → Transferable s r n
    → (p : TokenHolding × TokenHolding) × (move_units s r n ≡ ok p)
unfolding move_units
move_units-Transferable (TokenHolding.fungible a b) (TokenHolding.fungible c d) n h =
    ((TokenHolding.fungible a (b - n), TokenHolding.fungible c (d + n)), ground arith)
move_units-Transferable (nft_master a b) (nft_master c d) n h =
    ((nft_master a d, nft_master c b), ground arith)
move_units-Transferable (nft_printed_copy a b) (nft_printed_copy c d) n h =
    ((nft_printed_copy a false, nft_printed_copy c true), ground arith)
move_units-Transferable (TokenHolding.fungible a b) (nft_master c d) n h = absurd h
move_units-Transferable (TokenHolding.fungible a b) (nft_printed_copy c d) n h = absurd h
move_units-Transferable (nft_master a b) (TokenHolding.fungible c d) n h = absurd h
move_units-Transferable (nft_master a b) (nft_printed_copy c d) n h = absurd h
move_units-Transferable (nft_printed_copy a b) (TokenHolding.fungible c d) n h = absurd h
move_units-Transferable (nft_printed_copy a b) (nft_master c d) n h = absurd h

Transferable-move_units :
    (s r : TokenHolding) (n : ℕ) {p : TokenHolding × TokenHolding}
    → move_units s r n ≡ ok p
    → Transferable s r n
unfolding move_units
Transferable-move_units (TokenHolding.fungible a b) (TokenHolding.fungible c d) n h = ground arith
Transferable-move_units (nft_master a b) (nft_master c d) n h = ground arith
Transferable-move_units (nft_printed_copy a b) (nft_printed_copy c d) n h = ground arith
Transferable-move_units _ _ n h = cc

-- A transfer between two holdings of data `s` and `r` succeeds exactly when the sender signs,
-- the two are of one definition, and the amount fits both.
pub transfer_iff :
    {Data : Type 0} (h : TokenHost Data) (sender recipient : AccountWithMetadata Data) (n : ℕ)
    (s r : TokenHolding)
    → h.holdings.try_from sender.account.account_data ≡ some s
    → recipient_holding h recipient s ≡ ok r
    → ((diffs : List (AccountStateDiff Data)) × (transfer h sender recipient n ≡ ok diffs))
      ↔ ((sender.is_authorized ≡ true) × (definition_id s ≡ definition_id r) × Transferable s r n)
unfolding transfer
transfer_iff h sender recipient n s r es er = (to, from)
  where
    to :
        ((diffs : List (AccountStateDiff _)) × (transfer h sender recipient n ≡ ok diffs))
        → (sender.is_authorized ≡ true) × (definition_id s ≡ definition_id r) × Transferable s r n
    to (diffs, e) =
        let (auth, e₁) = guard-eq-ok _ _ _ e in
        let (same, e₂) = guard-eq-ok _ _ _ (rw (es, er) at e₁) in
        let (p, em, _) = bind-eq-ok _ _ e₂ in
        (auth, ==→eq _ _ same, Transferable-move_units s r n em)

    from :
        (sender.is_authorized ≡ true) × (definition_id s ≡ definition_id r) × Transferable s r n
        → (diffs : List (AccountStateDiff _)) × (transfer h sender recipient n ≡ ok diffs)
    from (auth, same, fits) =
        let ((s', r'), em) = move_units-Transferable s r n fits in
        (
          new sender (h.holdings.into s') ∷ new recipient (h.holdings.into r') ∷ [],
          rw (auth, es, er, eq→== _ _ same, em),
        )
