-- ===== src/Token/Ledger.antt =====
-- The accounts of one token definition over a run of the program: the definition, and the
-- holdings that name it, as the handlers of programs/token/src read and write them.
use Prim.Native.String.{String}
use lez_programs.Shared.{
  get_elem?, set, get_elem?-set_ne, ℕ, zero, suc, ◌+◌, ◌≤◌, ◌≡◌, ◌≢◌, refl, Option, some, List, [],
  ◌∷◌, arith, ok, ◌∙◌,
}
use lez_programs.Host.{AccountId, AccountWithMetadata}
use lez_programs.Token.SetAuthority.{rotate}
use lez_programs.Token.Authority.{rotate_lem}
use lez_programs.Token.Core.{
  TokenHolding, nft_master, nft_printed_copy, zeroized_clone_from, zeroized_from_definition, units,
  supply, definition_id, TokenDefinition, non_fungible, NewTokenDefinition,
}
use lez_programs.Token.Transfer.{move_units}
use lez_programs.Token.Mint.{mint_units}
use lez_programs.Token.Burn.{burn_units}
use lez_programs.Token.Create.{create_fungible, create_definition, print_copy}
use lez_programs.Token.Outcome.{move_units_lem, mint_units_lem, burn_units_lem}

-- The units of all holdings.
abbrev pub circulating : List TokenHolding → ℕ
circulating [] = 0
circulating (t ∷ ts) = units t + circulating ts

pub record Ledger : Type 0 where
  pub definition : TokenDefinition
  pub holdings : List TokenHolding

-- One successful call, by what its `match` computes; a transfer is between two distinct accounts.
-- A fresh account that a transfer, a mint or an initialization writes first joins the holdings
-- with nothing in it.
pub data Step (Data : Type 0) : Ledger → Ledger → Type 0 where
  open_clone :
      (l : Ledger) (t : TokenHolding)
      → Step Data l (record l { holdings = zeroized_clone_from t ∷ l.holdings })
  open_definition :
      (l : Ledger) (id : AccountId)
      → Step Data l (record l { holdings = zeroized_from_definition id l.definition ∷ l.holdings })
  transfer :
      (l : Ledger) (i j n : ℕ) (s r s' r' : TokenHolding)
      → i ≢ j
      → get_elem? l.holdings i ≡ some s
      → get_elem? l.holdings j ≡ some r
      → move_units s r n ≡ ok (s', r')
      → Step Data l (record l { holdings = set (set l.holdings i s') j r' })
  mint :
      (l : Ledger) (i n : ℕ) (t t' : TokenHolding) (d' : TokenDefinition)
      → get_elem? l.holdings i ≡ some t
      → mint_units l.definition t n ≡ ok (d', t')
      → Step Data l (record { definition = d'; holdings = set l.holdings i t' })
  burn :
      (l : Ledger) (i n : ℕ) (t t' : TokenHolding) (d' : TokenDefinition)
      → get_elem? l.holdings i ≡ some t
      → burn_units l.definition t n ≡ ok (d', t')
      → Step Data l (record { definition = d'; holdings = set l.holdings i t' })
  print_nft :
      (l : Ledger) (i : ℕ) (t t' copy : TokenHolding)
      → get_elem? l.holdings i ≡ some t
      → print_copy t ≡ ok (t', copy)
      → Step Data l (record l { holdings = copy ∷ set l.holdings i t' })
  set_authority :
      (l : Ledger) (signer : AccountWithMetadata Data) (new_authority : Option AccountId)
      (d' : TokenDefinition)
      → rotate l.definition signer new_authority ≡ ok d'
      → Step Data l (record l { definition = d' })

-- The ledgers that a definition can come to, from its creation with or without metadata on.
pub data Reachable (Data : Type 0) : Ledger → Type 0 where
  created_fungible :
      (name : String) (total_supply : ℕ) (mint_authority : Option AccountId) (id : AccountId)
      (d : TokenDefinition) (t : TokenHolding)
      → create_fungible name total_supply mint_authority id ≡ ok (d, t)
      → Reachable Data (record { definition = d; holdings = t ∷ [] })
  created :
      (requested : NewTokenDefinition) (id metadata_id : AccountId) (d : TokenDefinition)
      (t : TokenHolding)
      → create_definition requested id metadata_id ≡ ok (d, t)
      → Reachable Data (record { definition = d; holdings = t ∷ [] })
  next : {l l' : Ledger} → Reachable Data l → Step Data l l' → Reachable Data l'

circulating-set :
    (ts : List TokenHolding) (i : ℕ) (old t : TokenHolding)
    → get_elem? ts i ≡ some old
    → circulating (set ts i t) + units old ≡ circulating ts + units t
circulating-set [] i old t e = cc
circulating-set (x ∷ ts) zero old t e = ground arith
circulating-set (x ∷ ts) (suc i) old t e = omega (arith, circulating-set ts i old t e)

units-zeroized_clone_from : (t : TokenHolding) → units (zeroized_clone_from t) ≡ 0
unfolding zeroized_clone_from
units-zeroized_clone_from (TokenHolding.fungible _ _) = refl
units-zeroized_clone_from (nft_master _ _) = refl
units-zeroized_clone_from (nft_printed_copy _ _) = refl

units-zeroized_from_definition :
    (id : AccountId) (d : TokenDefinition) → units (zeroized_from_definition id d) ≡ 0
unfolding zeroized_from_definition
units-zeroized_from_definition id (TokenDefinition.fungible _ _ _ _) = refl
units-zeroized_from_definition id (non_fungible _ _ _) = refl

pub print_copy_lem :
    (t : TokenHolding) {t' copy : TokenHolding}
    → print_copy t ≡ ok (t', copy)
    → (units t' + units copy ≡ units t)
      × (1 ≤ units t')
      × (units copy ≡ 1)
      × (definition_id t' ≡ definition_id t)
      × (definition_id copy ≡ definition_id t)
unfolding print_copy
print_copy_lem (TokenHolding.fungible _ _) e = cc
print_copy_lem (nft_master _ _) e = ground arith
print_copy_lem (nft_printed_copy _ _) e = cc

abbrev pub IsBacked : Ledger → Type 0
IsBacked l = circulating l.holdings ≡ supply l.definition

Step-IsBacked : {Data : Type 0} {l l' : Ledger} → Step Data l l' → IsBacked l → IsBacked l'
Step-IsBacked (open_clone l t) h = omega (arith, units-zeroized_clone_from t)
Step-IsBacked (open_definition l id) h =
    omega (arith, units-zeroized_from_definition id l.definition)
Step-IsBacked (transfer l i j n s r s' r' ne es er e) h =
    let (debit, credit, _, _) = move_units_lem s r n e in
    omega (
      arith,
      circulating-set l.holdings i s s' es,
      circulating-set (set l.holdings i s') j r r' (get_elem?-set_ne l.holdings i j s' ne ∙ er),
    )
Step-IsBacked (mint l i n t t' d' et e) h =
    let (sup, _, cred, _, _) = mint_units_lem l.definition t n e in
    omega (arith, circulating-set l.holdings i t t' et)
Step-IsBacked (burn l i n t t' d' et e) h =
    let (sup, deb, _, _) = burn_units_lem l.definition t n e in
    omega (arith, circulating-set l.holdings i t t' et)
Step-IsBacked (print_nft l i t t' copy et e) h =
    let (split, _, _, _, _) = print_copy_lem t e in
    omega (arith, circulating-set l.holdings i t t' et)
Step-IsBacked (set_authority l signer new_authority d' e) h =
    let (_, _, _, _, same) = rotate_lem l.definition signer new_authority e in omega arith

create_definition-IsBacked :
    (requested : NewTokenDefinition) (id metadata_id : AccountId) {d : TokenDefinition}
    {t : TokenHolding}
    → create_definition requested id metadata_id ≡ ok (d, t)
    → units t ≡ supply d
unfolding create_definition
create_definition-IsBacked (NewTokenDefinition.fungible name n a) id metadata_id e = ground arith
create_definition-IsBacked (NewTokenDefinition.non_fungible name n) id metadata_id e = ground arith

create_fungible-IsBacked :
    (name : String) (total_supply : ℕ) (mint_authority : Option AccountId) (id : AccountId)
    {d : TokenDefinition} {t : TokenHolding}
    → create_fungible name total_supply mint_authority id ≡ ok (d, t)
    → units t ≡ supply d
unfolding create_fungible
create_fungible-IsBacked name total_supply mint_authority id e = ground arith

-- Whatever calls follow the creation of a definition, with or without metadata, fungible or not, its stored supply is
-- always exactly the sum of the units of its holdings.
pub Reachable-IsBacked : {Data : Type 0} {l : Ledger} → Reachable Data l → IsBacked l
Reachable-IsBacked (created_fungible name total_supply mint_authority id d t e) =
    omega (arith, create_fungible-IsBacked name total_supply mint_authority id e)
Reachable-IsBacked (created requested id metadata_id d t e) =
    omega (arith, create_definition-IsBacked requested id metadata_id e)
Reachable-IsBacked (next r s) = Step-IsBacked s (Reachable-IsBacked r)
