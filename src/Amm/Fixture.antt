-- ===== src/Amm/Fixture.antt =====
-- A concrete host, a pool of it and its configuration, for the runs of the AMM's handlers.
use lez_programs.Shared.{
  ℕ, zero, suc, ◌+◌, ◌*◌, ◌/◌, ◌<◌, ◌≤◌, refl, inl, inr, Bool-cases, leb→le, Bool, true, false,
  Option, none, some, List, [], ◌∷◌, leb, if◌then◌else◌, arith,
}
use lez_programs.Host.{AccountId, AccountWithMetadata, RoundTrips}
use lez_programs.Token.Core.{TokenHolding}
use lez_programs.Amm.Core.{AmmHost, PoolDefinition, AmmConfig}
use lez_programs.Amm.Liquidity.Opening.{IsFloorSquareRoot}

-- Account data that stores the value itself.
pub data Stored : Type 0 where
  empty : Stored
  pool : PoolDefinition → Stored
  config : AmmConfig → Stored
  holding : TokenHolding → Stored

abbrev pub to_pool : Stored → Option PoolDefinition
to_pool (pool p) = some p
to_pool _ = none

abbrev pub to_config : Stored → Option AmmConfig
to_config (config c) = some c
to_config _ = none

abbrev pub to_holding : Stored → Option TokenHolding
to_holding (holding t) = some t
to_holding _ = none

abbrev pub is_empty : Stored → Bool
is_empty empty = true
is_empty _ = false

abbrev pub sum : List ℕ → ℕ
sum [] = 0
sum (x ∷ xs) = x + sum xs

-- The larger of `r` and `r + 1` whose square is within `n`, if that of `r` is.
abbrev pub grow : ℕ → ℕ → ℕ
grow n r = if leb ((r + 1) * (r + 1)) n then r + 1 else r

abbrev pub root_on : ℕ → ℕ → ℕ
root_on zero n = 0
root_on (suc fuel) zero = 0
root_on (suc fuel) (suc m) = grow (suc m) (2 * root_on fuel (suc m / 4))

-- The floor of the square root, digit by digit.
abbrev pub root : ℕ → ℕ
root n = root_on n n

abbrev pub IsRootOf : ℕ → ℕ → Type 0
IsRootOf r n = (r * r ≤ n) × (n < (r + 1) * (r + 1))

grow-IsRootOf : (n s : ℕ) → IsRootOf s (n / 4) → IsRootOf (grow n (2 * s)) n
grow-IsRootOf n s (below, above) =
    let small : 2 * s * (2 * s) ≤ n = omega arith in
    let large : n < (2 * s + 2) * (2 * s + 2) = omega arith in
    elim (Bool-cases (leb ((2 * s + 1) * (2 * s + 1)) n)) [
      | inl e ↦ (let le = leb→le ((2 * s + 1) * (2 * s + 1)) n e in rw e (le, omega arith))
      | inr e ↦ rw e (small, ground arith)
    ]

root_on-IsRootOf : (fuel n : ℕ) → n ≤ fuel → IsRootOf (root_on fuel n) n
root_on-IsRootOf zero zero le = omega arith
root_on-IsRootOf zero (suc n) le = omega arith
root_on-IsRootOf (suc fuel) zero le = omega arith
root_on-IsRootOf (suc fuel) (suc m) le =
    grow-IsRootOf (suc m) (root_on fuel (suc m / 4))
      (root_on-IsRootOf fuel (suc m / 4) (omega arith))

pub root-IsFloorSquareRoot : IsFloorSquareRoot root
root-IsFloorSquareRoot n = root_on-IsRootOf n n (omega arith)

abbrev pub host : AmmHost Stored
host = record {
  pools = record { try_from = to_pool; into = pool };
  configs = record { try_from = to_config; into = config };
  holdings = record { try_from = to_holding; into = holding };
  is_default = λ a. is_empty a.account_data;
  hash_bytes = sum;
  to_bytes = λ id. id ∷ [];
  for_public_pda = λ program seed. program * 1000 + seed;
  clock_01_program_account_id = 8;
  square_root = root;
}

abbrev pub account_at : AccountId → AccountId → Stored → AccountWithMetadata Stored
account_at id owner stored = record {
  account = record { program_owner = owner; balance = 0; account_data = stored; nonce = 0 };
  is_authorized = true;
  account_id = id;
}

-- Tokens 1 and 2, the AMM at 4, the token program at 5, the oracle at 6.
abbrev pub the_pool : PoolDefinition
the_pool = record {
  definition_token_a_id = 1;
  definition_token_b_id = 2;
  vault_a_id = 8054;
  vault_b_id = 8055;
  liquidity_pool_id = 9235;
  liquidity_pool_supply = 2000;
  reserve_a = 4000;
  reserve_b = 1000;
}

abbrev pub the_config : AmmConfig
the_config = record {
  token_program_id = 5;
  twap_oracle_program_id = 6;
  authority = 9;
  swap_fee_bps = 100;
  protocol_fee_bps = 5000;
}

pub host-RoundTrips : RoundTrips host.pools
host-RoundTrips p = refl
