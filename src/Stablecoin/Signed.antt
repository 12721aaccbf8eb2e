-- ===== src/Stablecoin/Signed.antt =====
-- The signed words of programs/stablecoin/core/src/controller.rs: `I256` of `alloy_primitives` and
-- `i128`, whose division rounds toward zero.
use native.Mathlib.Nat.{div-le_self}
use lez_programs.Shared.{
  ℕ, suc, ◌-◌, ◌/◌, ◌^◌, ◌<◌, ◌≤◌, ◌≡◌, refl, arith, Result, ok, guard, ◌>>◌, Bool, ltb, lt→ltb,
  min, max, ℤ, abs, neg, abs-neg,
}
use lez_programs.Stablecoin.Core.{Panic}

-- Division by a positive number, toward zero.
abbrev pub quotient : ℤ → ℕ → ℤ
quotient (ℤ.pos a) c = ℤ.pos (a / c)
quotient (ℤ.negsuc a) c = neg (suc a / c)

abbrev pub fits_i256 : ℤ → Bool
fits_i256 (ℤ.pos n) = ltb n (2 ^ 255)
fits_i256 (ℤ.negsuc n) = ltb n (2 ^ 255)

-- The result of a checked operation on `I256`.
abbrev pub checked : ℤ → Result Panic ℤ
checked z = guard (fits_i256 z) Panic.controller_overflow >> ok z

-- What a saturating operation on `i128` leaves of an exact result.
abbrev pub saturate_i128 : ℤ → ℤ
saturate_i128 (ℤ.pos n) = ℤ.pos (min n (2 ^ 127 - 1))
saturate_i128 (ℤ.negsuc n) = ℤ.negsuc (min n (2 ^ 127 - 1))

-- `value.max(1) as u128`
abbrev pub at_least_one : ℤ → ℕ
at_least_one (ℤ.pos n) = max n 1
at_least_one (ℤ.negsuc n) = 1

pub abs-quotient : (x : ℤ) (c : ℕ) → abs (quotient x c) ≤ abs x
abs-quotient (ℤ.pos a) c = div-le_self a c
abs-quotient (ℤ.negsuc a) c = rw (abs-neg (suc a / c)) (div-le_self (suc a) c)

pub checked_fits : (x : ℤ) → abs x < 2 ^ 255 → checked x ≡ ok x
checked_fits (ℤ.pos n) h = rw (lt→ltb n (2 ^ 255) h) refl
checked_fits (ℤ.negsuc n) h = rw (lt→ltb n (2 ^ 255) (omega arith)) refl
