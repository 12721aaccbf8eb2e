-- ===== src/Shared/Word.antt =====
-- Unsigned machine words as native numbers: the checked and saturating operations of Rust.
use Prim.Native.Nat.{ℕ, zero, suc, ◌+◌, ◌-◌, ◌*◌, ◌^◌, ◌<◌, ◌≤◌}
use Prim.Native.Char.{code}
use Prim.Native.String.{String}
use mathlib.Core.List.{List, [], ◌∷◌}
use mathlib.Core.Option.{Option, none, some}
use native.Mathlib.Omega.{arith}
use native.Mathlib.Nat.{mul-le-mul, pow-zero, pow-suc}
use mathlib.Core.Path.{◌≡◌, ap, ◌∙◌}
use lez_programs.Shared.Test.{ltb, leb, if◌then◌else◌}

abbrev pub u128_modulus : ℕ
u128_modulus = 2 ^ 128

abbrev pub u128_max : ℕ
u128_max = 2 ^ 128 - 1

abbrev pub IsU128 : ℕ → Type 0
IsU128 n = n < 2 ^ 128

-- `a.checked_add(b)` on `u128`
abbrev pub checked_add : ℕ → ℕ → Option ℕ
checked_add a b = if ltb (a + b) u128_modulus then some (a + b) else none

-- `a.checked_sub(b)` on any unsigned word
abbrev pub checked_sub : ℕ → ℕ → Option ℕ
checked_sub a b = if leb b a then some (a - b) else none

pub checked_sub-some : (a b : ℕ) {c : ℕ} → checked_sub a b ≡ some c → (c ≡ a - b) × (b ≤ a)
checked_sub-some a b e = ground arith

pub checked_add-some : (a b : ℕ) {c : ℕ} → checked_add a b ≡ some c → a + b ≡ c
checked_add-some a b e = ground arith

abbrev pub IsU256 : ℕ → Type 0
IsU256 n = n < 2 ^ 256

-- `checked_mul` on `U256`, with the operands widened first
abbrev pub checked_mul_u256 : ℕ → ℕ → Option ℕ
checked_mul_u256 a b = if ltb (a * b) (2 ^ 256) then some (a * b) else none

-- `u128::try_from(wide)`
abbrev pub to_u128 : ℕ → Option ℕ
to_u128 n = if ltb n u128_modulus then some n else none

-- A product of two `u128` fits 256 bits.
pub mul-IsU256 : (a b : ℕ) → IsU128 a → IsU128 b → a * b < 2 ^ 256
mul-IsU256 a b ha hb =
    let h : a * b ≤ (2 ^ 128 - 1) * (2 ^ 128 - 1) =
      mul-le-mul {n₁ = a} {m₁ = b} {n₂ = 2 ^ 128 - 1} {m₂ = 2 ^ 128 - 1} (omega arith)
        (omega arith) in
    omega arith

pub pow-add : (n i j : ℕ) → n ^ (i + j) ≡ n ^ i * n ^ j
pow-add n i zero =
    let e : i + 0 ≡ i = omega arith in ap (λ (t : ℕ). n ^ t) e ∙ rw pow-zero (omega arith)
pow-add n i (suc j) =
    let e : i + suc j ≡ suc (i + j) = omega arith in
    let before : n ^ (i + j) ≡ n ^ i * n ^ j = pow-add n i j in
    ap (λ (t : ℕ). n ^ t) e ∙ rw (pow-suc, pow-suc, before) (omega arith)

-- The code points of a text: its bytes, if it is ASCII.
abbrev pub bytes_of : String → List ℕ
bytes_of String.[] = []
bytes_of (String.◌∷◌ c s) = code c ∷ bytes_of s
