-- ===== src/Shared/Integer.antt =====
-- Signed numbers over the native naturals, for the signed words of the programs. Their order and
-- their laws are read off the two parts of a number, so that `omega` decides them.
use Prim.Native.Nat.{ℕ, zero, suc, ◌+◌, ◌-◌, ◌*◌, ◌≤◌}
use mathlib.Core.Path.{◌≡◌, refl}
use native.Mathlib.Omega.{arith}
use mathlib.Core.Bool.{Bool}
use lez_programs.Shared.Test.{leb, if◌then◌else◌}

-- `negsuc n` is minus `n + 1`.
pub data ℤ : Type 0 where
  pos negsuc : ℕ → ℤ

abbrev pub abs : ℤ → ℕ
abs (ℤ.pos n) = n
abs (ℤ.negsuc n) = suc n

abbrev pub neg : ℕ → ℤ
neg zero = ℤ.pos 0
neg (suc n) = ℤ.negsuc n

-- The difference of two unsigned words.
abbrev pub difference : ℕ → ℕ → ℤ
difference a b = if leb b a then ℤ.pos (a - b) else neg (b - a)

infixl 6 ◌+ℤ◌
abbrev pub ◌+ℤ◌ : ℤ → ℤ → ℤ
ℤ.pos a +ℤ ℤ.pos b = ℤ.pos (a + b)
ℤ.pos a +ℤ ℤ.negsuc b = difference a (suc b)
ℤ.negsuc a +ℤ ℤ.pos b = difference b (suc a)
ℤ.negsuc a +ℤ ℤ.negsuc b = ℤ.negsuc (suc (a + b))

infixl 7 ◌*ℤ◌
abbrev pub ◌*ℤ◌ : ℤ → ℤ → ℤ
ℤ.pos a *ℤ ℤ.pos b = ℤ.pos (a * b)
ℤ.pos a *ℤ ℤ.negsuc b = neg (a * suc b)
ℤ.negsuc a *ℤ ℤ.pos b = neg (suc a * b)
ℤ.negsuc a *ℤ ℤ.negsuc b = ℤ.pos (suc a * suc b)

-- A number is its positive part less its negative part, of which one is 0.
abbrev pub positive_part : ℤ → ℕ
positive_part (ℤ.pos n) = n
positive_part (ℤ.negsuc n) = 0

abbrev pub negative_part : ℤ → ℕ
negative_part (ℤ.pos n) = 0
negative_part (ℤ.negsuc n) = suc n

infixl 6 ◌-ℤ◌
abbrev pub ◌-ℤ◌ : ℤ → ℤ → ℤ
a -ℤ ℤ.pos b = a +ℤ neg b
a -ℤ ℤ.negsuc b = a +ℤ ℤ.pos (suc b)

infix 4 ◌≤ℤ◌
abbrev pub ◌≤ℤ◌ : ℤ → ℤ → Type 0
a ≤ℤ b = positive_part a + negative_part b ≤ positive_part b + negative_part a

abbrev pub leb_ℤ : ℤ → ℤ → Bool
leb_ℤ a b = leb (positive_part a + negative_part b) (positive_part b + negative_part a)

pub abs-neg : (n : ℕ) → abs (neg n) ≡ n
abs-neg zero = refl
abs-neg (suc n) = refl

pub abs-difference : (a b m : ℕ) → a ≤ m → b ≤ m → abs (difference a b) ≤ m
abs-difference a b m ha hb = ground (arith, abs-neg (b - a))

pub abs-◌*ℤ◌ : (x y : ℤ) → abs (x *ℤ y) ≡ abs x * abs y
abs-◌*ℤ◌ (ℤ.pos a) (ℤ.pos b) = refl
abs-◌*ℤ◌ (ℤ.pos a) (ℤ.negsuc b) = abs-neg (a * suc b)
abs-◌*ℤ◌ (ℤ.negsuc a) (ℤ.pos b) = abs-neg (suc a * b)
abs-◌*ℤ◌ (ℤ.negsuc a) (ℤ.negsuc b) = refl

pub abs-◌+ℤ◌ : (x y : ℤ) → abs (x +ℤ y) ≤ abs x + abs y
abs-◌+ℤ◌ (ℤ.pos a) (ℤ.pos b) = omega arith
abs-◌+ℤ◌ (ℤ.pos a) (ℤ.negsuc b) = abs-difference a (suc b) (a + suc b) (omega arith) (omega arith)
abs-◌+ℤ◌ (ℤ.negsuc a) (ℤ.pos b) = abs-difference b (suc a) (suc a + b) (omega arith) (omega arith)
abs-◌+ℤ◌ (ℤ.negsuc a) (ℤ.negsuc b) = omega arith

-- Of the two parts of a number one is 0.
pub parts_exclusive : (a : ℤ) → positive_part a * negative_part a ≡ 0
parts_exclusive (ℤ.pos n) = omega arith
parts_exclusive (ℤ.negsuc n) = omega arith

pub parts-neg : (n : ℕ) → positive_part (neg n) + n ≡ negative_part (neg n)
parts-neg zero = refl
parts-neg (suc n) = omega arith

pub parts-difference :
    (a b : ℕ) → positive_part (difference a b) + b ≡ negative_part (difference a b) + a
parts-difference a b = ground (arith, parts-neg (b - a))

pub parts-◌+ℤ◌ :
    (a b : ℤ)
    → positive_part (a +ℤ b) + (negative_part a + negative_part b)
      ≡ negative_part (a +ℤ b) + (positive_part a + positive_part b)
parts-◌+ℤ◌ (ℤ.pos a) (ℤ.pos b) = omega arith
parts-◌+ℤ◌ (ℤ.pos a) (ℤ.negsuc b) = omega (arith, parts-difference a (suc b))
parts-◌+ℤ◌ (ℤ.negsuc a) (ℤ.pos b) = omega (arith, parts-difference b (suc a))
parts-◌+ℤ◌ (ℤ.negsuc a) (ℤ.negsuc b) = omega arith

pub parts-◌-ℤ◌ :
    (a b : ℤ)
    → positive_part (a -ℤ b) + (negative_part a + positive_part b)
      ≡ negative_part (a -ℤ b) + (positive_part a + negative_part b)
parts-◌-ℤ◌ a (ℤ.pos b) = omega (arith, parts-◌+ℤ◌ a (neg b), parts-neg b)
parts-◌-ℤ◌ a (ℤ.negsuc b) = omega (arith, parts-◌+ℤ◌ a (ℤ.pos (suc b)))

pub parts-◌*ℤ◌ :
    (a : ℤ) (k : ℕ)
    → positive_part (a *ℤ ℤ.pos k) + negative_part a * k
      ≡ negative_part (a *ℤ ℤ.pos k) + positive_part a * k
parts-◌*ℤ◌ (ℤ.pos a) k = omega arith
parts-◌*ℤ◌ (ℤ.negsuc a) k = omega (arith, parts-neg (suc a * k))
