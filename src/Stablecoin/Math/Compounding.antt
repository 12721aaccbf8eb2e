-- ===== src/Stablecoin/Math/Compounding.antt =====
-- What `compound_rate` of programs/stablecoin/core/src/math.rs approximates, and that its loop ends.
use native.Mathlib.Nat.{
  le_of_eq, pow-zero, pow-suc, mod-lt, div-add-mod', mul-le-mul, mul-le-mul_right,
  le_of_mul-le-mul_right, div-mul-le_self,
}
use mathlib.Core.Path.{subst}
use lez_programs.Shared.{
  pow-add, ℕ, zero, suc, ◌+◌, ◌*◌, ◌/◌, ◌%◌, ◌^◌, ◌<◌, ◌≤◌, ◌≡◌, ◌≢◌, ◌⊎◌, refl, sym, ap, ◌∙◌,
  ok-eq-ok, arith, Bool, true, false, ok, err, bind-eq-ok, Bool-cases, inl, inr, ◌==◌, ==→eq, eq→==,
  bind-≢-err, not, if◌then◌else◌,
}
use lez_programs.Stablecoin.Core.{Panic, fixed_point_one}
use lez_programs.Stablecoin.Math.{mul_div, multiply_if, compound_loop, compound_rate}
use lez_programs.Stablecoin.Math.Projection.{mul_div_lem}

-- `value`, with the denominator `one`, is at most the `n`-th power of `rate`, with the same
-- denominator.
abbrev pub IsWithinPower : ℕ → ℕ → ℕ → ℕ → Type 0
IsWithinPower one rate value n = value * one ^ n ≤ one * rate ^ n

within_product :
    (one r₁ r₂ p₁ p₂ x₁ x₂ q : ℕ)
    → 0 < one
    → q * one ≤ x₁ * x₂
    → x₁ * p₁ ≤ one * r₁
    → x₂ * p₂ ≤ one * r₂
    → q * (p₁ * p₂) ≤ one * (r₁ * r₂)
within_product one r₁ r₂ p₁ p₂ x₁ x₂ q pos floor h₁ h₂ =
    let both : x₁ * p₁ * (x₂ * p₂) ≤ one * r₁ * (one * r₂) = mul-le-mul h₁ h₂ in
    let down : q * one * (p₁ * p₂) ≤ x₁ * x₂ * (p₁ * p₂) = mul-le-mul_right (p₁ * p₂) floor in
    le_of_mul-le-mul_right {m = q * (p₁ * p₂)} {n = one * (r₁ * r₂)} {k = one} (omega arith) pos

multiply_if-IsWithinPower :
    (rate : ℕ) (bit : Bool) (x y i j : ℕ) {q : ℕ}
    → IsWithinPower fixed_point_one rate x i
    → IsWithinPower fixed_point_one rate y j
    → multiply_if bit x y ≡ ok q
    → IsWithinPower fixed_point_one rate q (if bit then i + j else i)
unfolding multiply_if
multiply_if-IsWithinPower rate true x y i j {q} hx hy e =
    let (_, eq, _) = mul_div_lem x y fixed_point_one e in
    let floor : q * fixed_point_one ≤ x * y = rw eq (div-mul-le_self (x * y) fixed_point_one) in
    rw (pow-add, pow-add)
      (within_product fixed_point_one (rate ^ i) (rate ^ j) (fixed_point_one ^ i)
        (fixed_point_one ^ j) x y q (omega arith) floor hx hy)
multiply_if-IsWithinPower rate false x y i j {q} hx hy e =
    subst (λ (t : ℕ). IsWithinPower fixed_point_one rate t i) (ok-eq-ok {P = Panic} e) hx

doubled : (b h : ℕ) → (if not (h == 0) then b + b else b) * h ≡ (b + b) * h
doubled b zero = omega arith
doubled b (suc h) = (let n : (suc h == 0) ≡ false = ground arith in rw n refl)

halved : (a b r h : ℕ) → r < 2 → (if r == 1 then a + b else a) + (b + b) * h ≡ a + b * (h * 2 + r)
halved a b zero h lt = omega arith
halved a b (suc zero) h lt = omega arith
halved a b (suc (suc r)) h lt = omega arith

-- The exponents after a round make up the same total.
halves :
    (a b exponent : ℕ)
    → (if exponent % 2 == 1 then a + b else a)
        + (if not (exponent / 2 == 0) then b + b else b) * (exponent / 2)
      ≡ a + b * exponent
halves a b exponent =
    let whole : exponent / 2 * 2 + exponent % 2 ≡ exponent = div-add-mod' exponent 2 in
    ap (λ (t : ℕ). (if exponent % 2 == 1 then a + b else a) + t) (doubled b (exponent / 2))
    ∙ halved a b (exponent % 2) (exponent / 2) (mod-lt exponent (omega arith))
    ∙ ap (λ (t : ℕ). a + b * t) whole

within_zero :
    (rate result a b exponent : ℕ) {v : ℕ}
    → exponent ≡ 0
    → IsWithinPower fixed_point_one rate result a
    → result ≡ v
    → IsWithinPower fixed_point_one rate v (a + b * exponent)
within_zero rate result a b exponent {v} z hr eq =
    let total : a ≡ a + b * exponent = rw z (omega arith) in
    subst (λ (t : ℕ). IsWithinPower fixed_point_one rate v t) total
      (subst (λ (t : ℕ). IsWithinPower fixed_point_one rate t a) eq hr)

compound_loop-IsWithinPower :
    (rate fuel result base exponent a b : ℕ) {v : ℕ}
    → IsWithinPower fixed_point_one rate result a
    → IsWithinPower fixed_point_one rate base b
    → compound_loop fuel result base exponent ≡ ok v
    → IsWithinPower fixed_point_one rate v (a + b * exponent)
unfolding compound_loop
compound_loop-IsWithinPower rate zero result base exponent a b {v} hr hb e =
    elim (Bool-cases (exponent == 0)) [
      | inl z ↦
          within_zero rate result a b exponent (==→eq exponent 0 z) hr
            (ok-eq-ok {P = Panic} (rw z at e))
      | inr n ↦ cc
    ]
compound_loop-IsWithinPower rate (suc fuel) result base exponent a b {v} hr hb e =
    elim (Bool-cases (exponent == 0)) [
      | inl z ↦
          within_zero rate result a b exponent (==→eq exponent 0 z) hr
            (ok-eq-ok {P = Panic} (rw (compound_loop, z) at e))
      | inr n ↦
          (let e₀ : _ ≡ ok v = rw (compound_loop, n) at e in
            let (r, er, e₁) = bind-eq-ok (multiply_if (exponent % 2 == 1) result base) _ e₀ in
            let (s, es, e₂) = bind-eq-ok (multiply_if (not (exponent / 2 == 0)) base base) _ e₁ in
            subst (IsWithinPower fixed_point_one rate v) (halves a b exponent) (
              compound_loop-IsWithinPower rate fuel r s (exponent / 2) _ _
                (multiply_if-IsWithinPower rate (exponent % 2 == 1) result base a b hr hb er)
                (multiply_if-IsWithinPower rate (not (exponent / 2 == 0)) base base b b hb hb es)
                e₂))
    ]

within_start : (rate : ℕ) → IsWithinPower fixed_point_one rate fixed_point_one 0
within_start rate = rw (pow-zero rate) (omega arith)

within_once : (rate : ℕ) → IsWithinPower fixed_point_one rate rate 1
within_once rate = rw (pow-suc rate 0, pow-zero rate) (omega arith)

pub compound_rate-cases :
    (rate elapsed : ℕ)
    → ((elapsed ≡ 0) × (compound_rate rate elapsed ≡ ok fixed_point_one))
      ⊎ (((rate ≡ fixed_point_one) × (compound_rate rate elapsed ≡ ok fixed_point_one))
          ⊎ (compound_rate rate elapsed ≡ compound_loop 64 fixed_point_one rate elapsed))
unfolding compound_rate
compound_rate-cases rate elapsed = elim (Bool-cases (elapsed == 0)) [
  | inl z ↦ inl (==→eq elapsed 0 z, rw z refl)
  | inr n ↦ elim (Bool-cases (rate == fixed_point_one)) [
    | inl one ↦ inr (inl (==→eq rate fixed_point_one one, rw (n, one) refl))
    | inr other ↦ inr (inr (rw (n, other) refl))
  ]
]

-- Compounding rounds down: the factor is at most the exact power of the rate.
pub compound_rate-IsWithinPower :
    (rate elapsed : ℕ) {v : ℕ}
    → compound_rate rate elapsed ≡ ok v
    → IsWithinPower fixed_point_one rate v elapsed
compound_rate-IsWithinPower rate elapsed {v} e = elim (compound_rate-cases rate elapsed) [
  | inl (z, eq) ↦
      (let one : fixed_point_one ≡ v = ok-eq-ok {P = Panic} (sym eq ∙ e) in
        rw (z, sym one) (within_start rate))
  | inr (inl (r, eq)) ↦
      (let one : fixed_point_one ≡ v = ok-eq-ok {P = Panic} (sym eq ∙ e) in
        rw (r, sym one) (le_of_eq refl))
  | inr (inr eq) ↦
      (let total : 0 + 1 * elapsed ≡ elapsed = omega arith in
        subst (IsWithinPower fixed_point_one rate v) total (
          compound_loop-IsWithinPower rate 64 fixed_point_one rate elapsed 0 1 (within_start rate)
            (within_once rate) (sym eq ∙ e)))
]

multiply_if-ends : (bit : Bool) (x y : ℕ) → multiply_if bit x y ≢ err Panic.out_of_fuel
unfolding multiply_if mul_div
multiply_if-ends true x y e = ground arith
multiply_if-ends false x y e = ground arith

compound_loop-ends :
    (fuel result base exponent : ℕ)
    → exponent < 2 ^ fuel
    → compound_loop fuel result base exponent ≢ err Panic.out_of_fuel
unfolding compound_loop
compound_loop-ends zero result base exponent lt e = elim (Bool-cases (exponent == 0)) [
  | inl z ↦ (let bad : ok result ≡ err Panic.out_of_fuel = rw z at e in cc)
  | inr n ↦ (let z = eq→== exponent 0 (omega arith) in cc)
]
compound_loop-ends (suc fuel) result base exponent lt e = elim (Bool-cases (exponent == 0)) [
  | inl z ↦ (let bad : ok result ≡ err Panic.out_of_fuel = rw (compound_loop, z) at e in cc)
  | inr n ↦
      (let half : exponent / 2 < 2 ^ fuel = omega (arith, pow-suc 2 fuel) in
        bind-≢-err (multiply_if (exponent % 2 == 1) result base) _ Panic.out_of_fuel
          (multiply_if-ends (exponent % 2 == 1) result base)
          (λ r.
            bind-≢-err (multiply_if (not (exponent / 2 == 0)) base base) _ Panic.out_of_fuel
              (multiply_if-ends (not (exponent / 2 == 0)) base base)
              (λ b. compound_loop-ends fuel r b (exponent / 2) half))
          (rw (compound_loop, n) at e))
]

-- Whatever the rate, the loop ends within the 64 rounds of a 64-bit window.
pub compound_rate-ends :
    (rate elapsed : ℕ) → elapsed < 2 ^ 64 → compound_rate rate elapsed ≢ err Panic.out_of_fuel
compound_rate-ends rate elapsed lt e = elim (compound_rate-cases rate elapsed) [
  | inl (_, eq) ↦ (let bad : ok fixed_point_one ≡ err Panic.out_of_fuel = sym eq ∙ e in cc)
  | inr (inl (_, eq)) ↦ (let bad : ok fixed_point_one ≡ err Panic.out_of_fuel = sym eq ∙ e in cc)
  | inr (inr eq) ↦ compound_loop-ends 64 fixed_point_one rate elapsed lt (sym eq ∙ e)
]
