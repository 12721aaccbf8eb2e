-- ===== src/Stablecoin/Math/Projection.antt =====
-- The 512-bit path of programs/stablecoin/core/src/math.rs against the 128-bit one.

use mathlib.Core.Path.{subst}
use lez_programs.Shared.{
  ℕ, zero, suc, ◌*◌, ◌/◌, ◌%◌, ◌^◌, ◌<◌, ◌≡◌, sym, ap, ok-eq-ok, arith, Bool, true, false, ok,
  IsU128, bind-eq-ok, Bool-cases, inl, inr, lt→ltb, ◌==◌, not, ◌||◌, some, mul-IsU256, min,
}
use lez_programs.Stablecoin.Core.{Panic, fixed_point_one}
use lez_programs.Stablecoin.Math.{
  mul_div, compound_loop, compound_rate, multiply_if, wide_multiply_if, wide_product,
  compound_wide_loop, compound_rate_wide_result, compound_rate_wide, try_project_rate_wide,
  project_forward_wide, compute_current_accumulated_rate, compute_current_accumulated_rate_wide,
  elapsed_window, u512_max,
}

pub mul_div_lem :
    (a b c : ℕ) {q : ℕ} → mul_div a b c ≡ ok q → (0 < c) × (q ≡ a * b / c) × (q < 2 ^ 128)
unfolding mul_div
mul_div_lem a b c e = ground arith

-- Of two words, the wide product is exact.
wide_product_lem : (a b : ℕ) → IsU128 a → IsU128 b → wide_product a b ≡ (a * b, false)
unfolding wide_product
wide_product_lem a b ha hb = ground (arith, mul-IsU256 a b ha hb)

pub mul_div_one :
    (a b : ℕ) {q : ℕ}
    → mul_div a b fixed_point_one ≡ ok q
    → (q ≡ a * b / fixed_point_one) × IsU128 q
mul_div_one a b e = let (_, eq, small) = mul_div_lem a b fixed_point_one e in (eq, small)

multiply_if_lem :
    (bit : Bool) (value factor : ℕ) {q : ℕ}
    → IsU128 value
    → IsU128 factor
    → multiply_if bit value factor ≡ ok q
    → (wide_multiply_if bit value factor ≡ (q, false)) × IsU128 q
unfolding multiply_if wide_multiply_if
multiply_if_lem true value factor {q} hv hf e =
    let (eq, small) = mul_div_one value factor e in
    (rw (wide_product_lem value factor hv hf) (ap (λ (t : ℕ). (t, false)) (sym eq)), small)
multiply_if_lem false value factor {q} hv hf e =
    let eq = ok-eq-ok {P = Panic} e in (ap (λ (t : ℕ). (t, false)) eq, subst IsU128 eq hv)

-- A run of the 128-bit loop that does not panic is a run of the wide one that does not saturate.
compound_wide_loop_lem :
    (fuel result base exponent : ℕ) {v : ℕ}
    → IsU128 result
    → IsU128 base
    → compound_loop fuel result base exponent ≡ ok v
    → (compound_wide_loop fuel result base exponent false ≡ ok (v, false)) × IsU128 v
unfolding compound_loop compound_wide_loop
compound_wide_loop_lem zero result base exponent {v} hr hb e = elim (Bool-cases (exponent == 0)) [
  | inl z ↦
      (let eq = ok-eq-ok {P = Panic} (rw z at e) in
        (rw z (ap (λ (t : ℕ). ok (t, false)) eq), subst IsU128 eq hr))
  | inr n ↦ cc
]
compound_wide_loop_lem (suc fuel) result base exponent {v} hr hb e =
    elim (Bool-cases (exponent == 0)) [
      | inl z ↦
          (let eq = ok-eq-ok {P = Panic} (rw (compound_loop, z) at e) in
            (rw (compound_wide_loop, z) (ap (λ (t : ℕ). ok (t, false)) eq), subst IsU128 eq hr))
      | inr n ↦
          (let e₀ : _ ≡ ok v = rw (compound_loop, n) at e in
            let (r, er, e₁) = bind-eq-ok (multiply_if (exponent % 2 == 1) result base) _ e₀ in
            let (b, eb, e₂) = bind-eq-ok (multiply_if (not (exponent / 2 == 0)) base base) _ e₁ in
            let (wr, small_r) = multiply_if_lem (exponent % 2 == 1) result base hr hb er in
            let (wb, small_b) = multiply_if_lem (not (exponent / 2 == 0)) base base hb hb eb in
            rw (compound_wide_loop, n, wr, wb)
              (compound_wide_loop_lem fuel r b (exponent / 2) small_r small_b e₂))
    ]

pub compound_rate_wide_result_lem :
    (rate elapsed : ℕ) {v : ℕ}
    → IsU128 rate
    → compound_rate rate elapsed ≡ ok v
    → (compound_rate_wide_result rate elapsed ≡ ok (v, false)) × IsU128 v
unfolding compound_rate compound_rate_wide_result
compound_rate_wide_result_lem rate elapsed {v} hr e =
    elim (Bool-cases (elapsed == 0 || rate == fixed_point_one)) [
      | inl z ↦
          (let eq = ok-eq-ok {P = Panic} (rw z at e) in
            (rw z (ap (λ (t : ℕ). ok (t, false)) eq), subst IsU128 eq (omega arith)))
      | inr n ↦
          rw n (compound_wide_loop_lem 64 fixed_point_one rate elapsed (omega arith) hr (rw n at e))
    ]

-- Where the 128-bit projection of the accumulated rate does not panic, the 512-bit one that
-- collateralization is tested with, and the one that quotes call exact, give the same number.
pub compute_current_accumulated_rate-wide :
    (anchor rate last now v : ℕ)
    → IsU128 anchor
    → IsU128 rate
    → compute_current_accumulated_rate anchor rate last now ≡ ok v
    → (compute_current_accumulated_rate_wide anchor rate last now ≡ ok v)
      × (try_project_rate_wide anchor rate last now ≡ ok (some v))
unfolding compute_current_accumulated_rate compute_current_accumulated_rate_wide
    project_forward_wide compound_rate_wide try_project_rate_wide
compute_current_accumulated_rate-wide anchor rate last now v ha hr e =
    let (factor, ef, e₁) = bind-eq-ok (compound_rate rate (elapsed_window last now)) _ e in
    let (wide, small) = compound_rate_wide_result_lem rate (elapsed_window last now) hr ef in
    let (eq, _) = mul_div_one anchor factor e₁ in
    let fits = mul-IsU256 anchor factor ha small in
    let uncapped : min (anchor * factor) u512_max ≡ anchor * factor = omega arith in
    let tested = lt→ltb (anchor * factor) (2 ^ 512) (omega arith) in
    (
      rw (wide, uncapped) (ap (λ (t : ℕ). ok t) (sym eq)),
      rw (wide, tested) (ap (λ (t : ℕ). ok (some t)) (sym eq)),
    )
