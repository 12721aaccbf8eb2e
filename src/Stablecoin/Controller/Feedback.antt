-- ===== src/Stablecoin/Controller/Feedback.antt =====
-- The direction in which the controller of programs/stablecoin/core/src/controller.rs steers.
use native.Mathlib.Nat.{div-le_self}
use lez_programs.Shared.{
  ℕ, zero, suc, ◌+◌, ◌-◌, ◌*◌, ◌/◌, ◌≤◌, ◌≡◌, refl, arith, ok, ok-eq-ok, bind-eq-ok, guard-eq-ok,
  ap, sym, ◌∙◌, min, ℤ, pos, neg, difference, ◌+ℤ◌, ◌*ℤ◌,
}
use lez_programs.Stablecoin.Core.{Panic, fixed_point_one, rate_delta_clamp, integral_clamp}
use lez_programs.Stablecoin.Signed.{quotient, checked, fits_i256}
use lez_programs.Stablecoin.Controller.{
  ControllerOutput, clamp_to_magnitude, bounded_rate, run_controller_tick,
}

-- The sign that steers up, and the sign that steers down; zero has both.
abbrev pub IsUp : ℤ → Type 0
IsUp z = (n : ℕ) × (z ≡ pos n)

abbrev pub IsDown : ℤ → Type 0
IsDown z = (n : ℕ) × (z ≡ neg n)

difference-IsUp : (a b : ℕ) → b ≤ a → IsUp (difference a b)
difference-IsUp a b h = (a - b, ground arith)

difference-IsDown : (a b : ℕ) → a ≤ b → IsDown (difference a b)
difference-IsDown a b h = (b - a, ground arith)

gain-IsDown : (k n : ℕ) → pos k *ℤ neg n ≡ neg (k * n)
gain-IsDown k zero = let z : k * 0 ≡ 0 = omega arith in ap pos z ∙ sym (ap neg z)
gain-IsDown k (suc n) = refl

sum-IsDown : (m n : ℕ) → neg m +ℤ neg n ≡ neg (m + n)
sum-IsDown zero zero = refl
sum-IsDown zero (suc n) = ground arith
sum-IsDown (suc m) zero = ground arith
sum-IsDown (suc m) (suc n) = let e : suc (suc (m + n)) ≡ suc m + suc n = omega arith in ap neg e

quotient-IsDown : (n c : ℕ) → IsDown (quotient (neg n) c)
quotient-IsDown zero c = (0, ground (arith, div-le_self 0 c))
quotient-IsDown (suc n) c = (suc n / c, refl)

clamp_to_magnitude-IsUp : (n m : ℕ) → IsUp (clamp_to_magnitude (pos n) m)
unfolding clamp_to_magnitude
clamp_to_magnitude-IsUp n m = (min n m, ground arith)

clamp_to_magnitude-IsDown : (n m : ℕ) → IsDown (clamp_to_magnitude (neg n) m)
unfolding clamp_to_magnitude
clamp_to_magnitude-IsDown zero m = (0, ground arith)
clamp_to_magnitude-IsDown (suc n) m = (min (suc n) m, ground arith)

bounded_rate-up : (price : ℕ) (z : ℤ) → IsUp z → fixed_point_one ≤ bounded_rate price z
unfolding bounded_rate
bounded_rate-up price z (n, e) = rw e (ground arith)

bounded_rate-down : (price : ℕ) (z : ℤ) → IsDown z → bounded_rate price z ≤ fixed_point_one
unfolding bounded_rate
bounded_rate-down price z (zero, e) = rw e (ground arith)
bounded_rate-down price z (suc n, e) = rw e (ground arith)

checked_lem : (z : ℤ) {y : ℤ} → checked z ≡ ok y → y ≡ z
checked_lem z e = let (_, same) = guard-eq-ok (fits_i256 z) _ _ e in sym (ok-eq-ok {P = Panic} same)

-- The adjustment of a tick, from the intermediates of its body.
record Adjusted (price market : ℕ) (term kp ki : ℤ) (elapsed : ℕ) (out : ControllerOutput)
    : Type 0 where
  adjustment : ℤ
  sum : ℤ
  is_sum : sum ≡ term +ℤ quotient (ki *ℤ difference price market *ℤ pos elapsed) fixed_point_one
  is_adjustment :
      adjustment
      ≡ quotient (kp *ℤ difference price market) fixed_point_one
        +ℤ clamp_to_magnitude sum integral_clamp
  is_rate :
      out.redemption_rate_per_millisecond
      ≡ bounded_rate price (clamp_to_magnitude adjustment rate_delta_clamp)

run_controller_tick-Adjusted :
    (price market : ℕ) (term kp ki : ℤ) (elapsed : ℕ) {out : ControllerOutput}
    → run_controller_tick price market term kp ki elapsed ≡ ok out
    → Adjusted price market term kp ki elapsed out
unfolding run_controller_tick
run_controller_tick-Adjusted price market term kp ki elapsed {out} e =
    let (error, h₀, e₀) = bind-eq-ok (checked (difference price market)) _ e in
    let (p, h₁, e₁) = bind-eq-ok (checked (kp *ℤ error)) _ e₀ in
    let (d, h₂, e₂) = bind-eq-ok (checked (ki *ℤ error)) _ e₁ in
    let (t, h₃, e₃) = bind-eq-ok (checked (d *ℤ pos elapsed)) _ e₂ in
    let (s, h₄, e₄) = bind-eq-ok (checked (term +ℤ quotient t fixed_point_one)) _ e₃ in
    let (r, h₅, e₅) =
      bind-eq-ok (checked (quotient p fixed_point_one +ℤ clamp_to_magnitude s integral_clamp)) _
        e₄ in
    let is_error = checked_lem (difference price market) h₀ in
    let is_p = checked_lem (kp *ℤ error) h₁ ∙ ap (λ (z : ℤ). kp *ℤ z) is_error in
    let is_d = checked_lem (ki *ℤ error) h₂ ∙ ap (λ (z : ℤ). ki *ℤ z) is_error in
    let is_t = checked_lem (d *ℤ pos elapsed) h₃ ∙ ap (λ (z : ℤ). z *ℤ pos elapsed) is_d in
    record {
      adjustment = r;
      sum = s;
      is_sum =
          checked_lem (term +ℤ quotient t fixed_point_one) h₄
          ∙ ap (λ (z : ℤ). term +ℤ quotient z fixed_point_one) is_t;
      is_adjustment =
          checked_lem (quotient p fixed_point_one +ℤ clamp_to_magnitude s integral_clamp) h₅
          ∙ ap (λ (z : ℤ). quotient z fixed_point_one +ℤ clamp_to_magnitude s integral_clamp) is_p;
      is_rate = sym (
          ap (λ (o : ControllerOutput). o.redemption_rate_per_millisecond)
            (ok-eq-ok {P = Panic} e₅));
    }

nothing : (k : ℕ) → 0 * k ≡ 0
nothing k = omega arith

product-IsUp : (k : ℕ) (z : ℤ) → IsUp z → IsUp (pos k *ℤ z)
product-IsUp k z (n, e) = (k * n, ap (λ (t : ℤ). pos k *ℤ t) e)

product-IsDown : (k : ℕ) (z : ℤ) → IsDown z → IsDown (pos k *ℤ z)
product-IsDown k z (n, e) = (k * n, ap (λ (t : ℤ). pos k *ℤ t) e ∙ gain-IsDown k n)

time-IsUp : (k : ℕ) (z : ℤ) → IsUp z → IsUp (z *ℤ pos k)
time-IsUp k z (n, e) = (n * k, ap (λ (t : ℤ). t *ℤ pos k) e)

time-IsDown : (k : ℕ) (z : ℤ) → IsDown z → IsDown (z *ℤ pos k)
time-IsDown k z (zero, e) = (0, ap (λ (t : ℤ). t *ℤ pos k) e ∙ ap pos (nothing k))
time-IsDown k z (suc n, e) = (suc n * k, ap (λ (t : ℤ). t *ℤ pos k) e)

part-IsUp : (c : ℕ) (z : ℤ) → IsUp z → IsUp (quotient z c)
part-IsUp c z (n, e) = (n / c, ap (λ (t : ℤ). quotient t c) e)

part-IsDown : (c : ℕ) (z : ℤ) → IsDown z → IsDown (quotient z c)
part-IsDown c z (n, e) = let (m, f) = quotient-IsDown n c in (m, ap (λ (t : ℤ). quotient t c) e ∙ f)

total-IsUp : (x y : ℤ) → IsUp x → IsUp y → IsUp (x +ℤ y)
total-IsUp x y (m, e) (n, f) = (m + n, ap (λ (t : ℤ). t +ℤ y) e ∙ ap (λ (t : ℤ). pos m +ℤ t) f)

total-IsDown : (x y : ℤ) → IsDown x → IsDown y → IsDown (x +ℤ y)
total-IsDown x y (m, e) (n, f) =
    (m + n, ap (λ (t : ℤ). t +ℤ y) e ∙ ap (λ (t : ℤ). neg m +ℤ t) f ∙ sum-IsDown m n)

kept-IsUp : (m : ℕ) (z : ℤ) → IsUp z → IsUp (clamp_to_magnitude z m)
kept-IsUp m z (n, e) =
    let (k, f) = clamp_to_magnitude-IsUp n m in (k, ap (λ (t : ℤ). clamp_to_magnitude t m) e ∙ f)

kept-IsDown : (m : ℕ) (z : ℤ) → IsDown z → IsDown (clamp_to_magnitude z m)
kept-IsDown m z (n, e) =
    let (k, f) = clamp_to_magnitude-IsDown n m in (k, ap (λ (t : ℤ). clamp_to_magnitude t m) e ∙ f)

same-IsUp : {x y : ℤ} → x ≡ y → IsUp y → IsUp x
same-IsUp e (n, f) = (n, e ∙ f)

same-IsDown : {x y : ℤ} → x ≡ y → IsDown y → IsDown x
same-IsDown e (n, f) = (n, e ∙ f)

-- With gains that are not negative, the feedback is negative: a market price at or below the
-- redemption price and an integral term that is not negative never give a rate below one, and a
-- market price at or above it and an integral term that is not positive never one above.
pub run_controller_tick-steers :
    (price market term kp ki elapsed : ℕ) (out₁ out₂ : ControllerOutput)
    → run_controller_tick price market (pos term) (pos kp) (pos ki) elapsed ≡ ok out₁
    → run_controller_tick price market (neg term) (pos kp) (pos ki) elapsed ≡ ok out₂
    → (market ≤ price → fixed_point_one ≤ out₁.redemption_rate_per_millisecond)
      × (price ≤ market → out₂.redemption_rate_per_millisecond ≤ fixed_point_one)
run_controller_tick-steers price market term kp ki elapsed out₁ out₂ e₁ e₂ =
    let x : Adjusted price market (pos term) (pos kp) (pos ki) elapsed out₁ =
      run_controller_tick-Adjusted price market (pos term) (pos kp) (pos ki) elapsed e₁ in
    let y : Adjusted price market (neg term) (pos kp) (pos ki) elapsed out₂ =
      run_controller_tick-Adjusted price market (neg term) (pos kp) (pos ki) elapsed e₂ in
    (
      λ h.
          let up = difference-IsUp price market h in
          let s = same-IsUp x.is_sum (
            total-IsUp _ _ (term, refl)
              (part-IsUp fixed_point_one _ (time-IsUp elapsed _ (product-IsUp ki _ up)))) in
          let r = same-IsUp x.is_adjustment (
            total-IsUp _ _ (part-IsUp fixed_point_one _ (product-IsUp kp _ up))
              (kept-IsUp integral_clamp _ s)) in
          rw x.is_rate (bounded_rate-up price _ (kept-IsUp rate_delta_clamp _ r)),
      λ h.
          let down = difference-IsDown price market h in
          let s = same-IsDown y.is_sum (
            total-IsDown _ _ (term, refl)
              (part-IsDown fixed_point_one _ (time-IsDown elapsed _ (product-IsDown ki _ down)))) in
          let r = same-IsDown y.is_adjustment (
            total-IsDown _ _ (part-IsDown fixed_point_one _ (product-IsDown kp _ down))
              (kept-IsDown integral_clamp _ s)) in
          rw y.is_rate (bounded_rate-down price _ (kept-IsDown rate_delta_clamp _ r)),
    )
