-- ===== src/Twap/Feed/Ticks.antt =====
-- The arithmetic of ticks and their cumulative sums in programs/twap_oracle/src/record_tick.rs and
-- programs/twap_oracle/src/publish_price.rs.
use native.Mathlib.Nat.{mul-le-mul_right, div-add-mod', mod-lt}
use lez_programs.Shared.{
  ℕ, ◌+◌, ◌-◌, ◌*◌, ◌/◌, ◌^◌, ◌<◌, ◌≤◌, ◌≡◌, arith, ap, ℤ, pos, neg, ◌+ℤ◌, ◌-ℤ◌, ◌*ℤ◌, ◌≤ℤ◌,
  positive_part, negative_part, parts-◌+ℤ◌, parts-◌-ℤ◌, parts-◌*ℤ◌, some, abs, lt-or-le, inl, inr,
}
use lez_programs.Twap.Core.{
  max_tick_delta, clamp_ℤ, saturate_i32, checked_i64, checked_i32, div_euclid,
}
use lez_programs.Twap.Feed.{clamped_tick}

-- A sum of ticks over a time is between the sums of two constant ticks.
abbrev pub IsWithin : ℤ → ℤ → ℕ → ℤ → Type 0
IsWithin low high time sum = (low *ℤ pos time ≤ℤ sum) × (sum ≤ℤ high *ℤ pos time)

pub constant-IsWithin :
    (low high tick : ℤ) (time : ℕ)
    → low ≤ℤ tick
    → tick ≤ℤ high
    → IsWithin low high time (tick *ℤ pos time)
constant-IsWithin low high tick time h₁ h₂ =
    let a = parts-◌*ℤ◌ low time in
    let b = parts-◌*ℤ◌ tick time in
    let c = parts-◌*ℤ◌ high time in
    let low_scaled = mul-le-mul_right time h₁ in
    let high_scaled = mul-le-mul_right time h₂ in (omega arith, omega arith)

pub sum-IsWithin :
    (low high : ℤ) (t₁ t₂ : ℕ) (s₁ s₂ : ℤ)
    → IsWithin low high t₁ s₁
    → IsWithin low high t₂ s₂
    → IsWithin low high (t₁ + t₂) (s₁ +ℤ s₂)
sum-IsWithin low high t₁ t₂ s₁ s₂ (h₁, k₁) (h₂, k₂) =
    let a = parts-◌*ℤ◌ low t₁ in
    let b = parts-◌*ℤ◌ low t₂ in
    let c = parts-◌*ℤ◌ low (t₁ + t₂) in
    let d = parts-◌*ℤ◌ high t₁ in
    let e = parts-◌*ℤ◌ high t₂ in
    let f = parts-◌*ℤ◌ high (t₁ + t₂) in let g = parts-◌+ℤ◌ s₁ s₂ in (omega arith, omega arith)

-- `tick` is the floor of `sum` over `time`.
abbrev pub IsFloorOf : ℤ → ℤ → ℕ → Type 0
IsFloorOf tick sum time = (tick *ℤ pos time ≤ℤ sum) × (sum +ℤ pos 1 ≤ℤ (tick +ℤ pos 1) *ℤ pos time)

pub div_euclid-IsFloorOf :
    (sum : ℤ) (time : ℕ) → 0 < time → IsFloorOf (div_euclid sum time) sum time
div_euclid-IsFloorOf (ℤ.pos n) time h =
    let whole = div-add-mod' n time in let rest = mod-lt n h in (omega arith, omega arith)
div_euclid-IsFloorOf (ℤ.negsuc n) time h =
    let whole = div-add-mod' n time in
    let rest = mod-lt n h in
    let q = ℤ.negsuc (n / time) in
    let a = parts-◌*ℤ◌ q time in
    let b = parts-◌*ℤ◌ (q +ℤ pos 1) time in
    let c = parts-◌+ℤ◌ q (pos 1) in
    let d = parts-◌+ℤ◌ (ℤ.negsuc n) (pos 1) in
    let scaled = ap (λ (t : ℕ). t * time) c in (omega arith, omega arith)

-- The floor of a sum that is between those of two constant ticks is between the ticks.
pub floor-IsWithin :
    (low high sum tick : ℤ) (time : ℕ)
    → 0 < time
    → IsWithin low high time sum
    → IsFloorOf tick sum time
    → (low ≤ℤ tick) × (tick ≤ℤ high)
floor-IsWithin low high sum tick time h (h₁, h₂) (f₁, f₂) =
    let a = parts-◌*ℤ◌ tick time in
    let b = parts-◌*ℤ◌ (tick +ℤ pos 1) time in
    let c = parts-◌+ℤ◌ tick (pos 1) in
    let d = parts-◌+ℤ◌ sum (pos 1) in
    let scaled = ap (λ (t : ℕ). t * time) c in
    let e = parts-◌*ℤ◌ low time in
    let f = parts-◌*ℤ◌ high time in
    (
      elim (lt-or-le (positive_part tick + negative_part low)
          (positive_part low + negative_part tick)) [
            | inl below ↦ (let far = mul-le-mul_right time below in omega arith)
            | inr fine ↦ fine
          ],
      elim (lt-or-le (positive_part high + negative_part tick)
          (positive_part tick + negative_part high)) [
            | inl above ↦ (let far = mul-le-mul_right time above in omega arith)
            | inr fine ↦ fine
          ],
    )

pub checked_i64-some : (z : ℤ) {w : ℤ} → checked_i64 z ≡ some w → z ≡ w
checked_i64-some (ℤ.pos n) e = ground arith
checked_i64-some (ℤ.negsuc n) e = ground arith

pub checked_i32-some : (z : ℤ) {w : ℤ} → checked_i32 z ≡ some w → z ≡ w
checked_i32-some (ℤ.pos n) e = ground arith
checked_i32-some (ℤ.negsuc n) e = ground arith

-- The values of an `i32`.
abbrev pub IsI32 : ℤ → Type 0
IsI32 z = (neg (2 ^ 31) ≤ℤ z) × (z ≤ℤ pos (2 ^ 31 - 1))

saturate_i32-IsI32 : (z : ℤ) → IsI32 (saturate_i32 z)
saturate_i32-IsI32 (ℤ.pos n) = (omega arith, omega arith)
saturate_i32-IsI32 (ℤ.negsuc n) = (omega arith, omega arith)

saturate_i32-ge : (low z : ℤ) → low ≤ℤ z → low ≤ℤ pos (2 ^ 31 - 1) → low ≤ℤ saturate_i32 z
saturate_i32-ge low (ℤ.pos n) h k = omega arith
saturate_i32-ge low (ℤ.negsuc n) h k = omega arith

saturate_i32-le : (high z : ℤ) → z ≤ℤ high → neg (2 ^ 31) ≤ℤ high → saturate_i32 z ≤ℤ high
saturate_i32-le high (ℤ.pos n) h k = omega arith
saturate_i32-le high (ℤ.negsuc n) h k = omega arith

clamp_ℤ-IsBetween :
    (z low high : ℤ) → low ≤ℤ high → (low ≤ℤ clamp_ℤ z low high) × (clamp_ℤ z low high ≤ℤ high)
clamp_ℤ-IsBetween z low high h = ground arith

-- What is recorded is an `i32`, at most `max_tick_delta` from what was recorded before.
pub clamped_tick-IsNear :
    (last current : ℤ)
    → IsI32 last
    → (last -ℤ pos max_tick_delta ≤ℤ clamped_tick last current)
      × (clamped_tick last current ≤ℤ last +ℤ pos max_tick_delta)
      × IsI32 (clamped_tick last current)
unfolding clamped_tick
clamped_tick-IsNear last current (h, k) =
    let c = clamp_ℤ (saturate_i32 (current -ℤ last)) (neg max_tick_delta) (pos max_tick_delta) in
    let (c₁, c₂) =
      clamp_ℤ-IsBetween (saturate_i32 (current -ℤ last)) (neg max_tick_delta) (pos max_tick_delta)
        (omega arith) in
    let a = parts-◌+ℤ◌ last c in
    let b = parts-◌-ℤ◌ last (pos max_tick_delta) in
    let d = parts-◌+ℤ◌ last (pos max_tick_delta) in
    (
      saturate_i32-ge (last -ℤ pos max_tick_delta) (last +ℤ c) (omega arith) (omega arith),
      saturate_i32-le (last +ℤ pos max_tick_delta) (last +ℤ c) (omega arith) (omega arith),
      saturate_i32-IsI32 (last +ℤ c),
    )

clamp_ℤ-ge : (x z low high : ℤ) → x ≤ℤ z → x ≤ℤ high → x ≤ℤ clamp_ℤ z low high
clamp_ℤ-ge x z low high h k = ground arith

clamp_ℤ-le : (x z low high : ℤ) → z ≤ℤ x → low ≤ℤ x → clamp_ℤ z low high ≤ℤ x
clamp_ℤ-le x z low high h k = ground arith

clamped_delta-IsBetween :
    (low high d : ℤ)
    → low ≤ℤ d
    → d ≤ℤ high
    → low ≤ℤ pos 0
    → pos 0 ≤ℤ high
    → (low ≤ℤ clamp_ℤ (saturate_i32 d) (neg max_tick_delta) (pos max_tick_delta))
      × (clamp_ℤ (saturate_i32 d) (neg max_tick_delta) (pos max_tick_delta) ≤ℤ high)
clamped_delta-IsBetween low high d h k l m = (
  clamp_ℤ-ge low (saturate_i32 d) (neg max_tick_delta) (pos max_tick_delta)
      (saturate_i32-ge low d h (omega arith)) (omega arith),
  clamp_ℤ-le high (saturate_i32 d) (neg max_tick_delta) (pos max_tick_delta)
      (saturate_i32-le high d k (omega arith)) (omega arith),
)

-- What is recorded stays between the bounds of what was recorded before and what is reported.
pub clamped_tick-IsBetween :
    (low high last current : ℤ)
    → IsI32 last
    → low ≤ℤ last
    → last ≤ℤ high
    → low ≤ℤ current
    → current ≤ℤ high
    → (low ≤ℤ clamped_tick last current) × (clamped_tick last current ≤ℤ high)
unfolding clamped_tick
clamped_tick-IsBetween low high last current (h, k) l₁ l₂ c₁ c₂ =
    let d = current -ℤ last in
    let c = clamp_ℤ (saturate_i32 d) (neg max_tick_delta) (pos max_tick_delta) in
    let e = parts-◌-ℤ◌ current last in
    let f = parts-◌-ℤ◌ low last in
    let g = parts-◌-ℤ◌ high last in
    let (b₁, b₂) =
      clamped_delta-IsBetween (low -ℤ last) (high -ℤ last) d (omega arith) (omega arith)
        (omega arith) (omega arith) in
    let a = parts-◌+ℤ◌ last c in
    (
      saturate_i32-ge low (last +ℤ c) (omega arith) (omega arith),
      saturate_i32-le high (last +ℤ c) (omega arith) (omega arith),
    )

pub checked_i64_fits : (z : ℤ) → abs z < 2 ^ 63 → checked_i64 z ≡ some z
checked_i64_fits (ℤ.pos n) h = ground arith
checked_i64_fits (ℤ.negsuc n) h = ground arith

pub abs-IsI32 : (z : ℤ) → IsI32 z → abs z ≤ 2 ^ 31
abs-IsI32 (ℤ.pos n) h = omega arith
abs-IsI32 (ℤ.negsuc n) h = omega arith
