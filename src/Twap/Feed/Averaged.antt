-- ===== src/Twap/Feed/Averaged.antt =====
-- That the tick published by programs/twap_oracle/src/publish_price.rs is the floor of an average
-- over the recorded history.
use mathlib.Core.Path.{subst}
use lez_programs.Shared.{
  some-eq-some, checked_sub-some, ℕ, zero, suc, ◌+◌, ◌-◌, ◌^◌, ◌<◌, ◌≤◌, ◌≡◌, arith, ap, sym, ◌∙◌,
  min, max, Option, none, some, List, ◌∷◌, get_elem?, ltb, leb, leb→le, ◌==◌, not, checked_sub, ℤ,
  pos, ◌+ℤ◌, ◌-ℤ◌, ◌*ℤ◌, ◌≤ℤ◌, positive_part, negative_part, parts-◌+ℤ◌, parts-◌-ℤ◌, parts-◌*ℤ◌, ok,
  expect, bind-eq-ok, guard-eq-ok, expect-eq-ok,
}
use lez_programs.Twap.Core.{
  Panic, ObservationEntry, PriceObservations, CurrentTickAccount, checked_i64, div_euclid,
}
use lez_programs.Twap.Feed.{
  max_tail_ms, clamped_tick, tick_product, project_cumulative, average_tick,
}
use lez_programs.Twap.Feed.History.{held_entries}
use lez_programs.Twap.Feed.Ticks.{
  IsWithin, IsFloorOf, constant-IsWithin, sum-IsWithin, div_euclid-IsFloorOf, checked_i64-some,
  checked_i32-some,
}
use lez_programs.Twap.Feed.Observed.{Recorded, first, next}

same-IsWithin :
    (low high : ℤ) (time time' : ℕ) (s s' : ℤ)
    → time ≡ time'
    → positive_part s + negative_part s' ≡ positive_part s' + negative_part s
    → IsWithin low high time s
    → IsWithin low high time' s'
same-IsWithin low high time time' s s' t same (h, k) =
    let a = parts-◌*ℤ◌ low time in
    let b = parts-◌*ℤ◌ high time in
    let c = parts-◌*ℤ◌ low time' in
    let d = parts-◌*ℤ◌ high time' in
    let e : low *ℤ pos time ≡ low *ℤ pos time' = ap (λ (n : ℕ). low *ℤ pos n) t in
    let f : high *ℤ pos time ≡ high *ℤ pos time' = ap (λ (n : ℕ). high *ℤ pos n) t in
    let e₁ = ap positive_part e in
    let e₂ = ap negative_part e in
    let f₁ = ap positive_part f in let f₂ = ap negative_part f in (omega arith, omega arith)

empty-IsWithin :
    (low high : ℤ) (entry : ObservationEntry)
    → IsWithin low high
        (entry.timestamp - entry.timestamp)
        (entry.tick_cumulative -ℤ entry.tick_cumulative)
empty-IsWithin low high entry =
    let a = parts-◌*ℤ◌ low 0 in
    let b = parts-◌*ℤ◌ high 0 in
    let c = parts-◌-ℤ◌ entry.tick_cumulative entry.tick_cumulative in
    same-IsWithin low high 0 (entry.timestamp - entry.timestamp) (pos 0)
      (entry.tick_cumulative -ℤ entry.tick_cumulative) (omega arith) (omega arith)
      (omega arith, omega arith)

-- From any observation of a history to the newest one, the sum of the ticks is between the sums
-- of the bounds.
pub history-IsWithin :
    (low high tick : ℤ) (newest old : ObservationEntry) (older : List ObservationEntry) (k : ℕ)
    → Recorded low high tick (newest ∷ older)
    → get_elem? (newest ∷ older) k ≡ some old
    → (old.timestamp ≤ newest.timestamp)
      × IsWithin low high
          (newest.timestamp - old.timestamp)
          (newest.tick_cumulative -ℤ old.tick_cumulative)
history-IsWithin low high tick newest old older zero recorded e =
    let same : newest ≡ old = some-eq-some e in
    let whole = empty-IsWithin low high newest in
    subst
      (λ (x : ObservationEntry).
        (x.timestamp ≤ newest.timestamp)
        × IsWithin low high (newest.timestamp - x.timestamp)
            (newest.tick_cumulative -ℤ x.tick_cumulative))
      same (omega arith, whole)
history-IsWithin low high tick newest old older (suc k) (first _ _ i l h) e = cc
history-IsWithin low high tick newest old _ (suc k)
      (next last _ middle _ older before i l h n₁ n₂ later sum) e =
    let (earlier, within) = history-IsWithin low high last middle old older k before e in
    let elapsed = newest.timestamp - middle.timestamp in
    let added = constant-IsWithin low high tick elapsed l h in
    let step = tick *ℤ pos elapsed in
    let gain = middle.tick_cumulative -ℤ old.tick_cumulative in
    let total =
      sum-IsWithin low high (middle.timestamp - old.timestamp) elapsed gain step within added in
    let a = parts-◌+ℤ◌ middle.tick_cumulative step in
    let b = parts-◌-ℤ◌ middle.tick_cumulative old.tick_cumulative in
    let c = parts-◌-ℤ◌ newest.tick_cumulative old.tick_cumulative in
    let d = parts-◌+ℤ◌ gain step in
    let e₁ = ap positive_part sum in
    let e₂ = ap negative_part sum in
    (
      omega arith,
      same-IsWithin low high (middle.timestamp - old.timestamp + elapsed)
          (newest.timestamp - old.timestamp) (gain +ℤ step)
          (newest.tick_cumulative -ℤ old.tick_cumulative) (omega arith) (omega arith) total,
    )

-- The sum of the ticks up to now: the recorded one, the last tick up to the time when the current
-- tick was written, and the clamped current tick from then on.
abbrev pub projected : PriceObservations → ObservationEntry → CurrentTickAccount → ℕ → ℤ
projected o newest current now =
    let boundary = min (max current.last_updated newest.timestamp) now in
    newest.tick_cumulative
    +ℤ o.last_recorded_tick *ℤ pos (boundary - newest.timestamp)
    +ℤ clamped_tick o.last_recorded_tick current.tick *ℤ pos (now - boundary)

checked_sum :
    (a b : ℤ) {c : ℤ} → expect (checked_i64 (a +ℤ b)) Panic.cumulative_overflow ≡ ok c → a +ℤ b ≡ c
checked_sum a b e = checked_i64-some (a +ℤ b) (expect-eq-ok _ _ e)

pub project_cumulative_inv :
    (o : PriceObservations) (newest : ObservationEntry) (current : CurrentTickAccount) (now : ℕ)
    {sum : ℤ}
    → project_cumulative o newest current now ≡ ok sum
    → (newest.timestamp ≤ now) × (projected o newest current now ≡ sum)
unfolding project_cumulative tick_product
project_cumulative_inv o newest current now {sum} e =
    let boundary = min (max current.last_updated newest.timestamp) now in
    let last = o.last_recorded_tick in
    let tick = clamped_tick last current.tick in
    let (ordered, e₁) = guard-eq-ok (leb newest.timestamp now) _ _ e in
    let (_, e₂) = guard-eq-ok (ltb (boundary - newest.timestamp) (2 ^ 63)) _ _ e₁ in
    let (_, e₃) = guard-eq-ok (ltb (now - boundary) (2 ^ 63)) _ _ e₂ in
    let (pre, p, e₄) =
      bind-eq-ok (expect (checked_i64 (last *ℤ pos (boundary - newest.timestamp))) _) _ e₃ in
    let (post, q, e₅) = bind-eq-ok (expect (checked_i64 (tick *ℤ pos (now - boundary))) _) _ e₄ in
    let (acc, a, e₆) = bind-eq-ok (expect (checked_i64 (newest.tick_cumulative +ℤ pre)) _) _ e₅ in
    let pre_eq : last *ℤ pos (boundary - newest.timestamp) ≡ pre =
      checked_i64-some (last *ℤ pos (boundary - newest.timestamp)) (expect-eq-ok _ _ p) in
    let post_eq : tick *ℤ pos (now - boundary) ≡ post =
      checked_i64-some (tick *ℤ pos (now - boundary)) (expect-eq-ok _ _ q) in
    let acc_eq : newest.tick_cumulative +ℤ pre ≡ acc = checked_sum newest.tick_cumulative pre a in
    let sum_eq : acc +ℤ post ≡ sum = checked_sum acc post e₆ in
    (
      leb→le _ _ ordered,
      ap (λ (z : ℤ). newest.tick_cumulative +ℤ z +ℤ tick *ℤ pos (now - boundary)) pre_eq
          ∙ ap (λ (z : ℤ). newest.tick_cumulative +ℤ pre +ℤ z) post_eq
          ∙ ap (λ (z : ℤ). z +ℤ post) acc_eq
          ∙ sum_eq,
    )

pub average_tick_inv :
    (oldest : ObservationEntry) (sum : ℤ) (now : ℕ) {tick : ℤ}
    → average_tick oldest sum now ≡ ok tick
    → (oldest.timestamp < now)
      × IsFloorOf tick (sum -ℤ oldest.tick_cumulative) (now - oldest.timestamp)
unfolding average_tick
average_tick_inv oldest sum now {tick} e =
    let gain = sum -ℤ oldest.tick_cumulative in
    let (elapsed, s, e₁) = bind-eq-ok (expect (checked_sub now oldest.timestamp) _) _ e in
    let (_, e₂) = guard-eq-ok (ltb elapsed (2 ^ 63)) _ _ e₁ in
    let (diff, d, e₃) = bind-eq-ok (expect (checked_i64 gain) _) _ e₂ in
    let (nonzero, e₄) = guard-eq-ok (not (elapsed == 0)) _ _ e₃ in
    let diff_eq : gain ≡ diff = checked_i64-some gain (expect-eq-ok _ _ d) in
    let tick_eq : div_euclid diff elapsed ≡ tick =
      checked_i32-some (div_euclid diff elapsed) (expect-eq-ok _ _ e₄) in
    let elapsed_eq : (elapsed ≡ now - oldest.timestamp) × (oldest.timestamp ≤ now) =
      checked_sub-some now oldest.timestamp (expect-eq-ok _ _ s) in
    let positive : 0 < elapsed = ground arith in
    let floor = div_euclid-IsFloorOf diff elapsed positive in
    let floor₁ : IsFloorOf tick diff elapsed =
      subst (λ (t : ℤ). IsFloorOf t diff elapsed) tick_eq floor in
    let floor₂ : IsFloorOf tick gain elapsed =
      subst (λ (z : ℤ). IsFloorOf tick z elapsed) (sym diff_eq) floor₁ in
    (omega arith, subst (λ (n : ℕ). IsFloorOf tick gain n) elapsed_eq.0 floor₂)

-- What is published: no tick for a feed of less than two observations, and otherwise the floor
-- of the average of the ticks, from the oldest observation that the ring holds up to now.
pub data Averaged (low high : ℤ) (o : PriceObservations) (history : List ObservationEntry)
    (current : CurrentTickAccount) (now window_duration : ℕ) : Option ℤ → Type 0 where
  too_few : o.total_entries < 2 → Averaged low high o history current now window_duration none
  average :
      (newest oldest : ObservationEntry) (tick : ℤ)
      → 2 ≤ o.total_entries
      → get_elem? history 0 ≡ some newest
      → get_elem? history (held_entries o - 1) ≡ some oldest
      → newest.timestamp ≤ now
      → now ≤ newest.timestamp + max_tail_ms window_duration
      → oldest.timestamp < now
      → IsFloorOf tick
          (projected o newest current now -ℤ oldest.tick_cumulative)
          (now - oldest.timestamp)
      → low ≤ℤ tick
      → tick ≤ℤ high
      → Averaged low high o history current now window_duration (some tick)

pub projected-IsWithin :
    (low high : ℤ) (o : PriceObservations) (newest oldest : ObservationEntry)
    (current : CurrentTickAccount) (now : ℕ)
    → low ≤ℤ o.last_recorded_tick
    → o.last_recorded_tick ≤ℤ high
    → low ≤ℤ clamped_tick o.last_recorded_tick current.tick
    → clamped_tick o.last_recorded_tick current.tick ≤ℤ high
    → newest.timestamp ≤ now
    → oldest.timestamp ≤ newest.timestamp
    → IsWithin low high
        (newest.timestamp - oldest.timestamp)
        (newest.tick_cumulative -ℤ oldest.tick_cumulative)
    → IsWithin low high
        (now - oldest.timestamp)
        (projected o newest current now -ℤ oldest.tick_cumulative)
projected-IsWithin low high o newest oldest current now l₁ h₁ l₂ h₂ ordered older within =
    let boundary = min (max current.last_updated newest.timestamp) now in
    let last = o.last_recorded_tick in
    let tick = clamped_tick last current.tick in
    let gain = newest.tick_cumulative -ℤ oldest.tick_cumulative in
    let t₁ = boundary - newest.timestamp in
    let t₂ = now - boundary in
    let pre = last *ℤ pos t₁ in
    let post = tick *ℤ pos t₂ in
    let first_part =
      sum-IsWithin low high (newest.timestamp - oldest.timestamp) t₁ gain pre within
        (constant-IsWithin low high last t₁ l₁ h₁) in
    let both =
      sum-IsWithin low high (newest.timestamp - oldest.timestamp + t₁) t₂ (gain +ℤ pre) post
        first_part (constant-IsWithin low high tick t₂ l₂ h₂) in
    let a = parts-◌-ℤ◌ newest.tick_cumulative oldest.tick_cumulative in
    let b = parts-◌+ℤ◌ gain pre in
    let c = parts-◌+ℤ◌ (gain +ℤ pre) post in
    let d = parts-◌+ℤ◌ newest.tick_cumulative pre in
    let e = parts-◌+ℤ◌ (newest.tick_cumulative +ℤ pre) post in
    let f = parts-◌-ℤ◌ (projected o newest current now) oldest.tick_cumulative in
    same-IsWithin low high (newest.timestamp - oldest.timestamp + t₁ + t₂) (now - oldest.timestamp)
      (gain +ℤ pre +ℤ post) (projected o newest current now -ℤ oldest.tick_cumulative) (omega arith)
      (omega arith) both
