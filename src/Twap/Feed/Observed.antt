-- ===== src/Twap/Feed/Observed.antt =====
-- That `record_tick` of programs/twap_oracle/src/record_tick.rs extends the history of a feed.
use mathlib.Core.Path.{subst}
use lez_programs.Shared.{
  ℕ, suc, ◌-◌, ◌^◌, ◌<◌, ◌≤◌, ◌≡◌, refl, arith, ap, sym, ◌∙◌, Option, none, some, List, [], ◌∷◌,
  get_elem?, ltb, ltb→lt, ltb-false→le, ℤ, pos, ◌+ℤ◌, ◌-ℤ◌, ◌*ℤ◌, ◌≤ℤ◌, ok, expect, ◌>>=◌,
  bind-eq-ok, guard-eq-ok, expect-eq-ok, ok-eq-ok, Bool-cases, inl, inr, ◌⊎◌,
}
use lez_programs.Twap.Core.{
  Panic, max_tick_delta, ObservationEntry, PriceObservations, CurrentTickAccount, checked_i64,
}
use lez_programs.Twap.Feed.{
  last_index, min_interval, clamped_tick, tick_product, write_observation, record_observation,
  advance,
}
use lez_programs.Twap.Feed.History.{Represents, last_index_lem, advance-Represents}
use lez_programs.Twap.Feed.Ticks.{
  IsI32, checked_i64-some, clamped_tick-IsNear, clamped_tick-IsBetween,
}

-- A history of observations, the newest first, whose last recorded tick is `tick` and whose ticks
-- are all between two bounds: the timestamps rise, each observation adds its tick times the
-- elapsed time to the sum, and the ticks move by at most `max_tick_delta`.
pub data Recorded (low high : ℤ) : ℤ → List ObservationEntry → Type 0 where
  first :
      (tick : ℤ) (entry : ObservationEntry)
      → IsI32 tick
      → low ≤ℤ tick
      → tick ≤ℤ high
      → Recorded low high tick (entry ∷ [])
  next :
      (last tick : ℤ) (newest entry : ObservationEntry) (older : List ObservationEntry)
      → Recorded low high last (newest ∷ older)
      → IsI32 tick
      → low ≤ℤ tick
      → tick ≤ℤ high
      → last -ℤ pos max_tick_delta ≤ℤ tick
      → tick ≤ℤ last +ℤ pos max_tick_delta
      → newest.timestamp < entry.timestamp
      → entry.tick_cumulative
        ≡ newest.tick_cumulative +ℤ tick *ℤ pos (entry.timestamp - newest.timestamp)
      → Recorded low high tick (entry ∷ newest ∷ older)

pub last-IsI32 :
    {low high tick : ℤ} {history : List ObservationEntry}
    → Recorded low high tick history
    → IsI32 tick × (low ≤ℤ tick) × (tick ≤ℤ high)
last-IsI32 (first tick entry i l h) = (i, l, h)
last-IsI32 (next last tick newest entry older before i l h n₁ n₂ t c) = (i, l, h)

-- The observation of a time.
abbrev pub observation : PriceObservations → ObservationEntry → ℤ → ℕ → ObservationEntry
observation o newest current_tick now = record {
  timestamp = now;
  tick_cumulative =
      newest.tick_cumulative
      +ℤ clamped_tick o.last_recorded_tick current_tick *ℤ pos (now - newest.timestamp);
}

write_observation_inv :
    (o : PriceObservations) (newest : ObservationEntry) (current : CurrentTickAccount) (now : ℕ)
    {o' : PriceObservations}
    → write_observation o newest current now ≡ ok o'
    → o'
      ≡ advance o
          (observation o newest current.tick now)
          (clamped_tick o.last_recorded_tick current.tick)
unfolding write_observation tick_product
write_observation_inv o newest current now {o'} e =
    let tick = clamped_tick o.last_recorded_tick current.tick in
    let elapsed_ms = now - newest.timestamp in
    let (_, e₁) = guard-eq-ok (ltb elapsed_ms (2 ^ 63)) _ _ e in
    let (product, p, e₂) = bind-eq-ok (expect (checked_i64 (tick *ℤ pos elapsed_ms)) _) _ e₁ in
    let (sum, s, e₃) =
      bind-eq-ok (expect (checked_i64 (newest.tick_cumulative +ℤ product)) _) _ e₂ in
    let (_, _, e₄) = bind-eq-ok (expect (get_elem? o.entries o.write_index) _) _ e₃ in
    let (_, e₅) = guard-eq-ok (ltb (suc o.total_entries) (2 ^ 64)) _ _ e₄ in
    let product_eq : tick *ℤ pos elapsed_ms ≡ product =
      checked_i64-some (tick *ℤ pos elapsed_ms) (expect-eq-ok _ _ p) in
    let sum_eq : newest.tick_cumulative +ℤ product ≡ sum =
      checked_i64-some (newest.tick_cumulative +ℤ product) (expect-eq-ok _ _ s) in
    let whole : newest.tick_cumulative +ℤ tick *ℤ pos elapsed_ms ≡ sum =
      ap (λ (z : ℤ). newest.tick_cumulative +ℤ z) product_eq ∙ sum_eq in
    sym (ok-eq-ok {P = Panic} e₅)
    ∙ ap (λ (z : ℤ). advance o (record { timestamp = now; tick_cumulative = z }) tick) (sym whole)

-- A skipped call comes too early, and a call that writes does not.
record_observation_inv :
    (o : PriceObservations) (newest : ObservationEntry) (current : CurrentTickAccount)
    (now window_duration : ℕ) {result : Option PriceObservations}
    → get_elem? o.entries (last_index o) ≡ some newest
    → record_observation o current now window_duration ≡ ok result
    → ((now - newest.timestamp < min_interval window_duration) × (result ≡ none))
      ⊎ ((min_interval window_duration ≤ now - newest.timestamp)
          × (result
              ≡ some (
                  advance o
                    (observation o newest current.tick now)
                    (clamped_tick o.last_recorded_tick current.tick))))
unfolding record_observation
record_observation_inv o newest current now window_duration {result} found e =
    let early = ltb (now - newest.timestamp) (min_interval window_duration) in
    elim (Bool-cases early) [
      | inl skip ↦
          (let e₁ : ok none ≡ ok result = rw (found, skip) at e in
            inl (ltb→lt _ _ skip, sym (ok-eq-ok {P = Panic} e₁)))
      | inr write ↦
          (let e₁ : (write_observation o newest current now >>= λ written. ok (some written))
                ≡ ok result =
              rw (found, write) at e in
            let (written, w, e₂) = bind-eq-ok (write_observation o newest current now) _ e₁ in
            inr (
              ltb-false→le _ _ write,
              sym (ok-eq-ok {P = Panic} e₂)
                  ∙ ap some (write_observation_inv o newest current now w),
            ))
    ]

-- The outcome of a call for the history: it is as it was if the call skips, and otherwise one
-- observation longer.
pub data Observed (low high : ℤ) (history : List ObservationEntry) (now window_duration : ℕ)
    : Option PriceObservations → Type 0 where
  skipped :
      (newest : ObservationEntry)
      → get_elem? history 0 ≡ some newest
      → now - newest.timestamp < min_interval window_duration
      → Observed low high history now window_duration none
  written :
      (newest entry : ObservationEntry) (o' : PriceObservations)
      → get_elem? history 0 ≡ some newest
      → min_interval window_duration ≤ now - newest.timestamp
      → entry.timestamp ≡ now
      → Represents o' (entry ∷ history)
      → Recorded low high o'.last_recorded_tick (entry ∷ history)
      → Observed low high history now window_duration (some o')

observation-Recorded :
    (low high : ℤ) (o : PriceObservations) (newest : ObservationEntry)
    (older : List ObservationEntry) (current_tick : ℤ) (now : ℕ)
    → Recorded low high o.last_recorded_tick (newest ∷ older)
    → low ≤ℤ current_tick
    → current_tick ≤ℤ high
    → newest.timestamp < now
    → Recorded low high
        (clamped_tick o.last_recorded_tick current_tick)
        (observation o newest current_tick now ∷ newest ∷ older)
observation-Recorded low high o newest older current_tick now recorded l h later =
    let last = o.last_recorded_tick in
    let tick = clamped_tick last current_tick in
    let (i, low_last, last_high) = last-IsI32 recorded in
    let (near₁, near₂, is_i32) = clamped_tick-IsNear last current_tick i in
    let (b₁, b₂) = clamped_tick-IsBetween low high last current_tick i low_last last_high l h in
    next last tick newest (observation o newest current_tick now) older recorded is_i32 b₁ b₂ near₁
      near₂ later refl

pub record_observation-Observed :
    (low high : ℤ) (o : PriceObservations) (history : List ObservationEntry)
    (current : CurrentTickAccount) (now window_duration : ℕ) {result : Option PriceObservations}
    → Represents o history
    → Recorded low high o.last_recorded_tick history
    → low ≤ℤ current.tick
    → current.tick ≤ℤ high
    → record_observation o current now window_duration ≡ ok result
    → Observed low high history now window_duration result
record_observation-Observed low high o [] current now window_duration {result} r recorded l h e =
    (let counted = r.counted in let opened = r.opened in absurd (omega arith))
record_observation-Observed low high o (newest ∷ older) current now window_duration {result} r
      recorded l h e =
    let entry = observation o newest current.tick now in
    let tick = clamped_tick o.last_recorded_tick current.tick in
    elim (record_observation_inv o newest current now window_duration
      (last_index_lem o (newest ∷ older) r) e) [
        | inl (early, none_result) ↦
            subst (Observed low high (newest ∷ older) now window_duration) (sym none_result)
              (skipped newest refl early)
        | inr (late, some_result) ↦
            subst (Observed low high (newest ∷ older) now window_duration) (sym some_result) (
              written newest entry (advance o entry tick) refl late refl
                (advance-Represents o (newest ∷ older) entry tick r)
                (observation-Recorded low high o newest older current.tick now recorded l h
                  (omega arith)))
      ]
