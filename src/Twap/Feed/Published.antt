-- ===== src/Twap/Feed/Published.antt =====
-- The outcomes of the body of `publish_price` in programs/twap_oracle/src/publish_price.rs: a
-- stale feed, a feed with too few observations, and an average.
use mathlib.Core.Path.{subst}
use lez_programs.Shared.{
  ℕ, ◌+◌, ◌-◌, ◌<◌, ◌≤◌, ◌≡◌, refl, arith, sym, ◌∙◌, Option, none, some, List, [], ◌∷◌, get_elem?,
  get_elem?-some, ltb, leb, leb→le, lt→ltb, ℤ, ◌≤ℤ◌, ◌-ℤ◌, lt-or-le, ok, err, guard, ◌>>=◌, ◌>>◌,
  bind-eq-ok, guard-eq-ok, ok-eq-ok, false, inl, inr,
}
use lez_programs.Twap.Core.{Panic, ObservationEntry, PriceObservations, CurrentTickAccount}
use lez_programs.Twap.Feed.{
  last_index, oldest_index, max_tail_ms, project_cumulative, average_tick, twap_tick,
}
use lez_programs.Twap.Feed.History.{Represents, last_index_lem, oldest_index_lem, held_entries}
use lez_programs.Twap.Feed.Ticks.{clamped_tick-IsBetween}
use lez_programs.Twap.Feed.Observed.{Recorded, last-IsI32}
use lez_programs.Twap.Feed.Averaged.{
  Averaged, too_few, average, project_cumulative_inv, average_tick_inv, projected-IsWithin,
  history-IsWithin, projected,
}
use lez_programs.Twap.Feed.Ticks.{IsFloorOf, floor-IsWithin}

-- A feed with two observations, whose newest one and oldest one are read.
twap_tick_found :
    (o : PriceObservations) (oldest newest : ObservationEntry) (current : CurrentTickAccount)
    (now window_duration : ℕ)
    → 2 ≤ o.total_entries
    → get_elem? o.entries (oldest_index o) ≡ some oldest
    → get_elem? o.entries (last_index o) ≡ some newest
    → twap_tick o current now window_duration ≡ (
        guard (leb (now - newest.timestamp) (max_tail_ms window_duration)) Panic.observations_stale
        >> (project_cumulative o newest current now >>= λ sum.
            average_tick oldest sum now >>= λ tick. ok (some tick)))
unfolding twap_tick
twap_tick_found o oldest newest current now window_duration two old new =
    let enough : ltb o.total_entries 2 ≡ false = ground arith in rw (enough, old, new) refl

pub twap_tick_too_few :
    (o : PriceObservations) (current : CurrentTickAccount) (now window_duration : ℕ)
    → o.total_entries < 2
    → twap_tick o current now window_duration ≡ ok none
unfolding twap_tick
twap_tick_too_few o current now window_duration few = rw (lt→ltb _ _ few) refl

-- The observations that the ring holds, the newest and the oldest.
ends_lem :
    (o : PriceObservations) (history : List ObservationEntry)
    → Represents o history
    → (newest : ObservationEntry) × (oldest : ObservationEntry) × (get_elem? history 0
        ≡ some newest)
      × (get_elem? history (held_entries o - 1) ≡ some oldest)
      × (get_elem? o.entries (last_index o) ≡ some newest)
      × (get_elem? o.entries (oldest_index o) ≡ some oldest)
ends_lem o history r =
    let counted = r.counted in
    let opened = r.opened in
    let (newest, n) = get_elem?-some history 0 (omega arith) in
    let (oldest, d) = get_elem?-some history (held_entries o - 1) (omega arith) in
    (newest, oldest, n, d, last_index_lem o history r ∙ n, oldest_index_lem o history r ∙ d)

pub twap_tick_stale :
    (o : PriceObservations) (history : List ObservationEntry) (newest : ObservationEntry)
    (current : CurrentTickAccount) (now window_duration : ℕ)
    → Represents o history
    → 2 ≤ o.total_entries
    → get_elem? history 0 ≡ some newest
    → newest.timestamp + max_tail_ms window_duration < now
    → twap_tick o current now window_duration ≡ err Panic.observations_stale
twap_tick_stale o history newest current now window_duration r two n late =
    let (newest', oldest, _, _, new, old) = ends_lem o history r in
    let stale : leb (now - newest.timestamp) (max_tail_ms window_duration) ≡ false = ground arith in
    twap_tick_found o oldest newest current now window_duration two old
      (last_index_lem o history r ∙ n)
    ∙ rw stale refl

average-Averaged :
    (low high : ℤ) (o : PriceObservations) (newest : ObservationEntry)
    (older : List ObservationEntry) (oldest : ObservationEntry) (current : CurrentTickAccount)
    (now window_duration : ℕ) {result : Option ℤ}
    → Recorded low high o.last_recorded_tick (newest ∷ older)
    → low ≤ℤ current.tick
    → current.tick ≤ℤ high
    → 2 ≤ o.total_entries
    → get_elem? (newest ∷ older) (held_entries o - 1) ≡ some oldest
    → (guard (leb (now - newest.timestamp) (max_tail_ms window_duration)) Panic.observations_stale
        >> (project_cumulative o newest current now >>= λ sum.
            average_tick oldest sum now >>= λ tick. ok (some tick)))
      ≡ ok result
    → Averaged low high o (newest ∷ older) current now window_duration result
average-Averaged low high o newest older oldest current now window_duration {result} recorded l h
      two old e =
    let last = o.last_recorded_tick in
    let (fresh, e₁) =
      guard-eq-ok (leb (now - newest.timestamp) (max_tail_ms window_duration)) _ _ e in
    let (sum, s, e₂) = bind-eq-ok (project_cumulative o newest current now) _ e₁ in
    let (tick, t, e₃) = bind-eq-ok (average_tick oldest sum now) _ e₂ in
    let (ordered, sum_eq) = project_cumulative_inv o newest current now s in
    let (before, floor) = average_tick_inv oldest sum now t in
    let floor' : IsFloorOf tick (projected o newest current now -ℤ oldest.tick_cumulative)
        (now - oldest.timestamp) =
      subst (λ (z : ℤ). IsFloorOf tick (z -ℤ oldest.tick_cumulative) (now - oldest.timestamp))
        (sym sum_eq) floor in
    let (i, l₁, h₁) = last-IsI32 recorded in
    let (l₂, h₂) = clamped_tick-IsBetween low high last current.tick i l₁ h₁ l h in
    let (earlier, within) =
      history-IsWithin low high last newest oldest older (held_entries o - 1) recorded old in
    let whole =
      projected-IsWithin low high o newest oldest current now l₁ h₁ l₂ h₂ ordered earlier within in
    let (low_tick, tick_high) =
      floor-IsWithin low high (projected o newest current now -ℤ oldest.tick_cumulative) tick
        (now - oldest.timestamp) (omega arith) whole floor' in
    let tail = leb→le _ _ fresh in
    subst (Averaged low high o (newest ∷ older) current now window_duration)
      (ok-eq-ok {P = Panic} e₃)
      (average newest oldest tick two refl old ordered (omega arith) before floor' low_tick
        tick_high)

pub twap_tick-Averaged :
    (low high : ℤ) (o : PriceObservations) (history : List ObservationEntry)
    (current : CurrentTickAccount) (now window_duration : ℕ) {result : Option ℤ}
    → Represents o history
    → Recorded low high o.last_recorded_tick history
    → low ≤ℤ current.tick
    → current.tick ≤ℤ high
    → twap_tick o current now window_duration ≡ ok result
    → Averaged low high o history current now window_duration result
twap_tick-Averaged low high o [] current now window_duration r recorded l h e =
    (let counted = r.counted in let opened = r.opened in absurd (omega arith))
twap_tick-Averaged low high o (newest ∷ older) current now window_duration {result} r recorded l h
      e =
    elim (lt-or-le o.total_entries 2) [
      | inl few ↦
          subst (Averaged low high o (newest ∷ older) current now window_duration)
            (ok-eq-ok {P = Panic} (sym (twap_tick_too_few o current now window_duration few) ∙ e))
            (too_few few)
      | inr two ↦
          (let (_, oldest, _, held, _, old) = ends_lem o (newest ∷ older) r in
            average-Averaged low high o newest older oldest current now window_duration recorded l h
              two held
              (sym (
                  twap_tick_found o oldest newest current now window_duration two old
                    (last_index_lem o (newest ∷ older) r))
                ∙ e))
    ]
