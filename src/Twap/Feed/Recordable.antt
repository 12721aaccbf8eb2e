-- ===== src/Twap/Feed/Recordable.antt =====
-- When the body of `record_tick` in programs/twap_oracle/src/record_tick.rs does not panic.
use native.Mathlib.Nat.{mul-le-mul}
use lez_programs.Shared.{
  ℕ, suc, ◌-◌, ◌*◌, ◌^◌, ◌<◌, ◌≤◌, ◌≡◌, refl, arith, ◌∙◌, Option, none, some, List, get_elem?,
  get_elem?-some, ltb, lt→ltb, pos, abs, ◌+ℤ◌, ◌*ℤ◌, abs-◌+ℤ◌, abs-◌*ℤ◌, ok, Bool-cases, inl, inr,
}
use lez_programs.Twap.Core.{ObservationEntry, PriceObservations, CurrentTickAccount}
use lez_programs.Twap.Feed.{
  min_interval, clamped_tick, tick_product, write_observation, record_observation, advance,
}
use lez_programs.Twap.Feed.History.{Represents, last_index_lem}
use lez_programs.Twap.Feed.Ticks.{IsI32, clamped_tick-IsNear, checked_i64_fits, abs-IsI32}
use lez_programs.Twap.Feed.Observed.{observation}

write_observation_total :
    (o : PriceObservations) (newest slot : ObservationEntry) (current : CurrentTickAccount)
    (now : ℕ)
    → IsI32 o.last_recorded_tick
    → abs newest.tick_cumulative ≤ 2 ^ 62
    → now - newest.timestamp < 2 ^ 31
    → get_elem? o.entries o.write_index ≡ some slot
    → suc o.total_entries < 2 ^ 64
    → write_observation o newest current now
      ≡ ok (
          advance o
            (observation o newest current.tick now)
            (clamped_tick o.last_recorded_tick current.tick))
unfolding write_observation tick_product
write_observation_total o newest slot current now i sum_bound soon found count =
    let tick = clamped_tick o.last_recorded_tick current.tick in
    let elapsed = now - newest.timestamp in
    let product = tick *ℤ pos elapsed in
    let (_, _, is_i32) = clamped_tick-IsNear o.last_recorded_tick current.tick i in
    let size : abs tick * elapsed ≤ 2 ^ 31 * (2 ^ 31 - 1) =
      mul-le-mul {m₂ = 2 ^ 31 - 1} (abs-IsI32 tick is_i32) (omega arith) in
    let split : abs product ≡ abs tick * elapsed = abs-◌*ℤ◌ tick (pos elapsed) in
    let whole = abs-◌+ℤ◌ newest.tick_cumulative product in
    let time = lt→ltb elapsed (2 ^ 63) (omega arith) in
    let product_fits = checked_i64_fits product (omega arith) in
    let sum_fits = checked_i64_fits (newest.tick_cumulative +ℤ product) (omega arith) in
    let count_fits = lt→ltb (suc o.total_entries) (2 ^ 64) count in
    rw (time, product_fits, sum_fits, found, count_fits) refl

pub record_observation_total :
    (o : PriceObservations) (history : List ObservationEntry) (newest : ObservationEntry)
    (current : CurrentTickAccount) (now window_duration : ℕ)
    → Represents o history
    → get_elem? history 0 ≡ some newest
    → IsI32 o.last_recorded_tick
    → abs newest.tick_cumulative ≤ 2 ^ 62
    → now - newest.timestamp < 2 ^ 31
    → suc o.total_entries < 2 ^ 64
    → (result : Option PriceObservations) × (record_observation o current now window_duration
        ≡ ok result)
unfolding record_observation
record_observation_total o history newest current now window_duration r n i sum_bound soon count =
    let slot_eq = r.next_slot in
    let capacity = r.capacity in
    let (slot, s) = get_elem?-some o.entries o.write_index (omega arith) in
    let found = last_index_lem o history r ∙ n in
    let wrote = write_observation_total o newest slot current now i sum_bound soon s count in
    elim (Bool-cases (ltb (now - newest.timestamp) (min_interval window_duration))) [
      | inl early ↦ (none, rw (found, early) refl)
      | inr late ↦ (
        some (
            advance o (observation o newest current.tick now)
              (clamped_tick o.last_recorded_tick current.tick)),
        rw (found, late, wrote) refl,
      )
    ]
