-- ===== src/Twap/Feed.antt =====
-- The ring of observations, as the bodies of `record_tick` and `publish_price` in
-- programs/twap_oracle/src/record_tick.rs and programs/twap_oracle/src/publish_price.rs read and
-- write it.
pub mod History
pub mod Ticks
pub mod Observed
pub mod Recordable
pub mod Averaged
pub mod Published
use lez_programs.Shared.{
  ℕ, suc, ◌+◌, ◌-◌, ◌*◌, ◌/◌, ◌%◌, ◌^◌, min, max, Option, none, some, List, ltb, leb, ◌==◌,
  if◌then◌else◌, not, ℤ, pos, neg, ◌+ℤ◌, ◌-ℤ◌, ◌*ℤ◌, Result, ok, ◌>>=◌, ◌>>◌, guard, expect,
  get_elem?, set, checked_sub,
}
use lez_programs.Twap.Core.{
  Panic, max_tick_delta, observations_capacity, max_tail_intervals, ObservationEntry,
  PriceObservations, CurrentTickAccount, clamp_ℤ, saturate_i32, checked_i64, checked_i32,
  div_euclid,
}

-- How long `record_tick` waits between two observations.
abbrev pub min_interval : ℕ → ℕ
min_interval window_duration = max (window_duration / observations_capacity) 1

-- How old the newest observation may be when a price is published.
abbrev pub max_tail_ms : ℕ → ℕ
max_tail_ms window_duration = min (min_interval window_duration * max_tail_intervals) (2 ^ 64 - 1)

-- The index of the newest observation.
abbrev pub last_index : PriceObservations → ℕ
last_index o = if o.write_index == 0 then observations_capacity - 1 else o.write_index - 1

-- The index of the oldest observation that the ring still holds.
abbrev pub oldest_index : PriceObservations → ℕ
oldest_index o = if leb observations_capacity o.total_entries then o.write_index else 0

-- The current tick, moved to within `max_tick_delta` of the last recorded one.
unfoldable pub clamped_tick : ℤ → ℤ → ℤ
clamped_tick last_recorded_tick current_tick =
    let delta = saturate_i32 (current_tick -ℤ last_recorded_tick) in
    saturate_i32 (last_recorded_tick +ℤ clamp_ℤ delta (neg max_tick_delta) (pos max_tick_delta))

-- `i64::from(tick).checked_mul(elapsed_ms)`
unfoldable pub tick_product : ℤ → ℕ → Result Panic ℤ
tick_product tick elapsed_ms =
    expect (checked_i64 (tick *ℤ pos elapsed_ms)) Panic.cumulative_overflow

abbrev pub advance : PriceObservations → ObservationEntry → ℤ → PriceObservations
advance o entry tick = record o {
  write_index = suc o.write_index % observations_capacity;
  total_entries = suc o.total_entries;
  last_recorded_tick = tick;
  entries = set o.entries o.write_index entry;
}

-- The new observation, and the feed with it.
unfoldable pub write_observation :
    PriceObservations → ObservationEntry → CurrentTickAccount → ℕ → Result Panic PriceObservations
write_observation o last_entry current now = do
  let elapsed_ms = now - last_entry.timestamp
  let tick = clamped_tick o.last_recorded_tick current.tick
  guard (ltb elapsed_ms (2 ^ 63)) Panic.elapsed_overflow
  product ← tick_product tick elapsed_ms
  new_cumulative ←
      expect (checked_i64 (last_entry.tick_cumulative +ℤ product)) Panic.cumulative_overflow
  _ ← expect (get_elem? o.entries o.write_index) Panic.index_out_of_bounds
  guard (ltb (suc o.total_entries) (2 ^ 64)) Panic.entries_overflow
  ok (advance o (record { timestamp = now; tick_cumulative = new_cumulative }) tick)

-- The body of `record_tick` once the accounts are read: none if the sampling guard skips.
unfoldable pub record_observation :
    PriceObservations → CurrentTickAccount → ℕ → ℕ → Result Panic (Option PriceObservations)
record_observation o current now window_duration = do
  last_entry ← expect (get_elem? o.entries (last_index o)) Panic.index_out_of_bounds
  if ltb (now - last_entry.timestamp) (min_interval window_duration)
      then ok none
      else (do written ← write_observation o last_entry current now; ok (some written))

-- The accumulator, carried from the newest observation on to now: by the last recorded tick up
-- to the time when the current tick was written, and by the clamped current tick from there.
unfoldable pub project_cumulative :
    PriceObservations → ObservationEntry → CurrentTickAccount → ℕ → Result Panic ℤ
project_cumulative o t2 current now = do
  guard (leb t2.timestamp now) Panic.clock_before_window
  let boundary = min (max current.last_updated t2.timestamp) now
  guard (ltb (boundary - t2.timestamp) (2 ^ 63)) Panic.elapsed_overflow
  guard (ltb (now - boundary) (2 ^ 63)) Panic.elapsed_overflow
  pre_cumulative ← tick_product o.last_recorded_tick (boundary - t2.timestamp)
  post_cumulative ← tick_product (clamped_tick o.last_recorded_tick current.tick) (now - boundary)
  acc ← expect (checked_i64 (t2.tick_cumulative +ℤ pre_cumulative)) Panic.cumulative_overflow
  expect (checked_i64 (acc +ℤ post_cumulative)) Panic.cumulative_overflow

-- The floor of the average tick from an observation on to now.
unfoldable pub average_tick : ObservationEntry → ℤ → ℕ → Result Panic ℤ
average_tick t1 cum_now now = do
  elapsed_ms ← expect (checked_sub now t1.timestamp) Panic.clock_before_window
  guard (ltb elapsed_ms (2 ^ 63)) Panic.elapsed_overflow
  cumulative_diff ← expect (checked_i64 (cum_now -ℤ t1.tick_cumulative)) Panic.cumulative_overflow
  guard (not (elapsed_ms == 0)) Panic.no_elapsed_time
  expect (checked_i32 (div_euclid cumulative_diff elapsed_ms)) Panic.tick_overflow

-- The body of `publish_price` once the accounts are read, up to the average tick: none if there
-- are not two observations.
unfoldable pub twap_tick : PriceObservations → CurrentTickAccount → ℕ → ℕ → Result Panic (Option ℤ)
twap_tick o current now window_duration = if ltb o.total_entries 2 then ok none else (do
  t1 ← expect (get_elem? o.entries (oldest_index o)) Panic.index_out_of_bounds
  t2 ← expect (get_elem? o.entries (last_index o)) Panic.index_out_of_bounds
  guard (leb (now - t2.timestamp) (max_tail_ms window_duration)) Panic.observations_stale
  cum_now ← project_cumulative o t2 current now
  tick ← average_tick t1 cum_now now
  ok (some tick))
