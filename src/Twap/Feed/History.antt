-- ===== src/Twap/Feed/History.antt =====
-- What the ring of observations in programs/twap_oracle/core/src/lib.rs stands for: the history of
-- all observations, the newest first, of which the ring holds the newest ones.
use lez_programs.Shared.{
  ℕ, suc, ◌+◌, ◌-◌, ◌%◌, ◌<◌, ◌≤◌, ◌≡◌, ◌≢◌, arith, ap, sym, ◌∙◌, min, List, ◌∷◌, length, get_elem?,
  set, get_elem?-set_ne, get_elem?-set_eq, length-set, ℤ, inl, inr, lt-or-le,
}
use lez_programs.Twap.Core.{observations_capacity, ObservationEntry, PriceObservations}
use lez_programs.Twap.Feed.{last_index, oldest_index, advance}

-- The ring holds the newest observations of a history, each at its number modulo the capacity.
pub record Represents (o : PriceObservations) (history : List ObservationEntry) : Type 0 where
  pub counted : length history ≡ o.total_entries
  pub capacity : length o.entries ≡ observations_capacity
  pub next_slot : o.write_index ≡ o.total_entries % observations_capacity
  pub opened : 0 < o.total_entries
  pub held :
      (i : ℕ)
      → i < o.total_entries
      → o.total_entries ≤ i + observations_capacity
      → get_elem? o.entries (i % observations_capacity)
        ≡ get_elem? history (o.total_entries - 1 - i)

-- The newest observation stands before the next slot.
pub last_index_lem :
    (o : PriceObservations) (history : List ObservationEntry)
    → Represents o history
    → get_elem? o.entries (last_index o) ≡ get_elem? history 0
last_index_lem o history r =
    let slot = r.next_slot in
    let opened = r.opened in
    let index : last_index o ≡ (o.total_entries - 1) % observations_capacity = ground arith in
    let zeroth : o.total_entries - 1 - (o.total_entries - 1) ≡ 0 = omega arith in
    ap (get_elem? o.entries) index
    ∙ r.held (o.total_entries - 1) (omega arith) (omega arith)
    ∙ ap (get_elem? history) zeroth

-- How many observations the ring holds.
abbrev pub held_entries : PriceObservations → ℕ
held_entries o = min o.total_entries observations_capacity

-- The oldest observation held stands where `publish_price` looks for it.
pub oldest_index_lem :
    (o : PriceObservations) (history : List ObservationEntry)
    → Represents o history
    → get_elem? o.entries (oldest_index o) ≡ get_elem? history (held_entries o - 1)
oldest_index_lem o history r =
    let slot = r.next_slot in
    let opened = r.opened in
    let oldest = o.total_entries - held_entries o in
    let index : oldest_index o ≡ oldest % observations_capacity = ground arith in
    let age : o.total_entries - 1 - oldest ≡ held_entries o - 1 = ground arith in
    ap (get_elem? o.entries) index
    ∙ r.held oldest (ground arith) (ground arith)
    ∙ ap (get_elem? history) age

-- Writing an observation puts it before the history.
pub advance-Represents :
    (o : PriceObservations) (history : List ObservationEntry) (entry : ObservationEntry) (tick : ℤ)
    → Represents o history
    → Represents (advance o entry tick) (entry ∷ history)
advance-Represents o history entry tick r =
    let slot = r.next_slot in
    let counted = r.counted in
    let capacity = r.capacity in
    record {
      counted = omega arith;
      capacity = length-set o.entries o.write_index entry ∙ r.capacity;
      next_slot = omega arith;
      opened = omega arith;
      held = λ i before recent. elim (lt-or-le i o.total_entries) [
        | inl older ↦
            (let other : o.write_index ≢ i % observations_capacity = omega arith in
              let age : suc o.total_entries - 1 - i ≡ suc (o.total_entries - 1 - i) = omega arith in
              get_elem?-set_ne o.entries o.write_index (i % observations_capacity) entry other
              ∙ r.held i older (omega arith)
              ∙ ap (get_elem? (entry ∷ history)) (sym age))
        | inr newest ↦
            (let same : i ≡ o.total_entries = omega arith in
              let index : i % observations_capacity ≡ o.write_index =
                ap (λ (t : ℕ). t % observations_capacity) same ∙ sym slot in
              let age : suc o.total_entries - 1 - i ≡ 0 = omega arith in
              ap (get_elem? (set o.entries o.write_index entry)) index
              ∙ get_elem?-set_eq o.entries o.write_index entry (omega arith)
              ∙ ap (get_elem? (entry ∷ history)) (sym age))
      ];
    }
