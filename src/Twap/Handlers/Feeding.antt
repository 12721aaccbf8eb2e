-- ===== src/Twap/Handlers/Feeding.antt =====
-- The states that the account of a feed can come to, from its creation on by calls of
-- `record_tick`: programs/twap_oracle/src/create_price_observations.rs and record_tick.rs.
use mathlib.Core.Path.{subst}
use lez_programs.Shared.{ℕ, ◌≡◌, sym, List, [], ◌∷◌, ℤ, ◌≤ℤ◌, pos, ok}
use lez_programs.Host.{AccountId, AccountStateDiff, RoundTrips, post_data}
use lez_programs.Twap.Core.{ObservationEntry, OracleHost}
use lez_programs.Twap.Feed.Ticks.{IsI32}
use lez_programs.Twap.Feed.Observed.{first}
use lez_programs.Twap.Handlers.{RecordAccounts, record_tick}
use lez_programs.Twap.Handlers.Recording.{
  HoldsFeed, HoldsTick, RecordedTick, too_early, extended, record_tick-RecordedTick,
}
use lez_programs.Twap.Source.{SourceAccounts, create_price_observations, opening_feed}
use lez_programs.Twap.Source.Access.{create_price_observations_inv, opening_feed-Represents}

module _ {Data : Type 0} (h : OracleHost Data) where
  -- The first diff of an instruction is that of the account it may write.
  abbrev pub first_post : List (AccountStateDiff Data) → Data → Data
  first_post [] before = before
  first_post (d ∷ ds) before = post_data d

  -- The data of the account of a feed after its creation and any calls of `record_tick`, where
  -- every tick that a price source reported is between the bounds.
  pub data Fed (low high : ℤ) (window_duration : ℕ) (oracle_program_id : AccountId)
      : Data → Type 0 where
    created :
        (a : SourceAccounts Data) (initial_tick : ℤ) (diffs : List (AccountStateDiff Data))
        → IsI32 initial_tick
        → low ≤ℤ initial_tick
        → initial_tick ≤ℤ high
        → create_price_observations h a initial_tick window_duration oracle_program_id ≡ ok diffs
        → Fed low high window_duration oracle_program_id
            (first_post diffs a.target.account.account_data)
    recorded :
        (a : RecordAccounts Data) (price_source_id : AccountId)
        (diffs : List (AccountStateDiff Data))
        → Fed low high window_duration oracle_program_id a.price_observations.account.account_data
        → HoldsTick h low high a.current_tick_account.account.account_data
        → record_tick h a price_source_id window_duration oracle_program_id ≡ ok diffs
        → Fed low high window_duration oracle_program_id
            (first_post diffs a.price_observations.account.account_data)

  RecordedTick-HoldsFeed :
      (low high : ℤ) (a : RecordAccounts Data) (history : List ObservationEntry)
      (window_duration now : ℕ) {diffs : List (AccountStateDiff Data)}
      → HoldsFeed h low high a.price_observations.account.account_data history
      → RecordedTick h low high a history window_duration now diffs
      → (history' : List ObservationEntry) × HoldsFeed h low high
          (first_post diffs a.price_observations.account.account_data)
          history'
  RecordedTick-HoldsFeed low high a history window_duration now holds (too_early newest n early) =
      (history, holds)
  RecordedTick-HoldsFeed low high a history window_duration now holds
        (extended newest entry content n late t longer) =
      (entry ∷ history, longer)

  -- Every state that the account of a feed can come to is the ring of the newest observations of a
  -- history that starts with the creation.
  pub Fed-HoldsFeed :
      (low high : ℤ) (window_duration : ℕ) (oracle_program_id : AccountId) {content : Data}
      → RoundTrips h.observation_feeds
      → Fed low high window_duration oracle_program_id content
      → (history : List ObservationEntry) × HoldsFeed h low high content history
  Fed-HoldsFeed low high window_duration oracle_program_id round
        (created a initial_tick diffs i l k e) =
      let (now, _, same) =
        create_price_observations_inv h a initial_tick window_duration oracle_program_id e in
      let opening : ObservationEntry = record { timestamp = now; tick_cumulative = pos 0 } in
      let feed = opening_feed a.price_source.account_id initial_tick now in
      subst
        (λ (ds : List (AccountStateDiff Data)).
          (history : List ObservationEntry) × HoldsFeed h low high
            (first_post ds a.target.account.account_data) history)
        (sym same)
        (
          opening ∷ [],
          (
            feed,
            round feed,
            opening_feed-Represents a.price_source.account_id initial_tick now,
            first initial_tick opening i l k,
          ),
        )
  Fed-HoldsFeed low high window_duration oracle_program_id round
        (recorded a price_source_id diffs before tick e) =
      let (history, holds) =
        Fed-HoldsFeed low high window_duration oracle_program_id round before in
      let (now, _, outcome) =
        record_tick-RecordedTick h low high a history price_source_id window_duration
          oracle_program_id round holds tick e in
      RecordedTick-HoldsFeed low high a history window_duration now holds outcome
