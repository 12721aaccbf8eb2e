-- ===== src/Twap/Handlers.antt =====
-- The two instructions that anyone may call, over the accounts that they are handed:
-- programs/twap_oracle/src/record_tick.rs and publish_price.rs.
pub mod Recording
pub mod Publishing
pub mod Feeding
use lez_programs.Shared.{
  ℕ, ◌+◌, ◌<◌, ◌≡◌, Bool, not, ltb, leb, ◌==◌, Option, none, some, List, [], ◌∷◌, set, replicate, ℤ,
  pos, Result, ok, ◌>>=◌, ◌>>◌, guard, expect,
}
use lez_programs.Host.{AccountId, AccountWithMetadata, AccountStateDiff, new, unchanged}
use lez_programs.Twap.Core.{
  Panic, observations_capacity, ObservationEntry, PriceObservations, OraclePriceAccount,
  CurrentTickAccount, OracleHost, compute_price_observations_pda, compute_oracle_price_account_pda,
  compute_current_tick_account_pda,
}
use lez_programs.Twap.Root.{price_to_tick, tick_to_oracle_price}
use lez_programs.Twap.Feed.{record_observation, twap_tick}

-- The accounts of `record_tick`.
pub record RecordAccounts (Data : Type 0) : Type 0 where
  pub price_observations : AccountWithMetadata Data
  pub current_tick_account : AccountWithMetadata Data
  pub clock : AccountWithMetadata Data

-- The accounts of `publish_price`.
pub record PublishAccounts (Data : Type 0) : Type 0 where
  pub price_observations : AccountWithMetadata Data
  pub oracle_price_account : AccountWithMetadata Data
  pub current_tick_account : AccountWithMetadata Data
  pub clock : AccountWithMetadata Data

module _ {Data : Type 0} (h : OracleHost Data) where
  abbrev read_clock : AccountWithMetadata Data → Result Panic ℕ
  read_clock clock = expect (h.clock_timestamp clock.account.account_data) Panic.invalid_clock

  -- The checks of `record_tick`, and what it reads: the time, the current tick and the feed.
  unfoldable pub check_record :
      RecordAccounts Data
      → AccountId
      → ℕ
      → AccountId
      → Result Panic (ℕ × CurrentTickAccount × PriceObservations)
  check_record a price_source_id window_duration oracle_program_id = do
    guard
        (a.current_tick_account.account_id
          == compute_current_tick_account_pda h oracle_program_id price_source_id)
        Panic.wrong_tick_account
    guard
        (a.price_observations.account_id
          == compute_price_observations_pda h oracle_program_id price_source_id window_duration)
        Panic.wrong_observations
    guard (a.current_tick_account.account.program_owner == oracle_program_id)
        Panic.tick_account_not_owned
    guard (a.clock.account_id == h.clock_01_program_account_id) Panic.wrong_clock
    now ← read_clock a.clock
    current ←
        expect (h.tick_accounts.try_from a.current_tick_account.account.account_data)
          Panic.invalid_tick_account
    observations ←
        expect (h.observation_feeds.try_from a.price_observations.account.account_data)
          Panic.invalid_observations
    ok (now, current, observations)

  -- The account of the feed is rewritten if there is a new feed.
  abbrev pub record_diffs :
      RecordAccounts Data → Option PriceObservations → List (AccountStateDiff Data)
  record_diffs a none =
      unchanged a.price_observations ∷ unchanged a.current_tick_account ∷ unchanged a.clock ∷ []
  record_diffs a (some o) =
      new a.price_observations (h.observation_feeds.into o)
      ∷ unchanged a.current_tick_account
      ∷ unchanged a.clock
      ∷ []

  unfoldable pub record_tick :
      RecordAccounts Data → AccountId → ℕ → AccountId → Result Panic (List (AccountStateDiff Data))
  record_tick a price_source_id window_duration oracle_program_id = do
    (now, current, observations) ← check_record a price_source_id window_duration oracle_program_id
    result ← record_observation observations current now window_duration
    ok (record_diffs a result)

  -- The checks of `publish_price`, and what it reads.
  unfoldable pub check_publish :
      PublishAccounts Data
      → AccountId
      → ℕ
      → AccountId
      → Result Panic (ℕ × PriceObservations × OraclePriceAccount × CurrentTickAccount)
  check_publish a price_source_id window_duration oracle_program_id = do
    guard
        (a.price_observations.account_id
          == compute_price_observations_pda h oracle_program_id price_source_id window_duration)
        Panic.wrong_observations
    guard
        (a.oracle_price_account.account_id
          == compute_oracle_price_account_pda h oracle_program_id price_source_id window_duration)
        Panic.wrong_price_account
    guard
        (a.current_tick_account.account_id
          == compute_current_tick_account_pda h oracle_program_id price_source_id)
        Panic.wrong_tick_account
    guard (a.price_observations.account.program_owner == oracle_program_id)
        Panic.observations_not_owned
    guard (a.current_tick_account.account.program_owner == oracle_program_id)
        Panic.tick_account_not_owned
    guard (a.clock.account_id == h.clock_01_program_account_id) Panic.wrong_clock
    now ← read_clock a.clock
    observations ←
        expect (h.observation_feeds.try_from a.price_observations.account.account_data)
          Panic.invalid_observations
    price_account ←
        expect (h.price_accounts.try_from a.oracle_price_account.account.account_data)
          Panic.invalid_price_account
    current ←
        expect (h.tick_accounts.try_from a.current_tick_account.account.account_data)
          Panic.invalid_tick_account
    ok (now, observations, price_account, current)

  -- The account of the price is rewritten with the price of the average tick, if there is one.
  unfoldable pub publish_diffs :
      PublishAccounts Data
      → OraclePriceAccount
      → ℕ
      → Option ℤ
      → Result Panic (List (AccountStateDiff Data))
  publish_diffs a price_account now none = ok (
      unchanged a.price_observations
      ∷ unchanged a.oracle_price_account
      ∷ unchanged a.current_tick_account
      ∷ unchanged a.clock
      ∷ [])
  publish_diffs a price_account now (some tick) = do
    price ← tick_to_oracle_price h tick
    ok (
        unchanged a.price_observations
        ∷ new a.oracle_price_account
            (h.price_accounts.into (record price_account { price = price; price_timestamp = now }))
        ∷ unchanged a.current_tick_account
        ∷ unchanged a.clock
        ∷ [])

  unfoldable pub publish_price :
      PublishAccounts Data → AccountId → ℕ → AccountId → Result Panic (List (AccountStateDiff Data))
  publish_price a price_source_id window_duration oracle_program_id = do
    (now, observations, price_account, current) ←
        check_publish a price_source_id window_duration oracle_program_id
    tick ← twap_tick observations current now window_duration
    publish_diffs a price_account now tick
