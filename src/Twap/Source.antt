-- ===== src/Twap/Source.antt =====
-- The instructions of a price source: programs/twap_oracle/src/update_current_tick.rs,
-- create_current_tick_account.rs, create_price_observations.rs and create_oracle_price_account.rs.
pub mod Access
use lez_programs.Shared.{
  ℕ, Bool, not, leb, ◌==◌, List, [], ◌∷◌, set, replicate, ℤ, pos, Result, ok, ◌>>=◌, ◌>>◌, guard,
  expect,
}
use lez_programs.Host.{AccountId, AccountWithMetadata, AccountStateDiff, new, unchanged}
use lez_programs.Twap.Core.{
  Panic, observations_capacity, ObservationEntry, PriceObservations, OraclePriceAccount,
  CurrentTickAccount, OracleHost, compute_price_observations_pda, compute_oracle_price_account_pda,
  compute_current_tick_account_pda,
}
use lez_programs.Twap.Root.{price_to_tick}

-- The account that a price source creates or updates, the price source, and the clock.
pub record SourceAccounts (Data : Type 0) : Type 0 where
  pub target : AccountWithMetadata Data
  pub price_source : AccountWithMetadata Data
  pub clock : AccountWithMetadata Data

-- The instructions of a price source, with their arguments.
pub data SourceInstruction : Type 0 where
  create_observations_feed : (initial_tick : ℤ) (window_duration : ℕ) → SourceInstruction
  create_price_account :
      (base_asset quote_asset : AccountId) (initial_price window_duration : ℕ) → SourceInstruction
  create_tick_account : (initial_price : ℕ) → SourceInstruction
  update_tick : (price : ℕ) → SourceInstruction

-- The ring of a new feed: its first observation, and empty slots.
abbrev pub opening_entries : ℕ → List ObservationEntry
opening_entries now =
    set (replicate observations_capacity (record { timestamp = 0; tick_cumulative = pos 0 })) 0
      (record { timestamp = now; tick_cumulative = pos 0 })

abbrev pub opening_feed : AccountId → ℤ → ℕ → PriceObservations
opening_feed price_source_id initial_tick now = record {
  price_source_id = price_source_id;
  write_index = 1;
  total_entries = 1;
  last_recorded_tick = initial_tick;
  entries = opening_entries now;
}

module _ {Data : Type 0} (h : OracleHost Data) where
  abbrev pub source_diffs : SourceAccounts Data → Data → List (AccountStateDiff Data)
  source_diffs a content = new a.target content ∷ unchanged a.price_source ∷ unchanged a.clock ∷ []

  unfoldable pub update_current_tick :
      SourceAccounts Data → ℕ → AccountId → Result Panic (List (AccountStateDiff Data))
  update_current_tick a price oracle_program_id = do
    guard
        (a.target.account_id
          == compute_current_tick_account_pda h oracle_program_id a.price_source.account_id)
        Panic.wrong_tick_account
    guard a.price_source.is_authorized Panic.source_not_authorized
    guard (a.clock.account_id == h.clock_01_program_account_id) Panic.wrong_clock
    _ ← expect (h.tick_accounts.try_from a.target.account.account_data) Panic.invalid_tick_account
    now ← expect (h.clock_timestamp a.clock.account.account_data) Panic.invalid_clock
    tick ← price_to_tick h price
    ok (source_diffs a (h.tick_accounts.into (record { tick = tick; last_updated = now })))

  -- What the three creations check, given the address that the account must have.
  unfoldable pub check_creation :
      SourceAccounts Data → AccountId → Panic → Panic → Result Panic (Unit {0})
  check_creation a pda wrong_address not_default = do
    guard (a.target.account_id == pda) wrong_address
    guard (h.is_default a.target.account) not_default
    guard a.price_source.is_authorized Panic.source_not_authorized
    guard (a.clock.account_id == h.clock_01_program_account_id) Panic.wrong_clock

  unfoldable pub create_current_tick_account :
      SourceAccounts Data → ℕ → AccountId → Result Panic (List (AccountStateDiff Data))
  create_current_tick_account a initial_price oracle_program_id = do
    check_creation a
        (compute_current_tick_account_pda h oracle_program_id a.price_source.account_id)
        Panic.wrong_tick_account Panic.tick_account_not_default
    now ← expect (h.clock_timestamp a.clock.account.account_data) Panic.invalid_clock
    tick ← price_to_tick h initial_price
    ok (source_diffs a (h.tick_accounts.into (record { tick = tick; last_updated = now })))

  unfoldable pub create_price_observations :
      SourceAccounts Data → ℤ → ℕ → AccountId → Result Panic (List (AccountStateDiff Data))
  create_price_observations a initial_tick window_duration oracle_program_id = do
    check_creation a
        (compute_price_observations_pda h oracle_program_id a.price_source.account_id
          window_duration)
        Panic.wrong_observations Panic.observations_not_default
    guard (leb observations_capacity window_duration) Panic.window_too_short
    now ← expect (h.clock_timestamp a.clock.account.account_data) Panic.invalid_clock
    ok (
        source_diffs a
          (h.observation_feeds.into (opening_feed a.price_source.account_id initial_tick now)))

  unfoldable pub create_oracle_price_account :
      SourceAccounts Data
      → AccountId
      → AccountId
      → ℕ
      → ℕ
      → AccountId
      → Result Panic (List (AccountStateDiff Data))
  create_oracle_price_account a base_asset quote_asset initial_price window_duration
        oracle_program_id =
      do
        check_creation a
            (compute_oracle_price_account_pda h oracle_program_id a.price_source.account_id
              window_duration)
            Panic.wrong_price_account Panic.price_account_not_default
        guard (leb observations_capacity window_duration) Panic.window_too_short
        now ← expect (h.clock_timestamp a.clock.account.account_data) Panic.invalid_clock
        guard (not (initial_price == 0)) Panic.zero_price
        guard (not (now == 0)) Panic.zero_timestamp
        ok (
            source_diffs a (
              h.price_accounts.into (record {
                base_asset = base_asset;
                quote_asset = quote_asset;
                price = initial_price;
                price_timestamp = now;
                source_id = a.price_source.account_id;
                confidence_interval = 0;
              })))

  -- `Instruction`, but for the two that anyone may call.
  unfoldable pub run_source :
      SourceInstruction
      → SourceAccounts Data
      → AccountId
      → Result Panic (List (AccountStateDiff Data))
  run_source (create_observations_feed initial_tick window_duration) a oracle_program_id =
      create_price_observations a initial_tick window_duration oracle_program_id
  run_source (create_price_account base_asset quote_asset initial_price window_duration) a
        oracle_program_id =
      create_oracle_price_account a base_asset quote_asset initial_price window_duration
        oracle_program_id
  run_source (create_tick_account initial_price) a oracle_program_id =
      create_current_tick_account a initial_price oracle_program_id
  run_source (update_tick price) a oracle_program_id = update_current_tick a price oracle_program_id
