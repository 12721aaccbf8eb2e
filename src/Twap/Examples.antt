-- ===== src/Twap/Examples.antt =====
-- Tests and examples for the oracle of programs/twap_oracle, with a small execution layer.
use lez_programs.Shared.{
  ℕ, ◌+◌, ◌-◌, ◌*◌, ◌/◌, ◌≡◌, refl, arith, Bool, true, false, Option, none, some, List, [], ◌∷◌, ℤ,
  pos, neg, ok, err, ltb, if◌then◌else◌, ◌^◌,
}
use lez_programs.Host.{AccountId, AccountWithMetadata, new, unchanged, RoundTrips}
use lez_programs.Twap.Core.{
  Panic, ObservationEntry, PriceObservations, OraclePriceAccount, CurrentTickAccount, OracleHost,
  compute_price_observations_pda, compute_oracle_price_account_pda,
  compute_current_tick_account_pda, compute_current_tick_account_pda_seed,
  compute_price_observations_pda_seed, compute_oracle_price_account_pda_seed,
}
use lez_programs.Twap.Root.{
  integer_sqrt, price_to_tick, tick_to_oracle_price, bit_length, root_loop, root_turn,
}
use lez_programs.Twap.Root.Floor.{IsFloorRoot, integer_sqrt-IsFloorRoot}
use lez_programs.Twap.Feed.{
  clamped_tick, advance, record_observation, write_observation, tick_product, twap_tick,
  project_cumulative, average_tick,
}
use lez_programs.Twap.Feed.History.{Represents, advance-Represents}
use lez_programs.Twap.Feed.Observed.{Recorded, first, next}
use lez_programs.Twap.Handlers.{
  RecordAccounts, PublishAccounts, record_tick, publish_price, check_publish, check_record,
  publish_diffs,
}
use lez_programs.Twap.Handlers.Recording.{HoldsFeed, RecordedTick, record_tick-RecordedTick}
use lez_programs.Twap.Handlers.Publishing.{
  PublishedPrice, publish_price-PublishedPrice, publish_price_stale,
}
use lez_programs.Twap.Handlers.Feeding.{Fed, created, recorded, Fed-HoldsFeed}
use lez_programs.Twap.Source.{
  SourceAccounts, update_tick, run_source, source_diffs, opening_feed, create_price_observations,
  check_creation, update_current_tick,
}
use lez_programs.Twap.Source.Access.{run_source-OnlyItsOwn, OnlyItsOwn, opening_feed-Represents}

-- What an account may hold.
data Content : Type 0 where
  empty : Content
  feed : PriceObservations → Content
  oracle_price : OraclePriceAccount → Content
  current_tick : CurrentTickAccount → Content
  block_time : ℕ → Content

abbrev as_feed : Content → Option PriceObservations
as_feed (feed o) = some o
as_feed _ = none

abbrev as_price : Content → Option OraclePriceAccount
as_price (oracle_price p) = some p
as_price _ = none

abbrev as_tick : Content → Option CurrentTickAccount
as_tick (current_tick c) = some c
as_tick _ = none

abbrev as_time : Content → Option ℕ
as_time (block_time t) = some t
as_time _ = none

abbrev is_empty : Content → Bool
is_empty empty = true
is_empty _ = false

abbrev digest : List ℕ → ℕ
digest [] = 0
digest (b ∷ bs) = b + 7 * digest bs

-- One tick for each unit of the square root above one.
abbrev tick_of_root : ℕ → ℤ
tick_of_root root = if ltb root (2 ^ 96) then neg 1 else pos (root / 2 ^ 96 - 1)

abbrev root_of_tick : ℤ → ℕ
root_of_tick (ℤ.pos n) = (n + 1) * 2 ^ 96
root_of_tick (ℤ.negsuc n) = 2 ^ 96 / (n + 2)

abbrev host : OracleHost Content
host = record {
  observation_feeds = record { try_from = as_feed; into = feed };
  price_accounts = record { try_from = as_price; into = oracle_price };
  tick_accounts = record { try_from = as_tick; into = current_tick };
  is_default = λ a. is_empty a.account_data;
  hash_bytes = digest;
  to_bytes = λ id. id ∷ [];
  for_public_pda = λ program seed. program + seed;
  clock_01_program_account_id = 5;
  clock_timestamp = as_time;
  min_sqrt_ratio = 4295128739;
  get_tick_at_sqrt_ratio = λ root. some (tick_of_root root);
  min_tick = neg 887272;
  max_tick = pos 887272;
  get_sqrt_ratio_at_tick = λ tick. some (root_of_tick tick);
  full_mul_div = λ a b c. some (a * b / c);
}

abbrev oracle : AccountId
oracle = 90

abbrev pool : AccountId
pool = 17

abbrev window : ℕ
window = 20480

abbrev held_by : AccountId → AccountId → Content → AccountWithMetadata Content
held_by owner id content = record {
  account = record { program_owner = owner; balance = 0; account_data = content; nonce = 0 };
  is_authorized = false;
  account_id = id;
}

abbrev clock_at : ℕ → AccountWithMetadata Content
clock_at time = held_by 1 5 (block_time time)

abbrev signed_pool : AccountWithMetadata Content
signed_pool = record (held_by 2 pool empty) { is_authorized = true }

abbrev tick_account : ℤ → ℕ → AccountWithMetadata Content
tick_account tick time =
    held_by oracle (compute_current_tick_account_pda host oracle pool)
      (current_tick (record { tick = tick; last_updated = time }))

abbrev feed_account : Content → AccountWithMetadata Content
feed_account content =
    held_by oracle (compute_price_observations_pda host oracle pool window) content

abbrev price_account : AccountWithMetadata Content
price_account = held_by oracle (compute_oracle_price_account_pda host oracle pool window) (
    oracle_price (record {
      base_asset = 1;
      quote_asset = 2;
      price = 2 ^ 64;
      price_timestamp = 1000;
      source_id = pool;
      confidence_interval = 0;
    }))

-- A feed that is opened at 1000 with the tick 10, and gets the tick 20 at 2000.
abbrev opened_feed : PriceObservations
opened_feed = opening_feed pool (pos 10) 1000

abbrev second_entry : ObservationEntry
second_entry = record { timestamp = 2000; tick_cumulative = pos 20000 }

abbrev first_entry : ObservationEntry
first_entry = record { timestamp = 1000; tick_cumulative = pos 0 }

abbrev longer_feed : PriceObservations
longer_feed = advance opened_feed second_entry (pos 20)

abbrev record_accounts : PriceObservations → ℤ → ℕ → ℕ → RecordAccounts Content
record_accounts o tick written now = record {
  price_observations = feed_account (feed o);
  current_tick_account = tick_account tick written;
  clock = clock_at now;
}

abbrev publish_accounts : ℕ → PublishAccounts Content
publish_accounts now = record {
  price_observations = feed_account (feed longer_feed);
  oracle_price_account = price_account;
  current_tick_account = tick_account (pos 30) 2020;
  clock = clock_at now;
}

second_observation :
    record_tick host (record_accounts opened_feed (pos 20) 1500 2000) pool window oracle
    ≡ ok (
        new (feed_account (feed opened_feed)) (feed longer_feed)
        ∷ unchanged (tick_account (pos 20) 1500)
        ∷ unchanged (clock_at 2000)
        ∷ [])
unfolding record_tick check_record compute_current_tick_account_pda
    compute_current_tick_account_pda_seed compute_price_observations_pda
    compute_price_observations_pda_seed record_observation write_observation tick_product
    clamped_tick
second_observation = refl

early_observation :
    record_tick host (record_accounts opened_feed (pos 20) 1500 1009) pool window oracle
    ≡ ok (
        unchanged (feed_account (feed opened_feed))
        ∷ unchanged (tick_account (pos 20) 1500)
        ∷ unchanged (clock_at 1009)
        ∷ [])
unfolding record_tick check_record compute_current_tick_account_pda
    compute_current_tick_account_pda_seed compute_price_observations_pda
    compute_price_observations_pda_seed record_observation
early_observation = refl

-- A jump of the price is recorded as a move by 9116.
jump_is_clamped : clamped_tick (pos 10) (pos 100000) ≡ pos 9126
unfolding clamped_tick
jump_is_clamped = refl

fall_is_clamped : clamped_tick (pos 10) (neg 100000) ≡ neg 9106
unfolding clamped_tick
fall_is_clamped = refl

root_of_two_words : integer_sqrt (2 ^ 192) ≡ ok (2 ^ 96)
unfolding integer_sqrt bit_length root_loop root_turn
root_of_two_words = refl

root_below_square : integer_sqrt 99 ≡ ok 9
unfolding integer_sqrt bit_length root_loop root_turn
root_below_square = refl

-- The average of 20 over 1020 milliseconds and of 30 over 20 is 20.19..., so the tick is 20.
average_is_published :
    publish_price host (publish_accounts 2040) pool window oracle
    ≡ ok (
        unchanged (feed_account (feed longer_feed))
        ∷ new price_account (
            oracle_price (record {
              base_asset = 1;
              quote_asset = 2;
              price = 21 * 21 * 2 ^ 64;
              price_timestamp = 2040;
              source_id = pool;
              confidence_interval = 0;
            }))
        ∷ unchanged (tick_account (pos 30) 2020)
        ∷ unchanged (clock_at 2040)
        ∷ [])
unfolding publish_price check_publish compute_price_observations_pda
    compute_price_observations_pda_seed compute_oracle_price_account_pda
    compute_oracle_price_account_pda_seed compute_current_tick_account_pda
    compute_current_tick_account_pda_seed twap_tick project_cumulative tick_product clamped_tick
    average_tick publish_diffs tick_to_oracle_price
average_is_published = refl

stale_feed :
    publish_price host (publish_accounts 2041) pool window oracle ≡ err Panic.observations_stale
unfolding publish_price check_publish compute_price_observations_pda
    compute_price_observations_pda_seed compute_oracle_price_account_pda
    compute_oracle_price_account_pda_seed compute_current_tick_account_pda
    compute_current_tick_account_pda_seed twap_tick
stale_feed = refl

feed-RoundTrips : RoundTrips host.observation_feeds
feed-RoundTrips o = refl

abbrev creation_accounts : SourceAccounts Content
creation_accounts = record {
  target = held_by 0 (compute_price_observations_pda host oracle pool window) empty;
  price_source = signed_pool;
  clock = clock_at 1000;
}

opening_call :
    create_price_observations host creation_accounts (pos 10) window oracle
    ≡ ok (source_diffs host creation_accounts (feed opened_feed))
unfolding create_price_observations check_creation compute_price_observations_pda
    compute_price_observations_pda_seed
opening_call = refl

opened-Fed : Fed host (pos 10) (pos 20) window oracle (feed opened_feed)
opened-Fed =
    created creation_accounts (pos 10) (source_diffs host creation_accounts (feed opened_feed))
      (omega arith, omega arith) (omega arith) (omega arith) opening_call

longer-Fed : Fed host (pos 10) (pos 20) window oracle (feed longer_feed)
longer-Fed =
    recorded (record_accounts opened_feed (pos 20) 1500 2000) pool
      (new (feed_account (feed opened_feed)) (feed longer_feed)
        ∷ unchanged (tick_account (pos 20) 1500)
        ∷ unchanged (clock_at 2000)
        ∷ [])
      opened-Fed (record { tick = pos 20; last_updated = 1500 }, refl, omega arith, omega arith)
      second_observation

Fed-HoldsFeed_example :
    (history : List ObservationEntry) × HoldsFeed host (pos 10) (pos 20) (feed longer_feed) history
Fed-HoldsFeed_example =
    Fed-HoldsFeed host (pos 10) (pos 20) window oracle feed-RoundTrips longer-Fed

abbrev longer_history : List ObservationEntry
longer_history = second_entry ∷ first_entry ∷ []

longer-Represents : Represents longer_feed longer_history
longer-Represents =
    advance-Represents opened_feed (first_entry ∷ []) second_entry (pos 20)
      (opening_feed-Represents pool (pos 10) 1000)

opened-Recorded : Recorded (pos 10) (pos 30) (pos 10) (first_entry ∷ [])
opened-Recorded = first (pos 10) first_entry (omega arith, omega arith) (omega arith) (omega arith)

longer-Recorded : Recorded (pos 10) (pos 30) (pos 20) longer_history
longer-Recorded =
    next (pos 10) (pos 20) first_entry second_entry [] opened-Recorded (omega arith, omega arith)
      (omega arith) (omega arith) (omega arith) (omega arith) (omega arith) refl

record_tick-RecordedTick_example :
    (now : ℕ) × (some 2000 ≡ some now)
    × RecordedTick host
        (pos 10)
        (pos 30)
        (record_accounts opened_feed (pos 20) 1500 2000)
        (first_entry ∷ [])
        window
        now
        (new (feed_account (feed opened_feed)) (feed longer_feed)
          ∷ unchanged (tick_account (pos 20) 1500)
          ∷ unchanged (clock_at 2000)
          ∷ [])
record_tick-RecordedTick_example =
    record_tick-RecordedTick host (pos 10) (pos 30) (record_accounts opened_feed (pos 20) 1500 2000)
      (first_entry ∷ []) pool window oracle feed-RoundTrips
      (opened_feed, refl, opening_feed-Represents pool (pos 10) 1000, opened-Recorded)
      (record { tick = pos 20; last_updated = 1500 }, refl, omega arith, omega arith)
      second_observation

abbrev old_price : OraclePriceAccount
old_price = record {
  base_asset = 1;
  quote_asset = 2;
  price = 2 ^ 64;
  price_timestamp = 1000;
  source_id = pool;
  confidence_interval = 0;
}

publish_checks :
    check_publish host (publish_accounts 2040) pool window oracle
    ≡ ok (2040, longer_feed, old_price, record { tick = pos 30; last_updated = 2020 })
unfolding check_publish compute_price_observations_pda compute_price_observations_pda_seed
    compute_oracle_price_account_pda compute_oracle_price_account_pda_seed
    compute_current_tick_account_pda compute_current_tick_account_pda_seed
publish_checks = refl

late_publish_checks :
    check_publish host (publish_accounts 2041) pool window oracle
    ≡ ok (2041, longer_feed, old_price, record { tick = pos 30; last_updated = 2020 })
unfolding check_publish compute_price_observations_pda compute_price_observations_pda_seed
    compute_oracle_price_account_pda compute_oracle_price_account_pda_seed
    compute_current_tick_account_pda compute_current_tick_account_pda_seed
late_publish_checks = refl

publish_price-PublishedPrice_example :
    PublishedPrice host
      (pos 10)
      (pos 30)
      (publish_accounts 2040)
      longer_feed
      longer_history
      old_price
      (record { tick = pos 30; last_updated = 2020 })
      window
      2040
      (unchanged (feed_account (feed longer_feed))
        ∷ new price_account
            (oracle_price (record old_price { price = 21 * 21 * 2 ^ 64; price_timestamp = 2040 }))
        ∷ unchanged (tick_account (pos 30) 2020)
        ∷ unchanged (clock_at 2040)
        ∷ [])
publish_price-PublishedPrice_example =
    publish_price-PublishedPrice host (pos 10) (pos 30) (publish_accounts 2040) longer_history pool
      window oracle 2040 longer_feed old_price (record { tick = pos 30; last_updated = 2020 })
      longer-Represents longer-Recorded (omega arith) (omega arith) publish_checks
      average_is_published

publish_price_stale_example :
    publish_price host (publish_accounts 2041) pool window oracle ≡ err Panic.observations_stale
publish_price_stale_example =
    publish_price_stale host (publish_accounts 2041) longer_history second_entry pool window oracle
      2041 longer_feed old_price (record { tick = pos 30; last_updated = 2020 }) longer-Represents
      (omega arith) refl (omega arith) late_publish_checks

integer_sqrt-IsFloorRoot_example :
    (s : ℕ) × (integer_sqrt (2 ^ 255) ≡ ok s) × IsFloorRoot (2 ^ 255) s
integer_sqrt-IsFloorRoot_example = integer_sqrt-IsFloorRoot (2 ^ 255) (omega arith)

abbrev update_accounts : SourceAccounts Content
update_accounts = record {
  target = tick_account (pos 30) 2020;
  price_source = signed_pool;
  clock = clock_at 2100;
}

-- The price 4 has the root 2, and the tick 1 here.
update_call :
    run_source host (update_tick (4 * 2 ^ 64)) update_accounts oracle
    ≡ ok (
        source_diffs host update_accounts
          (current_tick (record { tick = pos 1; last_updated = 2100 })))
unfolding run_source update_current_tick compute_current_tick_account_pda
    compute_current_tick_account_pda_seed price_to_tick integer_sqrt bit_length root_loop root_turn
update_call = refl

run_source-OnlyItsOwn_example : OnlyItsOwn host (update_tick (4 * 2 ^ 64)) update_accounts oracle (
    source_diffs host update_accounts (current_tick (record { tick = pos 1; last_updated = 2100 })))
run_source-OnlyItsOwn_example =
    run_source-OnlyItsOwn host (update_tick (4 * 2 ^ 64)) update_accounts oracle update_call
