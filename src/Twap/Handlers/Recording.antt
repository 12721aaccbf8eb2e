-- ===== src/Twap/Handlers/Recording.antt =====
-- What `record_tick` of programs/twap_oracle/src/record_tick.rs leaves in the account of a feed.
use mathlib.Core.Path.{subst}
use lez_programs.Shared.{
  ℕ, ◌-◌, ◌<◌, ◌≤◌, ◌≡◌, ap, sym, ◌∙◌, Option, some, List, [], ◌∷◌, get_elem?, ℤ, ◌≤ℤ◌, ok, expect,
  bind-eq-ok, guard-eq-ok, expect-eq-ok, ok-eq-ok, ==→eq, ◌==◌, some-eq-some,
}
use lez_programs.Host.{AccountId, AccountStateDiff, new, unchanged, RoundTrips}
use lez_programs.Twap.Core.{
  Panic, ObservationEntry, PriceObservations, CurrentTickAccount, OracleHost,
  compute_price_observations_pda, compute_current_tick_account_pda,
}
use lez_programs.Twap.Feed.{min_interval, record_observation}
use lez_programs.Twap.Feed.History.{Represents}
use lez_programs.Twap.Feed.Observed.{
  Recorded, Observed, skipped, written, record_observation-Observed,
}
use lez_programs.Twap.Handlers.{RecordAccounts, check_record, record_diffs, record_tick}

module _ {Data : Type 0} (h : OracleHost Data) where
  -- The data of an account is a feed with this history, whose ticks are between the bounds.
  abbrev pub HoldsFeed : ℤ → ℤ → Data → List ObservationEntry → Type 0
  HoldsFeed low high content history =
      (o : PriceObservations) × (h.observation_feeds.try_from content ≡ some o)
      × Represents o history
      × Recorded low high o.last_recorded_tick history

  -- The data of an account is a current tick between the bounds.
  abbrev pub HoldsTick : ℤ → ℤ → Data → Type 0
  HoldsTick low high content =
      (c : CurrentTickAccount) × (h.tick_accounts.try_from content ≡ some c)
      × (low ≤ℤ c.tick)
      × (c.tick ≤ℤ high)

  -- The outcome of `record_tick` at a time: it comes too early and changes no account, or it
  -- puts one observation before the history.
  pub data RecordedTick (low high : ℤ) (a : RecordAccounts Data) (history : List ObservationEntry)
      (window_duration now : ℕ) : List (AccountStateDiff Data) → Type 0 where
    too_early :
        (newest : ObservationEntry)
        → get_elem? history 0 ≡ some newest
        → now - newest.timestamp < min_interval window_duration
        → RecordedTick low high a history window_duration now (
            unchanged a.price_observations
            ∷ unchanged a.current_tick_account
            ∷ unchanged a.clock
            ∷ [])
    extended :
        (newest entry : ObservationEntry) (content : Data)
        → get_elem? history 0 ≡ some newest
        → min_interval window_duration ≤ now - newest.timestamp
        → entry.timestamp ≡ now
        → HoldsFeed low high content (entry ∷ history)
        → RecordedTick low high a history window_duration now (
            new a.price_observations content
            ∷ unchanged a.current_tick_account
            ∷ unchanged a.clock
            ∷ [])

  Observed-RecordedTick :
      (low high : ℤ) (a : RecordAccounts Data) (history : List ObservationEntry)
      (window_duration now : ℕ) (result : Option PriceObservations)
      → RoundTrips h.observation_feeds
      → Observed low high history now window_duration result
      → RecordedTick low high a history window_duration now (record_diffs h a result)
  Observed-RecordedTick low high a history window_duration now _ round (skipped newest n early) =
      too_early newest n early
  Observed-RecordedTick low high a history window_duration now _ round
        (written newest entry o' n late t r recorded) =
      extended newest entry (h.observation_feeds.into o') n late t (o', round o', r, recorded)

  -- What the checks of `record_tick` establish.
  pub check_record_inv :
      (a : RecordAccounts Data) (price_source_id : AccountId) (window_duration : ℕ)
      (oracle_program_id : AccountId) {now : ℕ} {c : CurrentTickAccount} {o : PriceObservations}
      → check_record h a price_source_id window_duration oracle_program_id ≡ ok (now, c, o)
      → (a.price_observations.account_id
          ≡ compute_price_observations_pda h oracle_program_id price_source_id window_duration)
        × (a.current_tick_account.account_id
            ≡ compute_current_tick_account_pda h oracle_program_id price_source_id)
        × (a.current_tick_account.account.program_owner ≡ oracle_program_id)
        × (a.clock.account_id ≡ h.clock_01_program_account_id)
        × (h.clock_timestamp a.clock.account.account_data ≡ some now)
        × (h.tick_accounts.try_from a.current_tick_account.account.account_data ≡ some c)
        × (h.observation_feeds.try_from a.price_observations.account.account_data ≡ some o)
  unfolding check_record
  check_record_inv a price_source_id window_duration oracle_program_id {now} {c} {o} e =
      let (tick_id, e₁) = guard-eq-ok (a.current_tick_account.account_id == _) _ _ e in
      let (feed_id, e₂) = guard-eq-ok (a.price_observations.account_id == _) _ _ e₁ in
      let (owner, e₃) = guard-eq-ok (a.current_tick_account.account.program_owner == _) _ _ e₂ in
      let (clock_id, e₄) = guard-eq-ok (a.clock.account_id == _) _ _ e₃ in
      let (time, t, e₅) =
        bind-eq-ok (expect (h.clock_timestamp a.clock.account.account_data) _) _ e₄ in
      let (tick, k, e₆) =
        bind-eq-ok (expect (h.tick_accounts.try_from a.current_tick_account.account.account_data) _)
          _ e₅ in
      let (feed, f, e₇) =
        bind-eq-ok
          (expect (h.observation_feeds.try_from a.price_observations.account.account_data) _) _
          e₆ in
      let same = ok-eq-ok {P = Panic} {T = ℕ × CurrentTickAccount × PriceObservations} e₇ in
      (
        ==→eq _ _ feed_id,
        ==→eq _ _ tick_id,
        ==→eq _ _ owner,
        ==→eq _ _ clock_id,
        expect-eq-ok _ _ t ∙ ap (λ (x : ℕ × CurrentTickAccount × PriceObservations). some x.0) same,
        expect-eq-ok _ _ k ∙ ap (λ (x : ℕ × CurrentTickAccount × PriceObservations). some x.1) same,
        expect-eq-ok _ _ f ∙ ap (λ (x : ℕ × CurrentTickAccount × PriceObservations). some x.2) same,
      )

  -- A call of `record_tick` on a feed with a history does what the clock's time asks for.
  pub record_tick-RecordedTick :
      (low high : ℤ) (a : RecordAccounts Data) (history : List ObservationEntry)
      (price_source_id : AccountId) (window_duration : ℕ) (oracle_program_id : AccountId)
      {diffs : List (AccountStateDiff Data)}
      → RoundTrips h.observation_feeds
      → HoldsFeed low high a.price_observations.account.account_data history
      → HoldsTick low high a.current_tick_account.account.account_data
      → record_tick h a price_source_id window_duration oracle_program_id ≡ ok diffs
      → (now : ℕ) × (h.clock_timestamp a.clock.account.account_data ≡ some now)
        × RecordedTick low high a history window_duration now diffs
  unfolding record_tick
  record_tick-RecordedTick low high a history price_source_id window_duration oracle_program_id
        {diffs} round (o, decoded, r, recorded) (c, tick_decoded, l, k) e =
      let ((now, c', o'), checks, e₁) =
        bind-eq-ok (check_record h a price_source_id window_duration oracle_program_id) _ e in
      let (_, _, _, _, time, tick, feed) =
        check_record_inv a price_source_id window_duration oracle_program_id checks in
      let same_tick : c ≡ c' = some-eq-some (sym tick_decoded ∙ tick) in
      let same_feed : o ≡ o' = some-eq-some (sym decoded ∙ feed) in
      let (result, body, e₂) = bind-eq-ok (record_observation o' c' now window_duration) _ e₁ in
      let body' : record_observation o c now window_duration ≡ ok result =
        ap (λ (x : PriceObservations). record_observation x c now window_duration) same_feed
        ∙ ap (λ (x : CurrentTickAccount). record_observation o' x now window_duration) same_tick
        ∙ body in
      let observed =
        record_observation-Observed low high o history c now window_duration r recorded l k body' in
      (
        now,
        time,
        subst (RecordedTick low high a history window_duration now) (ok-eq-ok {P = Panic} e₂)
            (Observed-RecordedTick low high a history window_duration now result round observed),
      )
