-- ===== src/Twap/Handlers/Publishing.antt =====
-- What `publish_price` of programs/twap_oracle/src/publish_price.rs leaves in the price account, and
-- when it refuses.
use mathlib.Core.Path.{subst}
use lez_programs.Shared.{
  ℕ, ◌+◌, ◌<◌, ◌≤◌, ◌≡◌, refl, ap, ◌∙◌, Option, some, List, [], ◌∷◌, get_elem?, ℤ, ◌≤ℤ◌, ok, err,
  expect, bind-eq-ok, guard-eq-ok, expect-eq-ok, ok-eq-ok, ==→eq, ◌==◌, ◌>>=◌,
}
use lez_programs.Host.{AccountId, AccountStateDiff, new, unchanged}
use lez_programs.Twap.Core.{
  Panic, ObservationEntry, PriceObservations, OraclePriceAccount, CurrentTickAccount, OracleHost,
  compute_oracle_price_account_pda,
}
use lez_programs.Twap.Root.{tick_to_oracle_price}
use lez_programs.Twap.Feed.{max_tail_ms, twap_tick}
use lez_programs.Twap.Feed.History.{Represents}
use lez_programs.Twap.Feed.Observed.{Recorded}
use lez_programs.Twap.Feed.Averaged.{Averaged, too_few, average}
use lez_programs.Twap.Feed.Published.{twap_tick-Averaged, twap_tick_stale}
use lez_programs.Twap.Handlers.{PublishAccounts, check_publish, publish_diffs, publish_price}

-- What `publish_price` reads.
abbrev pub PublishRead : Type 0
PublishRead = ℕ × PriceObservations × OraclePriceAccount × CurrentTickAccount

module _ {Data : Type 0} (h : OracleHost Data) where
  -- What the checks of `publish_price` establish.
  pub check_publish_inv :
      (a : PublishAccounts Data) (price_source_id : AccountId) (window_duration : ℕ)
      (oracle_program_id : AccountId) {now : ℕ} {o : PriceObservations} {p : OraclePriceAccount}
      {c : CurrentTickAccount}
      → check_publish h a price_source_id window_duration oracle_program_id ≡ ok (now, o, p, c)
      → (a.oracle_price_account.account_id
          ≡ compute_oracle_price_account_pda h oracle_program_id price_source_id window_duration)
        × (a.price_observations.account.program_owner ≡ oracle_program_id)
        × (a.current_tick_account.account.program_owner ≡ oracle_program_id)
        × (a.clock.account_id ≡ h.clock_01_program_account_id)
        × (h.clock_timestamp a.clock.account.account_data ≡ some now)
        × (h.observation_feeds.try_from a.price_observations.account.account_data ≡ some o)
        × (h.price_accounts.try_from a.oracle_price_account.account.account_data ≡ some p)
        × (h.tick_accounts.try_from a.current_tick_account.account.account_data ≡ some c)
  unfolding check_publish
  check_publish_inv a price_source_id window_duration oracle_program_id {now} {o} {p} {c} e =
      let (_, e₁) = guard-eq-ok (a.price_observations.account_id == _) _ _ e in
      let (price_id, e₂) = guard-eq-ok (a.oracle_price_account.account_id == _) _ _ e₁ in
      let (_, e₃) = guard-eq-ok (a.current_tick_account.account_id == _) _ _ e₂ in
      let (owner, e₄) = guard-eq-ok (a.price_observations.account.program_owner == _) _ _ e₃ in
      let (tick_owner, e₅) =
        guard-eq-ok (a.current_tick_account.account.program_owner == _) _ _ e₄ in
      let (clock_id, e₆) = guard-eq-ok (a.clock.account_id == _) _ _ e₅ in
      let (time, t, e₇) =
        bind-eq-ok (expect (h.clock_timestamp a.clock.account.account_data) _) _ e₆ in
      let (feed, f, e₈) =
        bind-eq-ok
          (expect (h.observation_feeds.try_from a.price_observations.account.account_data) _) _
          e₇ in
      let (price, r, e₉) =
        bind-eq-ok
          (expect (h.price_accounts.try_from a.oracle_price_account.account.account_data) _) _ e₈ in
      let (tick, k, e₁₀) =
        bind-eq-ok (expect (h.tick_accounts.try_from a.current_tick_account.account.account_data) _)
          _ e₉ in
      let same = ok-eq-ok {P = Panic} {T = PublishRead} e₁₀ in
      (
        ==→eq _ _ price_id,
        ==→eq _ _ owner,
        ==→eq _ _ tick_owner,
        ==→eq _ _ clock_id,
        expect-eq-ok _ _ t ∙ ap (λ (x : PublishRead). some x.0) same,
        expect-eq-ok _ _ f ∙ ap (λ (x : PublishRead). some x.1) same,
        expect-eq-ok _ _ r ∙ ap (λ (x : PublishRead). some x.2) same,
        expect-eq-ok _ _ k ∙ ap (λ (x : PublishRead). some x.3) same,
      )

  -- The outcome of `publish_price`: no account changes, as the feed has less than two
  -- observations, or the price account has the price of the average tick, and the time.
  pub data PublishedPrice (low high : ℤ) (a : PublishAccounts Data) (o : PriceObservations)
      (history : List ObservationEntry) (p : OraclePriceAccount) (c : CurrentTickAccount)
      (window_duration now : ℕ) : List (AccountStateDiff Data) → Type 0 where
    not_yet :
        o.total_entries < 2
        → PublishedPrice low high a o history p c window_duration now (
            unchanged a.price_observations
            ∷ unchanged a.oracle_price_account
            ∷ unchanged a.current_tick_account
            ∷ unchanged a.clock
            ∷ [])
    published :
        (tick : ℤ) (price : ℕ)
        → Averaged low high o history c now window_duration (some tick)
        → tick_to_oracle_price h tick ≡ ok price
        → PublishedPrice low high a o history p c window_duration now (
            unchanged a.price_observations
            ∷ new a.oracle_price_account
                (h.price_accounts.into (record p { price = price; price_timestamp = now }))
            ∷ unchanged a.current_tick_account
            ∷ unchanged a.clock
            ∷ [])

  Averaged-PublishedPrice :
      (low high : ℤ) (a : PublishAccounts Data) (o : PriceObservations)
      (history : List ObservationEntry) (p : OraclePriceAccount) (c : CurrentTickAccount)
      (window_duration now : ℕ) (result : Option ℤ) {diffs : List (AccountStateDiff Data)}
      → Averaged low high o history c now window_duration result
      → publish_diffs h a p now result ≡ ok diffs
      → PublishedPrice low high a o history p c window_duration now diffs
  unfolding publish_diffs
  Averaged-PublishedPrice low high a o history p c window_duration now _ (too_few few) e =
      subst (PublishedPrice low high a o history p c window_duration now) (ok-eq-ok {P = Panic} e)
        (not_yet few)
  Averaged-PublishedPrice low high a o history p c window_duration now _
        (average newest oldest tick two n d ordered tail before floor l k) e =
      let (price, t, e₁) = bind-eq-ok (tick_to_oracle_price h tick) _ e in
      subst (PublishedPrice low high a o history p c window_duration now) (ok-eq-ok {P = Panic} e₁)
        (published tick price (average newest oldest tick two n d ordered tail before floor l k) t)

  -- On a feed that represents a history, with all recorded and reported ticks between two bounds,
  -- a call of `publish_price` that does not panic either finds less than two observations and
  -- changes no account, or finds the newest observation young enough and stores the time and the
  -- price of the floor of the average tick, from the oldest observation that the ring holds up to
  -- now, and that tick is between the bounds.
  pub publish_price-PublishedPrice :
      (low high : ℤ) (a : PublishAccounts Data) (history : List ObservationEntry)
      (price_source_id : AccountId) (window_duration : ℕ) (oracle_program_id : AccountId) (now : ℕ)
      (o : PriceObservations) (p : OraclePriceAccount) (c : CurrentTickAccount)
      {diffs : List (AccountStateDiff Data)}
      → Represents o history
      → Recorded low high o.last_recorded_tick history
      → low ≤ℤ c.tick
      → c.tick ≤ℤ high
      → check_publish h a price_source_id window_duration oracle_program_id ≡ ok (now, o, p, c)
      → publish_price h a price_source_id window_duration oracle_program_id ≡ ok diffs
      → PublishedPrice low high a o history p c window_duration now diffs
  unfolding publish_price
  publish_price-PublishedPrice low high a history price_source_id window_duration oracle_program_id
        now o p c {diffs} r recorded l k checks e =
      let e₀ : (twap_tick o c now window_duration >>= λ tick. publish_diffs h a p now tick)
          ≡ ok diffs =
        rw checks at e in
      let (result, t, e₁) = bind-eq-ok (twap_tick o c now window_duration) _ e₀ in
      let averaged = twap_tick-Averaged low high o history c now window_duration r recorded l k t in
      Averaged-PublishedPrice low high a o history p c window_duration now result averaged e₁

  -- If the accounts pass the checks, the feed represents a history, it has two observations or
  -- more, and the newest of the history is older than four sampling intervals, then `publish_price`
  -- panics with the message for stale observations.
  pub publish_price_stale :
      (a : PublishAccounts Data) (history : List ObservationEntry) (newest : ObservationEntry)
      (price_source_id : AccountId) (window_duration : ℕ) (oracle_program_id : AccountId) (now : ℕ)
      (o : PriceObservations) (p : OraclePriceAccount) (c : CurrentTickAccount)
      → Represents o history
      → 2 ≤ o.total_entries
      → get_elem? history 0 ≡ some newest
      → newest.timestamp + max_tail_ms window_duration < now
      → check_publish h a price_source_id window_duration oracle_program_id ≡ ok (now, o, p, c)
      → publish_price h a price_source_id window_duration oracle_program_id
        ≡ err Panic.observations_stale
  unfolding publish_price
  publish_price_stale a history newest price_source_id window_duration oracle_program_id now o p c r
        two n late checks =
      let stale = twap_tick_stale o history newest c now window_duration r two n late in
      rw (checks, stale) refl
