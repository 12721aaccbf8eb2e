-- ===== src/Twap/Source/Access.antt =====
-- Who may write the accounts of a price source, and what a new feed holds:
-- programs/twap_oracle/src/update_current_tick.rs, create_current_tick_account.rs,
-- create_price_observations.rs and create_oracle_price_account.rs.
use lez_programs.Shared.{
  ℕ, ◌-◌, ◌%◌, ◌<◌, ◌≤◌, ◌≡◌, refl, arith, sym, ◌∙◌, true, not, leb, leb→le, List, [], ◌∷◌,
  get_elem?, replicate, length-replicate, length-set, ℤ, pos, ok, expect, bind-eq-ok, guard-eq-ok,
  guard-true, ok-eq-ok, ==→eq, ◌==◌,
}
use lez_programs.Host.{AccountId, AccountStateDiff}
use lez_programs.Twap.Core.{
  Panic, observations_capacity, ObservationEntry, OracleHost, compute_price_observations_pda,
  compute_oracle_price_account_pda, compute_current_tick_account_pda,
}
use lez_programs.Twap.Root.{price_to_tick}
use lez_programs.Twap.Feed.History.{Represents}
use lez_programs.Twap.Source.{
  SourceInstruction, create_observations_feed, create_price_account, create_tick_account,
  update_tick, run_source, SourceAccounts, opening_entries, opening_feed, source_diffs,
  update_current_tick, check_creation, create_current_tick_account, create_price_observations,
  create_oracle_price_account,
}

-- A new feed stands for the history of its first observation.
pub opening_feed-Represents :
    (price_source_id : AccountId) (initial_tick : ℤ) (now : ℕ)
    → Represents
        (opening_feed price_source_id initial_tick now)
        (record { timestamp = now; tick_cumulative = pos 0 } ∷ [])
opening_feed-Represents price_source_id initial_tick now =
    let newest_first : (i : ℕ)
        → i < 1
        → get_elem? (opening_entries now) (i % observations_capacity)
          ≡ get_elem? {A = ObservationEntry}
              (record { timestamp = now; tick_cumulative = pos 0 } ∷ []) (0 - i) =
      λ i before. (let zeroth : i ≡ 0 = omega arith in rw zeroth refl) in
    let empty : ObservationEntry = record { timestamp = 0; tick_cumulative = pos 0 } in
    record {
      counted = refl;
      capacity =
          length-set (replicate observations_capacity empty) 0
            (record { timestamp = now; tick_cumulative = pos 0 })
          ∙ length-replicate observations_capacity empty;
      next_slot = refl;
      opened = omega arith;
      held = λ i before recent. newest_first i before;
    }

module _ {Data : Type 0} (h : OracleHost Data) where
  check_creation_inv :
      (a : SourceAccounts Data) (pda : AccountId) (p q : Panic) {u : Unit {0}}
      → check_creation h a pda p q ≡ ok u
      → (a.target.account_id ≡ pda)
        × (h.is_default a.target.account ≡ true)
        × (a.price_source.is_authorized ≡ true)
        × (a.clock.account_id ≡ h.clock_01_program_account_id)
  unfolding check_creation
  check_creation_inv a pda p q {u} e =
      let (id, e₁) = guard-eq-ok (a.target.account_id == pda) _ _ e in
      let (fresh, e₂) = guard-eq-ok (h.is_default a.target.account) _ _ e₁ in
      let (signed, e₃) = guard-eq-ok a.price_source.is_authorized _ _ e₂ in
      (==→eq _ _ id, fresh, signed, ==→eq _ _ (guard-true _ _ e₃))

  -- The address of the account that an instruction writes.
  abbrev pub written_pda : SourceInstruction → AccountId → AccountId → AccountId
  written_pda (create_observations_feed _ window_duration) oracle_program_id price_source_id =
      compute_price_observations_pda h oracle_program_id price_source_id window_duration
  written_pda (create_price_account _ _ _ window_duration) oracle_program_id price_source_id =
      compute_oracle_price_account_pda h oracle_program_id price_source_id window_duration
  written_pda (create_tick_account _) oracle_program_id price_source_id =
      compute_current_tick_account_pda h oracle_program_id price_source_id
  written_pda (update_tick _) oracle_program_id price_source_id =
      compute_current_tick_account_pda h oracle_program_id price_source_id

  -- The account written is the price source's own, the price source has signed, the clock is the
  -- canonical one, and no other account changes.
  abbrev pub OnlyItsOwn :
      SourceInstruction → SourceAccounts Data → AccountId → List (AccountStateDiff Data) → Type 0
  OnlyItsOwn instruction a oracle_program_id diffs =
      (a.target.account_id ≡ written_pda instruction oracle_program_id a.price_source.account_id)
      × (a.price_source.is_authorized ≡ true)
      × (a.clock.account_id ≡ h.clock_01_program_account_id)
      × ((content : Data) × (diffs ≡ source_diffs h a content))

  -- If an instruction of a price source does not panic, then the price source has signed, the clock
  -- is the canonical one, the account written has the address derived from the price source, and
  -- the diffs write that account alone.
  pub run_source-OnlyItsOwn :
      (instruction : SourceInstruction) (a : SourceAccounts Data) (oracle_program_id : AccountId)
      {diffs : List (AccountStateDiff Data)}
      → run_source h instruction a oracle_program_id ≡ ok diffs
      → OnlyItsOwn instruction a oracle_program_id diffs
  unfolding run_source create_price_observations create_oracle_price_account
      create_current_tick_account update_current_tick
  run_source-OnlyItsOwn (create_observations_feed tick window) a program {diffs} e =
      let (_, c, e₁) = bind-eq-ok (check_creation h a _ _ _) _ e in
      let (id, _, signed, clock) = check_creation_inv a _ _ _ c in
      let (_, e₂) = guard-eq-ok (leb observations_capacity window) _ _ e₁ in
      let (now, _, e₃) =
        bind-eq-ok (expect (h.clock_timestamp a.clock.account.account_data) _) _ e₂ in
      (id, signed, clock, (_, sym (ok-eq-ok {P = Panic} e₃)))
  run_source-OnlyItsOwn (create_price_account base quote price window) a program {diffs} e =
      let (_, c, e₁) = bind-eq-ok (check_creation h a _ _ _) _ e in
      let (id, _, signed, clock) = check_creation_inv a _ _ _ c in
      let (_, e₂) = guard-eq-ok (leb observations_capacity window) _ _ e₁ in
      let (now, _, e₃) =
        bind-eq-ok (expect (h.clock_timestamp a.clock.account.account_data) _) _ e₂ in
      let (_, e₄) = guard-eq-ok (not (price == 0)) _ _ e₃ in
      let (_, e₅) = guard-eq-ok (not (now == 0)) _ _ e₄ in
      (id, signed, clock, (_, sym (ok-eq-ok {P = Panic} e₅)))
  run_source-OnlyItsOwn (create_tick_account price) a program {diffs} e =
      let (_, c, e₁) = bind-eq-ok (check_creation h a _ _ _) _ e in
      let (id, _, signed, clock) = check_creation_inv a _ _ _ c in
      let (now, _, e₂) =
        bind-eq-ok (expect (h.clock_timestamp a.clock.account.account_data) _) _ e₁ in
      let (tick, _, e₃) = bind-eq-ok (price_to_tick h price) _ e₂ in
      (id, signed, clock, (_, sym (ok-eq-ok {P = Panic} e₃)))
  run_source-OnlyItsOwn (update_tick price) a program {diffs} e =
      let (id, e₁) = guard-eq-ok (a.target.account_id == _) _ _ e in
      let (signed, e₂) = guard-eq-ok a.price_source.is_authorized _ _ e₁ in
      let (clock, e₃) = guard-eq-ok (a.clock.account_id == _) _ _ e₂ in
      let (_, _, e₄) =
        bind-eq-ok (expect (h.tick_accounts.try_from a.target.account.account_data) _) _ e₃ in
      let (now, _, e₅) =
        bind-eq-ok (expect (h.clock_timestamp a.clock.account.account_data) _) _ e₄ in
      let (tick, _, e₆) = bind-eq-ok (price_to_tick h price) _ e₅ in
      (==→eq _ _ id, signed, ==→eq _ _ clock, (_, sym (ok-eq-ok {P = Panic} e₆)))

  -- What a new feed's account holds.
  pub create_price_observations_inv :
      (a : SourceAccounts Data) (initial_tick : ℤ) (window_duration : ℕ)
      (oracle_program_id : AccountId) {diffs : List (AccountStateDiff Data)}
      → create_price_observations h a initial_tick window_duration oracle_program_id ≡ ok diffs
      → (now : ℕ) × (observations_capacity ≤ window_duration)
        × (diffs
            ≡ source_diffs h a (
                h.observation_feeds.into (opening_feed a.price_source.account_id initial_tick now)))
  unfolding create_price_observations
  create_price_observations_inv a initial_tick window_duration oracle_program_id {diffs} e =
      let (_, c, e₁) = bind-eq-ok (check_creation h a _ _ _) _ e in
      let (long, e₂) = guard-eq-ok (leb observations_capacity window_duration) _ _ e₁ in
      let (now, _, e₃) =
        bind-eq-ok (expect (h.clock_timestamp a.clock.account.account_data) _) _ e₂ in
      (now, leb→le _ _ long, sym (ok-eq-ok {P = Panic} e₃))
