-- ===== src/Tests/Events.antt =====
-- Runs of the event state machine and of eligibility (server/src/analytics/eventState.js and
-- eligibility.js).
use fpl_radar.Prelude.{
  ℕ, zero, suc, ◌≡◌, refl, ◌↔◌, inl, Bool, true, false, Option, none, some, List, [], ◌∷◌, Memᴰ,
}
use fpl_radar.Constants.{matches_finished, data_checked, reconciled, mismatch}
use fpl_radar.EventState.{
  Event, Fixture, derive_event_state, EligibleRow, GateContext, can_finalize, success, stale_sync,
  reconciliation_failed,
}
use fpl_radar.EventState.Laws.{MayFinalize, can_finalize_iff}
use fpl_radar.Prelude.Sort.{sort_by}
use fpl_radar.Eligibility.{Member, select_eligible, excluded, joined_later, no_team}
use fpl_radar.Eligibility.Laws.{eligible_unless_proved}

abbrev gw5 : Event
gw5 = record { id = 5; deadline_time = 1000; finished = false; data_checked = false }

abbrev two_fixtures : Option (List Fixture)
two_fixtures = some (
    record { event = some 5; finished = false; finished_provisional = true }
    ∷ record { event = some 6; finished = false; finished_provisional = false }
    ∷ [])

-- The fixture that moved to another gameweek does not hold this one back.
moved_fixture : derive_event_state gw5 two_fixtures 2000 ≡ matches_finished
unfolding derive_event_state
moved_fixture = refl

abbrev fresh_row : EligibleRow
fresh_row = record {
  entry_id = 1;
  reconciliation_status = some reconciled;
  sync_run_started_at = some 50;
  sync_run_status = some success;
}

abbrev stale_row : EligibleRow
stale_row = record {
  entry_id = 2;
  reconciliation_status = some mismatch;
  sync_run_started_at = some 30;
  sync_run_status = some success;
}

abbrev gate : List EligibleRow → GateContext
gate rows = record {
  group_active = true;
  event_state = some data_checked;
  result_status = none;
  data_checked_observed_at = some 40;
  eligible_rows = rows;
}

gate_closed :
    can_finalize (gate (fresh_row ∷ stale_row ∷ []))
    ≡ (false, stale_sync ∷ reconciliation_failed ∷ [])
unfolding can_finalize
gate_closed = refl

can_finalize_iff_example :
    ((can_finalize (gate (fresh_row ∷ []))).0 ≡ true) ↔ MayFinalize (gate (fresh_row ∷ []))
can_finalize_iff_example = can_finalize_iff (gate (fresh_row ∷ []))

abbrev five_members : List Member
five_members =
    record { entry_id = 9; is_excluded = false; joined_event = none; synced = false }
    ∷ record { entry_id = 3; is_excluded = true; joined_event = some 7; synced = true }
    ∷ record { entry_id = 4; is_excluded = false; joined_event = some 7; synced = true }
    ∷ record { entry_id = 5; is_excluded = false; joined_event = some 5; synced = true }
    ∷ record { entry_id = 6; is_excluded = false; joined_event = none; synced = true }
    ∷ []

abbrev has_six : ℕ → Bool
has_six zero = false
has_six (suc zero) = false
has_six (suc (suc zero)) = false
has_six (suc (suc (suc zero))) = false
has_six (suc (suc (suc (suc zero)))) = false
has_six (suc (suc (suc (suc (suc zero))))) = false
has_six _ = true

selection : select_eligible five_members has_six 5 ≡ record {
  eligible = 6 ∷ 9 ∷ [];
  ineligible = (3, excluded) ∷ (4, joined_later) ∷ (5, no_team) ∷ [];
}
unfolding select_eligible sort_by
selection = refl

eligible_unless_proved_example : Memᴰ 9 (select_eligible five_members has_six 5).eligible
eligible_unless_proved_example =
    eligible_unless_proved five_members has_six 5
      (record { entry_id = 9; is_excluded = false; joined_event = none; synced = false })
      (Memᴰ.head refl) refl (λ j e. cc) (inl refl)
