-- ===== src/EventState.antt =====
-- server/src/analytics/eventState.js: the state of a gameweek, and the finalization gate. A `Date`
-- is its epoch milliseconds, and `now` is an argument as in the source.
pub mod Laws
use fpl_radar.Prelude.{
  ℕ, Bool, true, false, ◌&&◌, ◌||◌, not, Option, none, some, List, [], ◌∷◌, ◌++◌, if◌then◌else◌,
  leb, ltb, ◌==◌, length, keep, every, any,
}
use fpl_radar.Constants.{
  EventState, upcoming, live, matches_finished, fpl_processing, data_checked, is_data_checked,
  ReconciliationStatus, is_reconciled,
}

pub record Event : Type 0 where
  pub id : ℕ
  pub deadline_time : ℕ
  pub finished : Bool
  pub data_checked : Bool

-- `event` is `none` for an unscheduled fixture.
pub record Fixture : Type 0 where
  pub event : Option ℕ
  pub finished : Bool
  pub finished_provisional : Bool

abbrev pub is_in : ℕ → Option ℕ → Bool
is_in gw none = false
is_in gw (some e) = e == gw

abbrev fixture_done : Fixture → Bool
fixture_done f = f.finished_provisional || f.finished

-- `Array.isArray(fixtures) ? fixtures.filter(...) : []`
abbrev gw_fixtures : ℕ → Option (List Fixture) → List Fixture
gw_fixtures gw none = []
gw_fixtures gw (some fs) = keep (λ f. is_in gw f.event) fs

abbrev is_nonempty : List Fixture → Bool
is_nonempty [] = false
is_nonempty (f ∷ fs) = true

unfoldable pub derive_event_state : Event → Option (List Fixture) → ℕ → EventState
derive_event_state e fixtures now =
    let played = gw_fixtures e.id fixtures in
    if e.data_checked
    then EventState.data_checked
    else if e.finished
    then fpl_processing
    else if is_nonempty played && every fixture_done played
    then matches_finished
    else if leb e.deadline_time now
    then live
    else upcoming

pub data FinalizeBlockReason : Type 0 where
  group_archived not_data_checked already_final stale_sync : FinalizeBlockReason
  reconciliation_failed no_eligible_managers : FinalizeBlockReason

-- `gwResults.status`; `null` before the first decision.
pub data ResultStatus : Type 0 where
  final overridden : ResultStatus

pub data SyncRunStatus : Type 0 where
  running success partial failed abandoned : SyncRunStatus

abbrev pub is_success : Option SyncRunStatus → Bool
is_success (some success) = true
is_success _ = false

pub record EligibleRow : Type 0 where
  pub entry_id : ℕ
  pub reconciliation_status : Option ReconciliationStatus
  pub sync_run_started_at : Option ℕ
  pub sync_run_status : Option SyncRunStatus

pub record GateContext : Type 0 where
  pub group_active : Bool
  pub event_state : Option EventState
  pub result_status : Option ResultStatus
  pub data_checked_observed_at : Option ℕ
  pub eligible_rows : List EligibleRow

abbrev pub starts_after : Option ℕ → Option ℕ → Bool
starts_after none started = false
starts_after (some observed) none = false
starts_after (some observed) (some started) = ltb observed started

-- One row of the `stale` test.
abbrev pub is_stale : Option ℕ → EligibleRow → Bool
is_stale observed r =
    not (is_success r.sync_run_status) || not (starts_after observed r.sync_run_started_at)

abbrev pub row_reconciled : Option ReconciliationStatus → Bool
row_reconciled none = false
row_reconciled (some s) = is_reconciled s

abbrev pub state_checked : Option EventState → Bool
state_checked none = false
state_checked (some s) = is_data_checked s

abbrev pub is_decided : Option ResultStatus → Bool
is_decided none = false
is_decided (some s) = true

abbrev reason_if : Bool → FinalizeBlockReason → List FinalizeBlockReason
reason_if true r = r ∷ []
reason_if false r = []

-- The reasons in the order in which the source pushes them.
unfoldable pub finalize_reasons : GateContext → List FinalizeBlockReason
finalize_reasons c =
    reason_if (not c.group_active) group_archived
    ++ reason_if (not (state_checked c.event_state)) not_data_checked
    ++ reason_if (is_decided c.result_status) already_final
    ++ reason_if (any (is_stale c.data_checked_observed_at) c.eligible_rows) stale_sync
    ++ reason_if (any (λ r. not (row_reconciled r.reconciliation_status)) c.eligible_rows)
        reconciliation_failed
    ++ reason_if (length c.eligible_rows == 0) no_eligible_managers

abbrev pub no_reasons : List FinalizeBlockReason → Bool
no_reasons [] = true
no_reasons (r ∷ rs) = false

unfoldable pub can_finalize : GateContext → Bool × List FinalizeBlockReason
unfolding finalize_reasons
can_finalize c = (no_reasons (finalize_reasons c), finalize_reasons c)
