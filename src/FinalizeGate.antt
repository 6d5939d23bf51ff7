-- ===== src/FinalizeGate.antt =====
-- server/src/services/resultModel.js, `evaluateFinalizeGate`: the gate of a finalization on the inputs
-- that the result service has loaded. Ids of runs are numbers.
pub mod Laws
use fpl_radar.Prelude.{
  ℕ, Bool, true, false, ◌&&◌, not, Option, none, some, List, [], ◌∷◌, ◌++◌, map, if◌then◌else◌,
  ◌==◌, any, keep, length,
}
use fpl_radar.Prelude.Int.{ℤ, pos, ltb_ℤ}
use fpl_radar.Constants.{
  PointsSemantics, gross_before_hits, net_after_hits, unverified, conflicted, ReconciliationStatus,
  is_reconciled, EventState,
}
use fpl_radar.Eligibility.{Member, IneligibleReason, select_eligible}
use fpl_radar.EventState.{
  FinalizeBlockReason, ResultStatus, SyncRunStatus, EligibleRow, GateContext, row_reconciled,
  finalize_reasons, can_finalize,
}
use fpl_radar.Winner.Inputs.{GwRow, map_get, map_has}

pub record Freshness : Type 0 where
  pub entry_id : ℕ
  pub sync_run_id : Option ℕ
  pub sync_run_started_at : Option ℕ
  pub sync_run_status : Option SyncRunStatus

-- The part of the loaded inputs that the gate reads.
pub record GateInputs : Type 0 where
  pub event : ℕ
  pub event_state : Option EventState
  pub members : List Member
  pub gw_rows : List GwRow
  pub freshness : List Freshness
  pub group_active : Bool
  pub data_checked_observed_at : Option ℕ

pub record GateRequest : Type 0 where
  pub result_status : Option ResultStatus
  pub finalize_run_id : Option ℕ
  pub season_semantics : PointsSemantics

pub data GateReason : Type 0 where
  gate : FinalizeBlockReason → GateReason
  semantics_conflicted semantics_unverified semantics_mismatch : GateReason

pub record GateResult : Type 0 where
  pub allowed : Bool
  pub reasons : List GateReason
  pub eligible : List ℕ
  pub ineligible : List (ℕ × IneligibleReason)
  pub not_confirmed : List ℕ
  pub unreconciled : List (ℕ × Option ReconciliationStatus)

abbrev row_entry : GwRow → ℕ × GwRow
row_entry r = (r.entry_id, r)

abbrev pub gate_rows : GateInputs → List (ℕ × GwRow)
gate_rows i = map row_entry i.gw_rows

abbrev fresh_entry : Freshness → ℕ × Freshness
fresh_entry f = (f.entry_id, f)

abbrev pub fresh_map : GateInputs → List (ℕ × Freshness)
fresh_map i = map fresh_entry i.freshness

unfoldable pub gate_eligible : GateInputs → List ℕ
gate_eligible i = (select_eligible i.members (map_has (gate_rows i)) i.event).eligible

-- `freshness.get(entryId) ?? { ...nulls }`
abbrev pub freshness_of : ℕ → Option Freshness → Freshness
freshness_of id none = record {
  entry_id = id;
  sync_run_id = none;
  sync_run_started_at = none;
  sync_run_status = none;
}
freshness_of id (some f) = f

-- `!finalizeRunId || f.syncRunId === finalizeRunId`
abbrev pub is_confirmed : Option ℕ → Option ℕ → Bool
is_confirmed none id = true
is_confirmed (some run) none = false
is_confirmed (some run) (some id) = id == run

abbrev pub status_of : Option GwRow → Option ReconciliationStatus
status_of none = none
status_of (some r) = some r.reconciliation_status

abbrev pub confirmed_at : GateInputs → GateRequest → ℕ → Bool
confirmed_at i q id =
    is_confirmed q.finalize_run_id (freshness_of id (map_get id (fresh_map i))).sync_run_id

unfoldable pub eligible_row : GateInputs → GateRequest → ℕ → EligibleRow
eligible_row i q id =
    let f = freshness_of id (map_get id (fresh_map i)) in
    record {
      entry_id = id;
      reconciliation_status = status_of (map_get id (gate_rows i));
      sync_run_started_at = if confirmed_at i q id then f.sync_run_started_at else none;
      sync_run_status = if confirmed_at i q id then f.sync_run_status else none;
    }

unfoldable pub gate_context : GateInputs → GateRequest → GateContext
unfolding gate_eligible eligible_row
gate_context i q = record {
  group_active = i.group_active;
  event_state = i.event_state;
  result_status = q.result_status;
  data_checked_observed_at = i.data_checked_observed_at;
  eligible_rows = map (eligible_row i q) (gate_eligible i);
}

-- `r && r.transferCost > 0 && isReconciled(r.reconciliationStatus)`
abbrev pub has_cost : Option ℤ → Bool
has_cost none = false
has_cost (some c) = ltb_ℤ (pos 0) c

abbrev pub is_hit_row : GwRow → Bool
is_hit_row r = has_cost r.transfer_cost && is_reconciled r.reconciliation_status

abbrev pub add_hit : Option GwRow → List GwRow → List GwRow
add_hit none rows = rows
add_hit (some r) rows = if is_hit_row r then r ∷ rows else rows

unfoldable pub hit_rows : List (ℕ × GwRow) → List ℕ → List GwRow
hit_rows rows [] = []
hit_rows rows (id ∷ ids) = add_hit (map_get id rows) (hit_rows rows ids)

abbrev semantics_index : PointsSemantics → ℕ
semantics_index gross_before_hits = 0
semantics_index net_after_hits = 1
semantics_index unverified = 2
semantics_index conflicted = 3

abbrev pub same_semantics : PointsSemantics → PointsSemantics → Bool
same_semantics a b = semantics_index a == semantics_index b

unfoldable pub semantics_reasons : PointsSemantics → List GwRow → List GateReason
semantics_reasons season [] = []
semantics_reasons conflicted (r ∷ rs) = semantics_conflicted ∷ []
semantics_reasons unverified (r ∷ rs) = semantics_unverified ∷ []
semantics_reasons season (r ∷ rs) =
    if any (λ x. not (same_semantics x.points_semantics season)) (r ∷ rs)
    then semantics_mismatch ∷ []
    else []

abbrev pub no_gate_reasons : List GateReason → Bool
no_gate_reasons [] = true
no_gate_reasons (r ∷ rs) = false

abbrev status_entry : EligibleRow → ℕ × Option ReconciliationStatus
status_entry r = (r.entry_id, r.reconciliation_status)

unfoldable pub evaluate_finalize_gate : GateInputs → GateRequest → GateResult
unfolding gate_context can_finalize hit_rows semantics_reasons
evaluate_finalize_gate i q =
    let c = gate_context i q in
    let reasons =
      map gate (can_finalize c).1
      ++ semantics_reasons q.season_semantics (hit_rows (gate_rows i) (gate_eligible i)) in
    record {
      allowed = no_gate_reasons reasons;
      reasons = reasons;
      eligible = gate_eligible i;
      ineligible = (select_eligible i.members (map_has (gate_rows i)) i.event).ineligible;
      not_confirmed = keep (λ id. not (confirmed_at i q id)) (gate_eligible i);
      unreconciled =
          map status_entry
            (keep (λ r. not (row_reconciled r.reconciliation_status)) c.eligible_rows);
    }
