-- ===== src/Tests/Gate.antt =====
-- Runs of the gate of a finalization (server/src/services/resultModel.js).
use fpl_radar.Prelude.{ℕ, ◌≡◌, refl, ◌≢◌, true, false, none, some, [], ◌∷◌, Memᴰ}
use fpl_radar.Prelude.Int.{pos}
use fpl_radar.Prelude.Sort.{sort_by}
use fpl_radar.Constants.{gross_before_hits, net_after_hits, reconciled, data_checked}
use fpl_radar.EventState.{success, stale_sync}
use fpl_radar.Eligibility.{select_eligible}
use fpl_radar.Winner.Inputs.{GwRow, map_get}
use fpl_radar.FinalizeGate.{
  Freshness, GateInputs, GateRequest, gate, semantics_mismatch, gate_eligible,
  evaluate_finalize_gate,
}
use fpl_radar.FinalizeGate.Laws.{IsSettled, evaluate_finalize_gate_lem}

abbrev hit : ℕ → GwRow
hit id = record {
  entry_id = id;
  event = 5;
  reported_gw_points = some (pos 60);
  transfer_cost = some (pos 4);
  gross_gw_points = some (pos 60);
  net_gw_points = some (pos 56);
  total_points = some (pos 300);
  reconciliation_status = reconciled;
  points_semantics = gross_before_hits;
  points_on_bench = none;
  active_chip = none;
  overall_rank = none;
}

abbrev pub confirmed_by : ℕ → ℕ → Freshness
confirmed_by run id = record {
  entry_id = id;
  sync_run_id = some run;
  sync_run_started_at = some 500;
  sync_run_status = some success;
}

abbrev inputs : GateInputs
inputs = record {
  event = 5;
  event_state = some data_checked;
  members =
      record { entry_id = 7; is_excluded = false; joined_event = none; synced = true }
      ∷ record { entry_id = 3; is_excluded = false; joined_event = none; synced = true }
      ∷ [];
  gw_rows = hit 3 ∷ hit 7 ∷ [];
  freshness = confirmed_by 12 3 ∷ confirmed_by 12 7 ∷ [];
  group_active = true;
  data_checked_observed_at = some 400;
}

abbrev by_run : GateRequest
by_run = record {
  result_status = none;
  finalize_run_id = some 12;
  season_semantics = gross_before_hits;
}

open_gate : (evaluate_finalize_gate inputs by_run).allowed ≡ true
unfolding evaluate_finalize_gate select_eligible sort_by map_get
open_gate = refl

-- Another run, and a season that was found to be net meanwhile.
shut_gate :
    (evaluate_finalize_gate inputs
      (record by_run { finalize_run_id = some 13; season_semantics = net_after_hits })).reasons
    ≡ gate stale_sync ∷ semantics_mismatch ∷ []
unfolding evaluate_finalize_gate select_eligible sort_by map_get
shut_gate = refl

evaluate_finalize_gate_lem_example :
    (true ≡ true)
    × (some data_checked ≡ some data_checked)
    × (by_run.result_status ≡ none)
    × (gate_eligible inputs ≢ [])
    × (observed : ℕ) × (inputs.data_checked_observed_at ≡ some observed)
    × ((id : ℕ) → Memᴰ id (gate_eligible inputs) → IsSettled inputs by_run observed id)
evaluate_finalize_gate_lem_example = evaluate_finalize_gate_lem inputs by_run open_gate
