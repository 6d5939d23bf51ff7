-- ===== src/Decision/Shown.antt =====
-- `getResult` of server/src/services/resultService.js: what is shown of a gameweek. The inputs that it
-- loads are an argument.
use Prim.Native.Nat.{Ordering}
use Prim.Native.String.{String}
use fpl_radar.Prelude.{ℕ, Bool, Option, none, some, List, [], ◌∷◌, ◌++◌, map, if◌then◌else◌}
use fpl_radar.Prelude.Int.{ℤ}
use fpl_radar.Constants.{EventState, is_data_checked}
use fpl_radar.TieBreak.{Rule}
use fpl_radar.EventState.{ResultStatus}
use fpl_radar.FinalizeGate.{GateReason, GateResult}
use fpl_radar.Winner.{GwInput, GwResult, PreviewStatus, Warning, compute_gw_result}
use fpl_radar.Winner.Inputs.{Blocked}
use fpl_radar.Winner.Table.{ResultRow}
use fpl_radar.Decision.Types.{Explanation, SnapshotContent, Head, DecisionLog, Loaded}
use fpl_radar.Decision.Explain.{explain_decision}
use fpl_radar.Decision.Repo.{previous_content}
use fpl_radar.Decision.Service.{finalize_gate}

-- What `getResult` shows.
pub data Shown : Type 0 where
  decided : ResultStatus → Shown
  preview : PreviewStatus → Shown

pub data ShownWarning : Type 0 where
  engine : Warning → ShownWarning
  source_state_regressed : EventState → ShownWarning

pub record ResultView : Type 0 where
  pub status : Shown
  pub event_state : EventState
  pub winners : List ℕ
  pub computed_winners : List ℕ
  pub winning_score : Option ℤ
  pub tie_break_applied : Option Rule
  pub trace : Explanation
  pub standings : List ResultRow
  pub blocked_by : List Blocked
  pub warnings : List ShownWarning
  pub gate_allowed : Bool
  pub gate_reasons : List GateReason
  pub current_snapshot_id : Option ℕ
  pub head_seq : ℕ

abbrev regressed : EventState → List ShownWarning
regressed s = if is_data_checked s then [] else source_state_regressed s ∷ []

abbrev pub decided_view : Loaded → GateResult → Head → SnapshotContent → ResultView
decided_view l gate h s = record {
  status = decided h.status;
  event_state = l.gw.event_state;
  winners = s.declared_winners;
  computed_winners = s.computed_winners;
  winning_score = s.winning_score;
  tie_break_applied = s.tie_break_applied;
  trace = s.trace;
  standings = s.standings;
  blocked_by = [];
  warnings = map engine s.warnings ++ regressed l.gw.event_state;
  gate_allowed = gate.allowed;
  gate_reasons = gate.reasons;
  current_snapshot_id = some h.pointer.current_snapshot_id;
  head_seq = h.pointer.head_seq;
}

abbrev preview_view : Loaded → GateResult → GwResult → ResultView
preview_view l gate r = record {
  status = preview r.status;
  event_state = l.gw.event_state;
  winners = r.winners;
  computed_winners = r.winners;
  winning_score = r.winning_score;
  tie_break_applied = r.tie_break_applied;
  trace = explain_decision r;
  standings = r.rows;
  blocked_by = r.blocked_by;
  warnings = map engine r.warnings;
  gate_allowed = gate.allowed;
  gate_reasons = gate.reasons;
  current_snapshot_id = none;
  head_seq = 0;
}

module _ (locale_compare : String → String → Ordering) (inputs_hash : GwInput → String) where
  -- `none` where reading a field of a snapshot that is not there throws.
  unfoldable pub get_result : Loaded → DecisionLog → Option ResultView
  unfolding finalize_gate
  get_result l log =
      let gate = finalize_gate locale_compare inputs_hash l none log.head in
      elim log.head [
        | none ↦ some (preview_view l gate (compute_gw_result locale_compare l.gw))
        | some h ↦ elim (previous_content log (some h)) [
          | none ↦ none
          | some s ↦ some (decided_view l gate h s)
        ]
      ]
