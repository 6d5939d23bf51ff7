-- ===== src/Decision/Types.antt =====
-- What is stored of a decision (server/src/repositories/mappers/result.js).
use Prim.Native.String.{String}
use fpl_radar.Prelude.{ℕ, Bool, Option, List}
use fpl_radar.Prelude.Int.{ℤ}
use fpl_radar.Constants.{EventState, PointsSemantics, WinnerRule}
use fpl_radar.TieBreak.{Rule}
use fpl_radar.Eligibility.{IneligibleReason}
use fpl_radar.EventState.{ResultStatus}
use fpl_radar.HashChain.{Action, Snapshot, Pointer, Verification}
use fpl_radar.FinalizeGate.{Freshness, GateReason}
use fpl_radar.Winner.{GwInput, PreviewStatus, Warning}
use fpl_radar.Winner.Inputs.{Blocked}
use fpl_radar.Winner.Decide.{Step}
use fpl_radar.Winner.Table.{ResultRow}

pub data SnapshotKind : Type 0 where
  rule_based by_override : SnapshotKind

pub data WinnerOutcome : Type 0 where
  no_winner single_winner shared_win : WinnerOutcome

-- The decision trace that `explainDecision` builds.
pub record Explanation : Type 0 where
  pub status : PreviewStatus
  pub eligible : List ℕ
  pub ineligible : List (ℕ × IneligibleReason)
  pub blocked_by : List Blocked
  pub winning_score : Option ℤ
  pub top_score_tied : List ℕ
  pub steps : List Step
  pub decided_by : Option Rule
  pub outcome : WinnerOutcome
  pub winners : List ℕ

-- A snapshot without its id and hash. The group, the season, the engine's version and the sources are
-- not modelled.
pub record SnapshotContent : Type 0 where
  pub kind : SnapshotKind
  pub winner_rule : WinnerRule
  pub tie_break_rules : List Rule
  pub computed_winners : List ℕ
  pub declared_winners : List ℕ
  pub winning_score : Option ℤ
  pub tie_break_applied : Option Rule
  pub trace : Explanation
  pub standings : List ResultRow
  pub inputs : GwInput
  pub inputs_hash : String
  pub event_state : EventState
  pub warnings : List Warning
  pub computed_at : ℕ

pub data DecisionKind : Type 0 where
  finalizing overriding recomputing : DecisionKind

-- The fields of an action that the chain does not read. A status of `none` is PROVISIONAL.
pub record ActionFields : Type 0 where
  pub kind : DecisionKind
  pub prev_status : Option ResultStatus
  pub new_status : ResultStatus
  pub prev_winners : List ℕ
  pub new_winners : List ℕ
  pub prev_snapshot_id : Option ℕ
  pub note : Option String
  pub sync_run_id : Option ℕ
  pub created_at : ℕ

-- The document of `gwResults`.
pub record Head : Type 0 where
  pub pointer : Pointer
  pub status : ResultStatus

-- The three collections.
pub record DecisionLog : Type 0 where
  pub head : Option Head
  pub actions : List (Action ActionFields)
  pub snapshots : List (ℕ × Snapshot SnapshotContent)

-- What `loadResultInputs` gives, for a gameweek whose event document is there, with the season's
-- semantics.
pub record Loaded : Type 0 where
  pub gw : GwInput
  pub freshness : List Freshness
  pub group_active : Bool
  pub data_checked_observed_at : Option ℕ
  pub season_semantics : PointsSemantics

pub data BlockReason : Type 0 where
  sync_not_success result_blocked : BlockReason
  by_gate : GateReason → BlockReason

pub data RecomputeReason : Type 0 where
  group_archived_now not_data_checked_now reconciliation_failed_now : RecomputeReason

-- What is thrown.
pub data Refusal : Type 0 where
  group_not_found group_archived_error lock_lost concurrent_decision duplicate_snapshot : Refusal
  bad_head not_final note_required override_not_allowed duplicate_winners : Refusal
  chain_invalid : Verification → Refusal
  finalize_blocked : List BlockReason → Refusal
  winners_not_members : List ℕ → Refusal
  recompute_blocked : List RecomputeReason → Refusal
