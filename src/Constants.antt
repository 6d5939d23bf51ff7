-- ===== src/Constants.antt =====
-- server/src/analytics/constants.js: the shared enums of the analytics layer.
use fpl_radar.Prelude.{Bool, true, false}

pub data PointsSemantics : Type 0 where
  gross_before_hits net_after_hits unverified conflicted : PointsSemantics

pub data ReconciliationStatus : Type 0 where
  reconciled reconciled_no_cost mismatch semantics_conflict : ReconciliationStatus
  source_disagreement incomplete : ReconciliationStatus

-- `RECONCILED_STATUSES.includes(status)`
abbrev pub is_reconciled : ReconciliationStatus → Bool
is_reconciled reconciled = true
is_reconciled reconciled_no_cost = true
is_reconciled _ = false

pub data EventState : Type 0 where
  upcoming live matches_finished fpl_processing data_checked : EventState

abbrev pub is_data_checked : EventState → Bool
is_data_checked data_checked = true
is_data_checked _ = false

pub data WinnerRule : Type 0 where
  net_points gross_points : WinnerRule
