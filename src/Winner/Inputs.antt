-- ===== src/Winner/Inputs.antt =====
-- The inputs of `computeGwResult`, and what it reads from them before it ranks anybody.
use Prim.Native.String.{String}
use fpl_radar.Prelude.{
  ℕ, Bool, true, false, Option, none, some, List, [], ◌∷◌, map, if◌then◌else◌, ◌==◌, keep,
}
use fpl_radar.Prelude.Int.{ℤ}
use fpl_radar.Constants.{
  ReconciliationStatus, is_reconciled, PointsSemantics, EventState, WinnerRule, net_points,
  gross_points,
}
use fpl_radar.TieBreak.{TieBreakRow, Rule, number_or_zero}
use fpl_radar.Eligibility.{Member}

-- A stored gameweek row. A reconciled row carries both point values, as `reconcileSeason` made it.
pub record GwRow : Type 0 where
  pub entry_id : ℕ
  pub event : ℕ
  pub reported_gw_points : Option ℤ
  pub transfer_cost : Option ℤ
  pub gross_gw_points : Option ℤ
  pub net_gw_points : Option ℤ
  pub total_points : Option ℤ
  pub reconciliation_status : ReconciliationStatus
  pub points_semantics : PointsSemantics
  pub points_on_bench : Option ℤ
  pub active_chip : Option (Option String)
  pub overall_rank : Option ℤ

pub record Manager : Type 0 where
  pub player_name : Option String
  pub team_name : Option String

pub record ResultGroup : Type 0 where
  pub winner_rule : WinnerRule
  pub tie_break_rules : List Rule
  pub my_entry_id : Option ℕ

-- `effective_squads` has the captain's points of each squad, the one field that is read.
pub record GwInput : Type 0 where
  pub group : ResultGroup
  pub event : ℕ
  pub event_state : EventState
  pub members : List Member
  pub gw_rows : List GwRow
  pub effective_squads : List (ℕ × Option ℤ)
  pub managers : List (ℕ × Manager)

-- `new Map(entries).get(k)`: a later entry of the same key wins.
unfoldable pub map_get {ℓ} : {V : Type ℓ} → ℕ → List (ℕ × V) → Option V
map_get k [] = none
map_get k ((j, v) ∷ m) = elim (map_get k m) [
  | some w ↦ some w
  | none ↦ if j == k then some v else none
]

abbrev pub map_has {ℓ} : {V : Type ℓ} → List (ℕ × V) → ℕ → Bool
map_has m k = elim (map_get k m) [ some w ↦ true | none ↦ false ]

abbrev entry_of : GwRow → ℕ × GwRow
entry_of r = (r.entry_id, r)

unfoldable pub row_by_entry : GwInput → List (ℕ × GwRow)
row_by_entry i = map entry_of (keep (λ r. r.event == i.event) i.gw_rows)

-- `status` is `none` for NOT_SYNCED.
pub record Blocked : Type 0 where
  pub entry_id : ℕ
  pub status : Option ReconciliationStatus

abbrev pub blocks : ℕ → Option GwRow → List Blocked → List Blocked
blocks id none bs = record { entry_id = id; status = none } ∷ bs
blocks id (some r) bs =
    if is_reconciled r.reconciliation_status
    then bs
    else record { entry_id = id; status = some r.reconciliation_status } ∷ bs

unfoldable pub blocked_by : List (ℕ × GwRow) → List ℕ → List Blocked
blocked_by rows [] = []
blocked_by rows (id ∷ ids) = blocks id (map_get id rows) (blocked_by rows ids)

-- `scoreOf(row)`
abbrev pub score_of : WinnerRule → GwRow → Option ℤ
score_of gross_points r = r.gross_gw_points
score_of net_points r = r.net_gw_points

abbrev captain_of : Option (Option ℤ) → Option ℤ
captain_of none = none
captain_of (some c) = c

-- `tieRow(id)`. It is called only when every eligible row is reconciled, and a reconciled row has both
-- its scores: where a score is null, which the source would keep, the number here is not read.
unfoldable pub tie_row : GwInput → ℕ → GwRow → TieBreakRow
unfolding map_get
tie_row i id r = record {
  entry_id = id;
  score = number_or_zero (score_of i.group.winner_rule r);
  gross_gw_points = r.gross_gw_points;
  transfer_cost = r.transfer_cost;
  captain_points = captain_of (map_get id i.effective_squads);
  points_on_bench = r.points_on_bench;
  active_chip = r.active_chip;
  total_points = r.total_points;
  overall_rank = r.overall_rank;
}

abbrev add_tie_row : GwInput → ℕ → Option GwRow → List TieBreakRow → List TieBreakRow
add_tie_row i id none rs = rs
add_tie_row i id (some r) rs = tie_row i id r ∷ rs

-- `eligible.map(tieRow)`: it runs only when every eligible member has a row.
unfoldable pub tie_rows : GwInput → List (ℕ × GwRow) → List ℕ → List TieBreakRow
unfolding tie_row
tie_rows i rows [] = []
tie_rows i rows (id ∷ ids) = add_tie_row i id (map_get id rows) (tie_rows i rows ids)
