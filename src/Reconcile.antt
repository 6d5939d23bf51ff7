-- ===== src/Reconcile.antt =====
-- server/src/analytics/reconcile.js: the proof of net and gross points from the season total. With R
-- the reported points, C the transfer cost and Δ the change of the total, the hypotheses are
-- gross (Δ = R - C) and net (Δ = R).
pub mod Before
pub mod Laws
use Prim.Native.String.{String}
use fpl_radar.Prelude.{
  ℕ, zero, suc, ◌+◌, ◌≡◌, Bool, true, false, ◌&&◌, not, Option, none, some, List, [], ◌∷◌, map,
  if◌then◌else◌, ◌==◌, leb, ltb, length, keep,
}
use fpl_radar.Prelude.Int.{ℤ, pos, ◌+ℤ◌, ◌-ℤ◌, eq_ℤ, ltb_ℤ}
use fpl_radar.Prelude.Sort.{sort_by}
use fpl_radar.Constants.{
  PointsSemantics, gross_before_hits, net_after_hits, unverified, conflicted, ReconciliationStatus,
  reconciled, reconciled_no_cost, mismatch, semantics_conflict, source_disagreement, incomplete,
  EventState, is_data_checked,
}
use fpl_radar.Winner.Inputs.{map_get}

pub record HistoryRow : Type 0 where
  pub event : ℕ
  pub points : ℤ
  pub event_transfers_cost : ℤ
  pub total_points : ℤ

pub data Hypothesis : Type 0 where
  both gross net neither : Hypothesis

abbrev hypothesis_of : Bool → Bool → Hypothesis
hypothesis_of true true = both
hypothesis_of true false = gross
hypothesis_of false true = net
hypothesis_of false false = neither

pub record Evaluated : Type 0 where
  pub row : HistoryRow
  pub t_prev : Option ℤ
  pub delta : Option ℤ
  pub gross : Bool
  pub net : Bool

abbrev event_entry : HistoryRow → ℕ × HistoryRow
event_entry r = (r.event, r)

-- `byEvent.get(event - 1)`; event 0 has no predecessor.
abbrev before : ℕ → List (ℕ × HistoryRow) → Option HistoryRow
before zero m = none
before (suc e) m = map_get e m

abbrev total_of : Option HistoryRow → Option ℤ
total_of none = none
total_of (some r) = some r.total_points

abbrev delta_of : ℤ → Option ℤ → Option ℤ
delta_of t none = none
delta_of t (some p) = some (t -ℤ p)

abbrev delta_is : Option ℤ → ℤ → Bool
delta_is none n = false
delta_is (some d) n = eq_ℤ d n

-- The body of the first `map`, with the total before the row.
evaluate_from : HistoryRow → Option ℤ → Evaluated
evaluate_from r prev =
    let delta = delta_of r.total_points prev in
    record {
      row = r;
      t_prev = prev;
      delta = delta;
      gross = delta_is delta (r.points -ℤ r.event_transfers_cost);
      net = delta_is delta r.points;
    }

unfoldable pub evaluate : ℕ → List (ℕ × HistoryRow) → HistoryRow → Evaluated
unfolding evaluate_from map_get
evaluate first by_event r =
    evaluate_from r (if r.event == first then some (pos 0) else total_of (before r.event by_event))

abbrev has_hit : Evaluated → Bool
has_hit e = ltb_ℤ (pos 0) e.row.event_transfers_cost

-- `rows[0]?.event`; the value for no rows is not read.
abbrev first_event : List HistoryRow → ℕ
first_event [] = 0
first_event (r ∷ rs) = r.event

unfoldable pub evaluate_all : List HistoryRow → List Evaluated
unfolding evaluate sort_by
evaluate_all history =
    let rows = sort_by (λ a b. leb a.event b.event) history in
    map (evaluate (first_event rows) (map event_entry rows)) rows

pub record Evidence : Type 0 where
  pub gross : ℕ
  pub net : ℕ

abbrev proves_gross : Evaluated → Bool
proves_gross e = has_hit e && e.gross && not e.net

abbrev proves_net : Evaluated → Bool
proves_net e = has_hit e && e.net && not e.gross

unfoldable pub evidence_of : List Evaluated → Evidence
evidence_of es = record { gross = length (keep proves_gross es); net = length (keep proves_net es) }

abbrev is_unverified : PointsSemantics → Bool
is_unverified unverified = true
is_unverified _ = false

-- The semantics that hit rows are read by.
unfoldable pub applied_semantics : PointsSemantics → Evidence → PointsSemantics
applied_semantics season e =
    if is_unverified season
    then (if ltb 0 e.gross && ltb 0 e.net
        then conflicted
        else if ltb 0 e.gross
        then gross_before_hits
        else if ltb 0 e.net
        then net_after_hits
        else season)
    else season

pub record SeasonRow : Type 0 where
  pub entry_id : Option ℕ
  pub season : String
  pub event : ℕ
  pub reported_gw_points : ℤ
  pub transfer_cost : ℤ
  pub total_points : ℤ
  pub previous_total_points : Option ℤ
  pub points_semantics : PointsSemantics
  pub delta : Option ℤ
  pub hypothesis : Hypothesis
  pub picks_points : Option ℤ
  pub net_gw_points : Option ℤ
  pub gross_gw_points : Option ℤ
  pub reconciliation_status : ReconciliationStatus

pub record SeasonInput : Type 0 where
  pub season : String
  pub entry_id : Option ℕ
  pub history_rows : List HistoryRow
  pub picks_points : List (ℕ × Option ℤ)
  pub season_semantics : PointsSemantics
  pub event_states : List (ℕ × EventState)

-- The verdict on a row: a status with the net and gross points that it allows.
pub record Verdict : Type 0 where
  pub status : ReconciliationStatus
  pub net : Option ℤ
  pub gross : Option ℤ

abbrev unreconciled : ReconciliationStatus → Verdict
unreconciled s = record { status = s; net = none; gross = none }

abbrev reconciled_as : ReconciliationStatus → ℤ → ℤ → Verdict
reconciled_as s n g = record { status = s; net = some n; gross = some g }

-- `picksPoints.get(row.event) ?? null`
abbrev picks_value : Option (Option ℤ) → Option ℤ
picks_value none = none
picks_value (some p) = p

-- `picksPointsValue !== null && picksPointsValue !== R`
abbrev pub differs : Option ℤ → ℤ → Bool
differs none n = false
differs (some p) n = not (eq_ℤ p n)

abbrev checked_at : Option EventState → Bool
checked_at none = false
checked_at (some s) = is_data_checked s

abbrev pub is_some_ℤ : Option ℤ → Bool
is_some_ℤ none = false
is_some_ℤ (some n) = true

-- The end of the ladder, for a row with a hit. `applied` is read at the row's own evidence.
abbrev hit_verdict : PointsSemantics → Bool → Bool → ℤ → ℤ → Verdict
hit_verdict gross_before_hits true false r c = reconciled_as reconciled (r -ℤ c) r
hit_verdict net_after_hits false true r c = reconciled_as reconciled r (r +ℤ c)
hit_verdict _ true true r c = unreconciled mismatch
hit_verdict _ false false r c = unreconciled mismatch
hit_verdict _ _ _ r c = unreconciled semantics_conflict

unfoldable pub verdict_of : PointsSemantics → Option ℤ → Bool → Evaluated → Verdict
verdict_of applied picks checked e =
    if not (is_some_ℤ e.t_prev)
    then unreconciled incomplete
    else if differs picks e.row.points && checked
    then unreconciled source_disagreement
    else if eq_ℤ e.row.event_transfers_cost (pos 0)
    then (if e.net
        then reconciled_as reconciled_no_cost e.row.points e.row.points
        else unreconciled mismatch)
    else hit_verdict applied e.gross e.net e.row.points e.row.event_transfers_cost

-- The body of the second `map`.
unfoldable pub season_row : SeasonInput → PointsSemantics → Evaluated → SeasonRow
unfolding verdict_of map_get
season_row i applied e =
    let picks = picks_value (map_get e.row.event i.picks_points) in
    let v = verdict_of applied picks (checked_at (map_get e.row.event i.event_states)) e in
    record {
      entry_id = i.entry_id;
      season = i.season;
      event = e.row.event;
      reported_gw_points = e.row.points;
      transfer_cost = e.row.event_transfers_cost;
      total_points = e.row.total_points;
      previous_total_points = e.t_prev;
      points_semantics = if has_hit e then applied else i.season_semantics;
      delta = e.delta;
      hypothesis = hypothesis_of e.gross e.net;
      picks_points = picks;
      net_gw_points = v.net;
      gross_gw_points = v.gross;
      reconciliation_status = v.status;
    }

unfoldable pub reconcile_season : SeasonInput → List SeasonRow × Evidence
unfolding evaluate_all evidence_of applied_semantics season_row
reconcile_season i =
    let es = evaluate_all i.history_rows in
    let evidence = evidence_of es in
    (map (season_row i (applied_semantics i.season_semantics evidence)) es, evidence)
