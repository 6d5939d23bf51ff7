-- ===== src/Tests/Results.antt =====
-- Runs of the ranking and of the gameweek result (server/src/analytics/ranking.js, tieBreakers.js
-- and winner.js).
use mathlib.Core.List.{Perm}
use Prim.Native.Nat.{Ordering, compare}
use Prim.Native.String.{String, len}
use fpl_radar.Prelude.{
  ℕ, ◌<◌, ◌≡◌, refl, ap, ◌≢◌, ◌↔◌, true, false, Option, none, some, List, [], ◌∷◌, map, Memᴰ,
  length, arith,
}
use fpl_radar.Prelude.Int.{ℤ, pos, eq_ℤ, negate, ◌≤ℤ◌}
use fpl_radar.Constants.{
  data_checked, reconciled_no_cost, mismatch, is_reconciled, gross_before_hits, net_points,
}
use fpl_radar.TieBreak.{
  TieBreakRow, shared, has_data, rule_number, tie_break_value, tie_breakers, fewer_transfer_cost,
  default_tie_break_rules,
}
use fpl_radar.TieBreak.Laws.{tie_breakers_best}
use fpl_radar.Ranking.{rank_of, resolve_positions}
use fpl_radar.Ranking.Order.{CountsFrom, resolve_positions_complete}
use fpl_radar.Eligibility.{Member}
use fpl_radar.Winner.{
  GwInput, GwRow, provisional, blocked, eligible_of, scored_of, compute_gw_result,
}
use fpl_radar.Prelude.Sort.{sort_by}
use fpl_radar.Winner.Inputs.{row_by_entry, map_get}
use fpl_radar.Winner.Laws.Result.{blocked_iff, winners_top}
use fpl_radar.Winner.Table.{ResultRow}
use fpl_radar.Winner.Laws.Leader.{AllDistinct, first_is_winner}

abbrev tied : ℕ → ℤ → Option ℤ → ℤ → TieBreakRow
tied id score cost total = record {
  entry_id = id;
  score = score;
  gross_gw_points = some score;
  transfer_cost = cost;
  captain_points = none;
  points_on_bench = none;
  active_chip = some none;
  total_points = some total;
  overall_rank = none;
}

abbrev three_rows : List TieBreakRow
three_rows =
    tied 7 (pos 60) (some (pos 4)) (pos 300)
    ∷ tied 3 (pos 70) (some (pos 0)) (pos 310)
    ∷ tied 5 (pos 70) (some (pos 4)) (pos 320)
    ∷ []

positions_run :
    map {B = ℕ × ℕ}
      (λ p. (p.entry_id, p.resolved_position))
      (resolve_positions three_rows default_tie_break_rules)
    ≡ (3, 1) ∷ (5, 2) ∷ (7, 3) ∷ []
unfolding resolve_positions rank_of tie_breakers has_data rule_number tie_break_value eq_ℤ negate
positions_run = refl

tie_breakers_best_example :
    Memᴰ (tied 3 (pos 70) (some (pos 0)) (pos 310)) (tie_breakers fewer_transfer_cost three_rows)
    ↔ (Memᴰ (tied 3 (pos 70) (some (pos 0)) (pos 310)) three_rows
        × ((d : TieBreakRow)
            → Memᴰ d three_rows
            → rule_number fewer_transfer_cost d
              ≤ℤ rule_number fewer_transfer_cost (tied 3 (pos 70) (some (pos 0)) (pos 310))))
unfolding has_data tie_break_value
tie_breakers_best_example =
    tie_breakers_best fewer_transfer_cost (tied 3 (pos 70) (some (pos 0)) (pos 310)) three_rows refl

resolve_positions_complete_example :
    Perm
      (map (λ p. p.entry_id) (resolve_positions three_rows default_tie_break_rules))
      (map (λ r. r.entry_id) three_rows)
    × CountsFrom 0 (resolve_positions three_rows default_tie_break_rules)
resolve_positions_complete_example = resolve_positions_complete three_rows default_tie_break_rules

abbrev pub played : ℕ → ℤ → ℤ → ℤ → GwRow
played id gross cost total = record {
  entry_id = id;
  event = 5;
  reported_gw_points = some gross;
  transfer_cost = some cost;
  gross_gw_points = some gross;
  net_gw_points = some gross;
  total_points = some total;
  reconciliation_status = reconciled_no_cost;
  points_semantics = gross_before_hits;
  points_on_bench = none;
  active_chip = some none;
  overall_rank = none;
}

abbrev unread : ℕ → GwRow
unread id = record (played id (pos 0) (pos 0) (pos 0)) { reconciliation_status = mismatch }

abbrev pub member : ℕ → Member
member id = record { entry_id = id; is_excluded = false; joined_event = none; synced = true }

abbrev week : List GwRow → GwInput
week rows = record {
  group = record {
    winner_rule = net_points;
    tie_break_rules = default_tie_break_rules;
    my_entry_id = some 3;
  };
  event = 5;
  event_state = data_checked;
  members = member 7 ∷ member 3 ∷ member 5 ∷ [];
  gw_rows = rows;
  effective_squads = [];
  managers = [];
}

abbrev decided_week : GwInput
decided_week = week (
    played 7 (pos 60) (pos 0) (pos 300)
    ∷ played 3 (pos 70) (pos 0) (pos 320)
    ∷ played 5 (pos 70) (pos 0) (pos 320)
    ∷ [])

abbrev blocked_week : GwInput
blocked_week = week (played 7 (pos 60) (pos 0) (pos 300) ∷ unread 3 ∷ [])

-- The texts of the tests are told apart by their lengths.
abbrev by_length : String → String → Ordering
by_length a b = compare (len a) (len b)

shared_win : (compute_gw_result by_length decided_week).winners ≡ 3 ∷ 5 ∷ []
unfolding compute_gw_result rank_of tie_breakers has_data rule_number tie_break_value eq_ℤ negate
shared_win = refl

decided_status : (compute_gw_result by_length decided_week).status ≡ provisional
unfolding compute_gw_result rank_of tie_breakers has_data rule_number tie_break_value eq_ℤ negate
decided_status = refl

nobody_wins : (compute_gw_result by_length blocked_week).winners ≡ []
unfolding compute_gw_result rank_of tie_breakers has_data rule_number tie_break_value eq_ℤ negate
nobody_wins = refl

some_eligible : eligible_of decided_week ≢ []
unfolding eligible_of sort_by map_get
some_eligible e = absurd (omega (arith, ap length e))

blocked_iff_example :
    (((compute_gw_result by_length blocked_week).status ≡ provisional) ↔ (
      (id : ℕ)
      → Memᴰ id (eligible_of blocked_week)
      → (r : GwRow) × (map_get id (row_by_entry blocked_week) ≡ some r)
        × (is_reconciled r.reconciliation_status ≡ true)))
    × ((compute_gw_result by_length blocked_week).status ≡ blocked
        → ((compute_gw_result by_length blocked_week).winners ≡ [])
          × ((compute_gw_result by_length blocked_week).winning_score ≡ none)
          × ((compute_gw_result by_length blocked_week).tie_break_applied ≡ none))
blocked_iff_example = blocked_iff by_length blocked_week

winners_top_example :
    (map (λ c. c.entry_id) (scored_of decided_week) ≡ eligible_of decided_week)
    × ((w : ℕ) × Memᴰ w (compute_gw_result by_length decided_week).winners)
    × ((w : ℕ)
        → Memᴰ w (compute_gw_result by_length decided_week).winners
        → (c : TieBreakRow) × Memᴰ c (scored_of decided_week)
          × (c.entry_id ≡ w)
          × ((r : TieBreakRow) → Memᴰ r (scored_of decided_week) → r.score ≤ℤ c.score)
          × ((compute_gw_result by_length decided_week).winning_score ≡ some c.score))
    × (((compute_gw_result by_length decided_week).tie_break_applied ≡ some shared)
        ↔ (1 < length (compute_gw_result by_length decided_week).winners))
winners_top_example = winners_top by_length decided_week decided_status some_eligible

no_twins : AllDistinct (map (λ m. m.entry_id) decided_week.members)
no_twins = ((ground arith, (ground arith, tt)), ((ground arith, tt), (tt, tt)))

first_is_winner_example :
    (r : ResultRow) × (rest : List ResultRow) × ((compute_gw_result by_length decided_week).rows
      ≡ r ∷ rest)
    × Memᴰ r.entry_id (compute_gw_result by_length decided_week).winners
    × (r.is_winner ≡ true)
    × (r.resolved_position ≡ some 1)
first_is_winner_example =
    first_is_winner by_length decided_week no_twins decided_status some_eligible
