-- ===== src/Tests/Points.antt =====
-- Runs of the reconciliation of points (server/src/analytics/reconcile.js).
use fpl_radar.Prelude.{ℕ, ◌<◌, ◌≡◌, refl, ◌⊎◌, none, some, List, [], ◌∷◌, Memᴰ, arith}
use fpl_radar.Prelude.Int.{ℤ, pos, ◌+ℤ◌, ◌-ℤ◌, eq_ℤ}
use fpl_radar.Prelude.Sort.{sort_by}
use fpl_radar.Constants.{
  gross_before_hits, net_after_hits, unverified, conflicted, reconciled, semantics_conflict,
  data_checked,
}
use fpl_radar.Reconcile.{HistoryRow, SeasonInput, SeasonRow, gross, net, reconcile_season}
use fpl_radar.Reconcile.Before.{IsBefore}
use fpl_radar.Reconcile.Laws.{reconciled_points, reconciled_hit_semantics}

abbrev history : ℕ → ℕ → ℕ → ℕ → HistoryRow
history event points cost total = record {
  event = event;
  points = pos points;
  event_transfers_cost = pos cost;
  total_points = pos total;
}

abbrev season : List HistoryRow → SeasonInput
season rows = record {
  season = "2026-27";
  entry_id = some 3;
  history_rows = rows;
  picks_points = (2, some (pos 50)) ∷ [];
  season_semantics = unverified;
  event_states = (2, data_checked) ∷ [];
}

-- The rows arrive out of order; gameweek 2 proves that points are gross.
abbrev gross_season : SeasonInput
gross_season = season (history 2 50 4 106 ∷ history 1 60 0 60 ∷ [])

abbrev hit_row : SeasonRow
hit_row = record {
  entry_id = some 3;
  season = "2026-27";
  event = 2;
  reported_gw_points = pos 50;
  transfer_cost = pos 4;
  total_points = pos 106;
  previous_total_points = some (pos 60);
  points_semantics = gross_before_hits;
  delta = some (pos 46);
  hypothesis = gross;
  picks_points = some (pos 50);
  net_gw_points = some (pos 46);
  gross_gw_points = some (pos 50);
  reconciliation_status = reconciled;
}

hit_row_made : Memᴰ hit_row (reconcile_season gross_season).0
unfolding reconcile_season sort_by eq_ℤ ◌-ℤ◌
hit_row_made = Memᴰ.tail (Memᴰ.head refl)

reconciled_points_example :
    (n : ℤ) × (g : ℤ) × (p : ℤ) × (some (pos 46) ≡ some n)
    × (some (pos 50) ≡ some g)
    × (some (pos 60) ≡ some p)
    × IsBefore gross_season.history_rows 2 p
    × (n ≡ pos 106 -ℤ p)
    × (g ≡ n +ℤ pos 4)
reconciled_points_example = reconciled_points gross_season hit_row hit_row_made refl

reconciled_hit_semantics_example :
    ((gross_before_hits ≡ gross_before_hits)
      × ((unverified ≡ gross_before_hits)
          ⊎ ((unverified ≡ unverified) × ((reconcile_season gross_season).1.net ≡ 0))))
    ⊎ ((gross_before_hits ≡ net_after_hits)
        × ((unverified ≡ net_after_hits)
            ⊎ ((unverified ≡ unverified) × ((reconcile_season gross_season).1.gross ≡ 0))))
reconciled_hit_semantics_example =
    reconciled_hit_semantics gross_season hit_row hit_row_made refl refl

-- Gameweek 2 proves gross points, gameweek 3 net ones.
abbrev torn_season : SeasonInput
torn_season = season (history 1 60 0 60 ∷ history 2 50 4 106 ∷ history 3 40 4 146 ∷ [])

abbrev torn_row : SeasonRow
torn_row = record {
  entry_id = some 3;
  season = "2026-27";
  event = 3;
  reported_gw_points = pos 40;
  transfer_cost = pos 4;
  total_points = pos 146;
  previous_total_points = some (pos 106);
  points_semantics = conflicted;
  delta = some (pos 40);
  hypothesis = net;
  picks_points = none;
  net_gw_points = none;
  gross_gw_points = none;
  reconciliation_status = semantics_conflict;
}

torn_row_made : Memᴰ torn_row (reconcile_season torn_season).0
unfolding reconcile_season sort_by eq_ℤ ◌-ℤ◌
torn_row_made = Memᴰ.tail (Memᴰ.tail (Memᴰ.head refl))

gross_proof : 0 < (reconcile_season torn_season).1.gross
unfolding reconcile_season sort_by eq_ℤ ◌-ℤ◌
gross_proof = omega arith

net_proof : 0 < (reconcile_season torn_season).1.net
unfolding reconcile_season sort_by eq_ℤ ◌-ℤ◌
net_proof = omega arith
