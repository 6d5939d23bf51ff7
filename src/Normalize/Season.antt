-- ===== src/Normalize/Season.antt =====
-- A manager's rows of a season (server/src/sync/normalize.js, `buildSeasonRows`).
use Prim.Native.String.{String}
use fpl_radar.Prelude.{
  ℕ, Bool, true, false, ◌&&◌, not, Option, none, some, List, [], ◌∷◌, ◌++◌, map, if◌then◌else◌,
  ◌==◌,
}
use fpl_radar.Prelude.Int.{ℤ, pos, eq_ℤ, ltb_ℤ}
use fpl_radar.Constants.{PointsSemantics, EventState}
use fpl_radar.EffectiveSquad.{Pick, AutoSub, Chip}
use fpl_radar.Reconcile.{
  HistoryRow, Hypothesis, gross, net, both, neither, SeasonRow, SeasonInput, reconcile_season,
}
use fpl_radar.Winner.Inputs.{map_get}
use fpl_radar.Normalize.Live.{SyncedPicks}

-- A row of `history.current`.
pub record FplHistory : Type 0 where
  pub row : HistoryRow
  pub event_transfers : ℕ
  pub points_on_bench : ℤ
  pub overall_rank : Option ℕ
  pub bank : ℕ
  pub value : ℕ

-- A stored row of a gameweek. `facts` is the row of the history that it came from, and `picks_hash` the
-- hash of the request of its picks.
pub record SyncedGw : Type 0 where
  pub event : ℕ
  pub points : SeasonRow
  pub facts : Option FplHistory
  pub active_chip : Option Chip
  pub has_picks : Bool
  pub picks : List Pick
  pub auto_subs : List AutoSub
  pub picks_hash : Option String

pub record SeasonBuild : Type 0 where
  pub season : String
  pub entry_id : ℕ
  pub event : ℕ
  pub history : List FplHistory
  pub chips : List (ℕ × Chip)
  pub picks : Option SyncedPicks
  pub season_semantics : PointsSemantics
  pub event_states : List (ℕ × EventState)
  pub existing_rows : List SyncedGw
  pub picks_request : Option String

abbrev carries_points : Option ℤ → Bool
carries_points none = false
carries_points (some p) = true

-- The loop over the stored rows, with the points of the picks of other gameweeks.
unfoldable stored_picks_points : ℕ → List SyncedGw → List (ℕ × Option ℤ)
stored_picks_points event [] = []
stored_picks_points event (r ∷ rs) =
    let rest = stored_picks_points event rs in
    if carries_points r.points.picks_points && not (r.event == event)
    then (r.event, r.points.picks_points) ∷ rest
    else rest

abbrev new_picks_points : ℕ → Option SyncedPicks → List (ℕ × Option ℤ)
new_picks_points event none = []
new_picks_points event (some p) = (event, some p.picks_points) ∷ []

unfoldable pub season_input : SeasonBuild → SeasonInput
unfolding stored_picks_points
season_input b = record {
  season = b.season;
  entry_id = some b.entry_id;
  history_rows = map (λ h. h.row) b.history;
  picks_points = stored_picks_points b.event b.existing_rows ++ new_picks_points b.event b.picks;
  season_semantics = b.season_semantics;
  event_states = b.event_states;
}

abbrev history_entry : FplHistory → ℕ × FplHistory
history_entry h = (h.row.event, h)

abbrev pub stored_entry : SyncedGw → ℕ × SyncedGw
stored_entry r = (r.event, r)

pub record Squad : Type 0 where
  pub has_picks : Bool
  pub picks : List Pick
  pub auto_subs : List AutoSub

-- The squad of the gameweek that is synchronised, and of another one.
abbrev new_squad : Option SyncedPicks → Squad
new_squad none = record { has_picks = false; picks = []; auto_subs = [] }
new_squad (some p) = record { has_picks = true; picks = p.picks; auto_subs = p.auto_subs }

abbrev old_squad : Option SyncedGw → Squad
old_squad none = record { has_picks = false; picks = []; auto_subs = [] }
old_squad (some r) = record { has_picks = r.has_picks; picks = r.picks; auto_subs = r.auto_subs }

abbrev old_hash : Option SyncedGw → Option String
old_hash none = none
old_hash (some r) = r.picks_hash

-- `current && picks ? picks.activeChip : (chipByEvent.get(n.event) ?? null)`
abbrev chip_at : Bool → Option SyncedPicks → Option Chip → Option Chip
chip_at true (some p) chip = p.active_chip
chip_at true none chip = chip
chip_at false picks chip = chip

abbrev new_hash : Option SyncedPicks → Option String → Option String
new_hash none hash = none
new_hash (some p) hash = hash

unfoldable pub gw_row : SeasonBuild → SeasonRow → SyncedGw
unfolding map_get
gw_row b n =
    let prev = map_get n.event (map stored_entry b.existing_rows) in
    let current = n.event == b.event in
    let squad = if current then new_squad b.picks else old_squad prev in
    record {
      event = n.event;
      points = n;
      facts = map_get n.event (map history_entry b.history);
      active_chip = chip_at current b.picks (map_get n.event b.chips);
      has_picks = squad.has_picks;
      picks = squad.picks;
      auto_subs = squad.auto_subs;
      picks_hash = if current then new_hash b.picks b.picks_request else old_hash prev;
    }

abbrev pub same_previous : Option ℤ → Option ℤ → Bool
same_previous none none = true
same_previous (some a) (some b) = eq_ℤ a b
same_previous _ _ = false

-- `pointsKey`, compared.
abbrev pub same_points : SeasonRow → SeasonRow → Bool
same_points a b =
    eq_ℤ a.reported_gw_points b.reported_gw_points
    && eq_ℤ a.transfer_cost b.transfer_cost
    && eq_ℤ a.total_points b.total_points
    && same_previous a.previous_total_points b.previous_total_points

abbrev proves : Hypothesis → Bool
proves gross = true
proves net = true
proves both = false
proves neither = false

abbrev pub is_new : Option SyncedGw → SeasonRow → Bool
is_new none n = true
is_new (some r) n = not (same_points r.points n)

unfoldable pub evidence_candidates : List SyncedGw → List SeasonRow → List (ℕ × Hypothesis)
unfolding map_get
evidence_candidates existing [] = []
evidence_candidates existing (n ∷ ns) =
    let rest = evidence_candidates existing ns in
    if ltb_ℤ (pos 0) n.transfer_cost
      && proves n.hypothesis
      && is_new (map_get n.event (map stored_entry existing)) n
    then (n.event, n.hypothesis) ∷ rest
    else rest

pub record SeasonRows : Type 0 where
  pub rows : List SyncedGw
  pub evidence : List (ℕ × Hypothesis)

unfoldable pub build_season_rows : SeasonBuild → SeasonRows
unfolding season_input reconcile_season gw_row evidence_candidates
build_season_rows b =
    let normalized = (reconcile_season (season_input b)).0 in
    record {
      rows = map (gw_row b) normalized;
      evidence = evidence_candidates b.existing_rows normalized;
    }
