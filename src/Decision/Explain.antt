-- ===== src/Decision/Explain.antt =====
-- server/src/services/resultModel.js: the trace of a decision, the content of its snapshot, and what a
-- recomputation changes.
use Prim.Native.String.{String}
use fpl_radar.Prelude.{
  ℕ, Bool, true, false, ◌&&◌, not, Option, none, some, List, [], ◌∷◌, map, ◌==◌, leb, keep,
}
use fpl_radar.Prelude.Int.{eq_ℤ}
use fpl_radar.Prelude.Sort.{sort_by}
use fpl_radar.Constants.{
  ReconciliationStatus, reconciled, reconciled_no_cost, mismatch, semantics_conflict,
  source_disagreement, incomplete,
}
use fpl_radar.Eligibility.{IneligibleReason}
use fpl_radar.Winner.{GwInput, GwResult}
use fpl_radar.Winner.Inputs.{map_get}
use fpl_radar.Winner.Table.{ResultRow}
use fpl_radar.Decision.Types.{
  SnapshotKind, WinnerOutcome, no_winner, single_winner, shared_win, Explanation, SnapshotContent,
  Loaded,
}

abbrev is_eligible : Option IneligibleReason → Bool
is_eligible none = true
is_eligible (some r) = false

abbrev ineligible_entry :
    ℕ → Option IneligibleReason → List (ℕ × IneligibleReason) → List (ℕ × IneligibleReason)
ineligible_entry id none rest = rest
ineligible_entry id (some r) rest = (id, r) ∷ rest

ineligible_entries : List ResultRow → List (ℕ × IneligibleReason)
ineligible_entries [] = []
ineligible_entries (r ∷ rs) =
    ineligible_entry r.entry_id r.ineligible_reason (ineligible_entries rs)

abbrev by_first : ℕ × IneligibleReason → ℕ × IneligibleReason → Bool
by_first a b = leb a.0 b.0

abbrev is_top : Option ℕ → Bool
is_top none = false
is_top (some r) = r == 1

-- `winners.length === 0 ? 'NONE' : winners.length === 1 ? 'SINGLE' : 'SHARED'`
abbrev outcome_of_winners : List ℕ → WinnerOutcome
outcome_of_winners [] = no_winner
outcome_of_winners (w ∷ []) = single_winner
outcome_of_winners (w ∷ v ∷ ws) = shared_win

unfoldable pub explain_decision : GwResult → Explanation
unfolding ineligible_entries sort_by
explain_decision r = record {
  status = r.status;
  eligible =
      sort_by leb (map (λ x. x.entry_id) (keep (λ x. is_eligible x.ineligible_reason) r.rows));
  ineligible = sort_by by_first (ineligible_entries r.rows);
  blocked_by = r.blocked_by;
  winning_score = r.winning_score;
  top_score_tied =
      sort_by leb (map (λ x. x.entry_id) (keep (λ x. is_top x.competition_rank) r.rows));
  steps = r.tie_break_trace;
  decided_by = r.tie_break_applied;
  outcome = outcome_of_winners r.winners;
  winners = r.winners;
}

-- The content hash of the engine's inputs is a parameter.
module _ (inputs_hash : GwInput → String) where
  unfoldable pub build_snapshot_input :
      Loaded → GwResult → SnapshotKind → List ℕ → ℕ → SnapshotContent
  unfolding explain_decision
  build_snapshot_input l r kind declared computed_at = record {
    kind = kind;
    winner_rule = l.gw.group.winner_rule;
    tie_break_rules = l.gw.group.tie_break_rules;
    computed_winners = r.winners;
    declared_winners = declared;
    winning_score = r.winning_score;
    tie_break_applied = r.tie_break_applied;
    trace = explain_decision r;
    standings = r.rows;
    inputs = l.gw;
    inputs_hash = inputs_hash l.gw;
    event_state = l.gw.event_state;
    warnings = r.warnings;
    computed_at = computed_at;
  }

-- The canonical JSON of two lists of ids is the same.
unfoldable pub same_ids : List ℕ → List ℕ → Bool
same_ids [] [] = true
same_ids (x ∷ xs) (y ∷ ys) = x == y && same_ids xs ys
same_ids _ _ = false

abbrev same_option : {A : Type 0} → (A → A → Bool) → Option A → Option A → Bool
same_option eq none none = true
same_option eq (some a) (some b) = eq a b
same_option eq _ _ = false

abbrev status_index : ReconciliationStatus → ℕ
status_index reconciled = 0
status_index reconciled_no_cost = 1
status_index mismatch = 2
status_index semantics_conflict = 3
status_index source_disagreement = 4
status_index incomplete = 5

abbrev same_bool : Bool → Bool → Bool
same_bool true b = b
same_bool false b = not b

-- `key(r)`, compared. A row that was not synced has a status of its own.
unfoldable same_key : ResultRow → ResultRow → Bool
unfolding eq_ℤ
same_key a b =
    same_option eq_ℤ a.score b.score
    && same_option (λ x y. x == y) a.competition_rank b.competition_rank
    && same_option (λ x y. x == y) a.resolved_position b.resolved_position
    && same_bool a.is_winner b.is_winner
    && same_option (λ x y. status_index x == status_index y) a.reconciliation_status
        b.reconciliation_status
    && same_bool a.not_synced b.not_synced

pub record ResultDiff : Type 0 where
  pub old_winners : List ℕ
  pub new_winners : List ℕ
  pub winners_changed : Bool
  pub changed_ids : List ℕ

abbrev standings_of : Option SnapshotContent → List ResultRow
standings_of none = []
standings_of (some s) = s.standings

abbrev pub declared_of : Option SnapshotContent → List ℕ
declared_of none = []
declared_of (some s) = s.declared_winners

abbrev row_changed : List (ℕ × ResultRow) → ResultRow → Bool
row_changed prev r = elim (map_get r.entry_id prev) [ none ↦ true | some p ↦ not (same_key p r) ]

unfoldable pub diff_results : Option SnapshotContent → GwResult → ResultDiff
unfolding same_key same_ids sort_by map_get
diff_results previous next =
    let prev = map (λ r. (r.entry_id, r)) (standings_of previous) in
    record {
      old_winners = declared_of previous;
      new_winners = next.winners;
      winners_changed = not (same_ids (sort_by leb (declared_of previous)) next.winners);
      changed_ids = sort_by leb (map (λ r. r.entry_id) (keep (row_changed prev) next.rows));
    }
