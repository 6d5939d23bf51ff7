-- ===== src/Winner.antt =====
-- server/src/analytics/winner.js: the result of one gameweek. The child Decide is the loop over the
-- tie-break chain, Table the rows of the result; this file has the inputs and `computeGwResult`.
-- `localeCompare` is a parameter. Not modelled: the `inputs` copy and its hash.
pub mod Inputs
pub mod Decide
pub mod Table
pub mod Laws
pub use Inputs.{GwRow, Manager, ResultGroup, GwInput}
use Prim.Native.Nat.{Ordering}
use Prim.Native.String.{String}
use fpl_radar.Prelude.{
  ℕ, ◌<◌, Bool, true, false, ◌&&◌, not, Option, none, some, List, [], ◌∷◌, ◌++◌, map, if◌then◌else◌,
  ltb, leb, length, keep,
}
use fpl_radar.Prelude.Int.{ℤ}
use fpl_radar.Prelude.Sort.{sort_by}
use fpl_radar.Constants.{EventState, is_data_checked}
use fpl_radar.TieBreak.{TieBreakRow, Key, Rule, shared, is_shared}
use fpl_radar.Ranking.{Position, competition_ranks, resolve_positions}
use fpl_radar.Eligibility.{select_eligible}
use Inputs.{row_by_entry, map_has, Blocked, blocked_by, tie_rows, map_get}
use Decide.{Decision, Step, decide, top_candidates, applied_at_end, ids_of}
use Table.{ResultRow, Standing, table}

pub data Warning : Type 0 where
  provisional_event_state : EventState → Warning
  tie_break_data_missing : Rule → Warning

pub data PreviewStatus : Type 0 where
  provisional blocked : PreviewStatus

pub record GwResult : Type 0 where
  pub status : PreviewStatus
  pub blocked_by : List Blocked
  pub winners : List ℕ
  pub winning_score : Option ℤ
  pub tie_break_applied : Option Rule
  pub tie_break_trace : List Step
  pub rows : List ResultRow
  pub warnings : List Warning

abbrev state_warnings : EventState → List Warning
state_warnings s = if is_data_checked s then [] else provisional_event_state s ∷ []

abbrev trace_warnings : List Step → List Warning
trace_warnings [] = []
trace_warnings (s ∷ ss) =
    let rest = trace_warnings ss in
    if s.data_missing then tie_break_data_missing s.rule ∷ rest else rest

abbrev pub first_score : List TieBreakRow → Option ℤ
first_score [] = none
first_score (c ∷ cs) = some c.score

-- The part of the result that the block `if (status === 'PROVISIONAL' && eligible.length > 0)` sets.
pub record Outcome : Type 0 where
  pub ranks : List (ℕ × ℕ)
  pub positions : List (ℕ × Position)
  pub winners : List ℕ
  pub winning_score : Option ℤ
  pub applied : Option Rule
  pub trace : List Step

abbrev no_outcome : Outcome
no_outcome = record {
  ranks = [];
  positions = [];
  winners = [];
  winning_score = none;
  applied = none;
  trace = [];
}

unfoldable pub rank_and_decide : List TieBreakRow → List Rule → Outcome
unfolding competition_ranks resolve_positions decide top_candidates applied_at_end sort_by
rank_and_decide scored rules =
    let candidates = top_candidates scored in
    let d = decide rules candidates none in
    record {
      ranks = competition_ranks scored;
      positions = map (λ p. (p.entry_id, p)) (resolve_positions scored rules);
      winners = sort_by leb (ids_of d.candidates);
      winning_score = first_score candidates;
      applied = applied_at_end d;
      trace = d.trace;
    }

abbrev pub is_empty {ℓ} : {A : Type ℓ} → List A → Bool
is_empty [] = true
is_empty (x ∷ xs) = false

-- The eligible members, as the result reads them.
unfoldable pub eligible_of : GwInput → List ℕ
unfolding row_by_entry select_eligible
eligible_of i = (select_eligible i.members (map_has (row_by_entry i)) i.event).eligible

unfoldable pub blocked_of : GwInput → List Blocked
unfolding eligible_of blocked_by
blocked_of i = blocked_by (row_by_entry i) (eligible_of i)

unfoldable pub scored_of : GwInput → List TieBreakRow
unfolding eligible_of tie_rows
scored_of i = tie_rows i (row_by_entry i) (eligible_of i)

unfoldable pub outcome_of : GwInput → Outcome
unfolding blocked_of eligible_of scored_of rank_and_decide
outcome_of i =
    if is_empty (blocked_of i) && not (is_empty (eligible_of i))
    then rank_and_decide (scored_of i) i.group.tie_break_rules
    else no_outcome

module _ (locale_compare : String → String → Ordering) where
  unfoldable pub compute_gw_result : GwInput → GwResult
  unfolding outcome_of blocked_of row_by_entry select_eligible table
  compute_gw_result i =
      let o = outcome_of i in
      record {
        status = if is_empty (blocked_of i) then provisional else blocked;
        blocked_by = blocked_of i;
        winners = o.winners;
        winning_score = o.winning_score;
        tie_break_applied = o.applied;
        tie_break_trace = o.trace;
        rows = table locale_compare i (row_by_entry i) (record {
          ranks = o.ranks;
          positions = o.positions;
          winners = o.winners;
          ineligible = (select_eligible i.members (map_has (row_by_entry i)) i.event).ineligible;
        });
        warnings = state_warnings i.event_state ++ trace_warnings o.trace;
      }
