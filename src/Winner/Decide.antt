-- ===== src/Winner/Decide.antt =====
-- The choice of the winners among the rows with the top score.
use fpl_radar.Prelude.{
  ℕ, Bool, false, not, Option, none, some, List, [], ◌∷◌, map, if◌then◌else◌, ◌==◌, ltb, length,
  keep,
}
use fpl_radar.TieBreak.{TieBreakRow, Key, Rule, by, shared, has_data, tie_breakers}
use fpl_radar.Ranking.{competition_ranks}
use fpl_radar.Winner.Inputs.{map_get}

-- An element of `tieBreakTrace`; `data_missing` is its note.
pub record Step : Type 0 where
  pub rule : Rule
  pub remaining : List ℕ
  pub data_missing : Bool

pub record Decision : Type 0 where
  pub candidates : List TieBreakRow
  pub applied : Option Rule
  pub trace : List Step

abbrev pub ids_of : List TieBreakRow → List ℕ
ids_of cs = map (λ c. c.entry_id) cs

-- `if (next.length < candidates.length) tieBreakApplied = rule`
abbrev pub applied_after : Key → List TieBreakRow → List TieBreakRow → Option Rule → Option Rule
applied_after k next cs applied = if ltb (length next) (length cs) then some (by k) else applied

abbrev traced : Step → Decision → Decision
traced s d = record d { trace = s ∷ d.trace }

-- The loop over `group.tieBreakRules`, from the candidates and the rule applied so far.
unfoldable pub decide : List Rule → List TieBreakRow → Option Rule → Decision
decide [] cs applied = record { candidates = cs; applied = applied; trace = [] }
decide (shared ∷ rs) cs applied =
    if length cs == 1 then record { candidates = cs; applied = applied; trace = [] } else record {
      candidates = cs;
      applied = some shared;
      trace = record { rule = shared; remaining = ids_of cs; data_missing = false } ∷ [];
    }
decide (by k ∷ rs) cs applied =
    let next = tie_breakers k cs in
    let rest = decide rs next (applied_after k next cs applied) in
    if length cs == 1
    then record { candidates = cs; applied = applied; trace = [] }
    else traced
        (record { rule = by k; remaining = ids_of next; data_missing = not (has_data k cs) }) rest

-- `if (candidates.length > 1 && tieBreakApplied !== SHARED) tieBreakApplied = SHARED`
unfoldable pub applied_at_end : Decision → Option Rule
applied_at_end d = if ltb 1 (length d.candidates) then some shared else d.applied

abbrev pub is_rank_one : Option ℕ → Bool
is_rank_one none = false
is_rank_one (some r) = r == 1

-- `scored.filter((r) => ranks.get(r.entryId) === 1)`
unfoldable pub top_candidates : List TieBreakRow → List TieBreakRow
top_candidates scored =
    keep (λ r. is_rank_one (map_get r.entry_id (competition_ranks scored))) scored
