-- ===== src/TieBreak.antt =====
-- server/src/analytics/tieBreakers.js: the tie-break rules, what a rule leaves of the tied
-- candidates, and which rule chains are valid. `SHARED` is a terminator, not a rule with a value.
pub mod Laws
use Prim.Native.String.{String}
use fpl_radar.Prelude.{
  ℕ, ◌≡◌, Bool, true, false, ◌&&◌, not, Option, none, some, List, [], ◌∷◌, if◌then◌else◌, length,
  keep, every, any, ◌==◌,
}
use fpl_radar.Prelude.Int.{ℤ, pos, negate, eq_ℤ, ltb_ℤ}

-- A row of the table: `null` data is `none`. Of the chip, `undefined` is `none` and `null` is
-- `some none`.
pub record TieBreakRow : Type 0 where
  pub entry_id : ℕ
  pub score : ℤ
  pub gross_gw_points : Option ℤ
  pub transfer_cost : Option ℤ
  pub captain_points : Option ℤ
  pub points_on_bench : Option ℤ
  pub active_chip : Option (Option String)
  pub total_points : Option ℤ
  pub overall_rank : Option ℤ

-- The keys of `RULES`.
pub data Key : Type 0 where
  fewer_transfer_cost higher_gross_points higher_captain_points fewer_points_on_bench : Key
  no_chip_played higher_season_total better_overall_rank : Key

-- An element of a group's chain.
pub data Rule : Type 0 where
  by : Key → Rule
  shared : Rule

pub Key-discrete : Discrete Key
Key-discrete = hlevel

abbrev map_value : (ℤ → ℤ) → Option ℤ → Option ℤ
map_value f none = none
map_value f (some n) = some (f n)

abbrev chip_value : Option (Option String) → Option ℤ
chip_value none = none
chip_value (some none) = some (pos 1)
chip_value (some (some c)) = some (pos 0)

-- `RULES[rule](row)`: higher wins, `none` where the data is missing.
unfoldable pub tie_break_value : Key → TieBreakRow → Option ℤ
tie_break_value fewer_transfer_cost r = map_value negate r.transfer_cost
tie_break_value higher_gross_points r = r.gross_gw_points
tie_break_value higher_captain_points r = r.captain_points
tie_break_value fewer_points_on_bench r = map_value negate r.points_on_bench
tie_break_value no_chip_played r = chip_value r.active_chip
tie_break_value higher_season_total r = r.total_points
tie_break_value better_overall_rank r = map_value negate r.overall_rank

abbrev is_some {ℓ} : {A : Type ℓ} → Option A → Bool
is_some none = false
is_some (some a) = true

abbrev pub number_or_zero : Option ℤ → ℤ
number_or_zero none = pos 0
number_or_zero (some n) = n

-- The value as a number, for rows that have one.
unfoldable pub rule_number : Key → TieBreakRow → ℤ
rule_number k r = number_or_zero (tie_break_value k r)

unfoldable pub has_data : Key → List TieBreakRow → Bool
has_data k rows = every (λ r. is_some (tie_break_value k r)) rows

-- `Math.max(...)`, over the candidates after the first.
max_from : ℤ → List ℤ → ℤ
max_from m [] = m
max_from m (n ∷ ns) = max_from (if ltb_ℤ m n then n else m) ns

rule_numbers : Key → List TieBreakRow → List ℤ
rule_numbers k [] = []
rule_numbers k (r ∷ rs) = rule_number k r ∷ rule_numbers k rs

unfoldable pub best_number : Key → List TieBreakRow → ℤ
unfolding max_from rule_numbers
best_number k [] = pos 0
best_number k (r ∷ rs) = max_from (rule_number k r) (rule_numbers k rs)

-- `TIE_BREAKERS[rule](candidates)`
unfoldable pub tie_breakers : Key → List TieBreakRow → List TieBreakRow
unfolding best_number
tie_breakers k cs =
    if has_data k cs then keep (λ c. eq_ℤ (rule_number k c) (best_number k cs)) cs else cs

-- One test for equality of chain elements, by their place in `TIE_BREAK_RULES`.
abbrev key_index : Key → ℕ
key_index fewer_transfer_cost = 0
key_index higher_gross_points = 1
key_index higher_captain_points = 2
key_index fewer_points_on_bench = 3
key_index no_chip_played = 4
key_index higher_season_total = 5
key_index better_overall_rank = 6

abbrev rule_index : Rule → ℕ
rule_index (by k) = key_index k
rule_index shared = 7

abbrev same_rule : Rule → Rule → Bool
same_rule a b = rule_index a == rule_index b

abbrev pub is_shared : Rule → Bool
is_shared (by k) = false
is_shared shared = true

abbrev pub tie_break_rules : List Rule
tie_break_rules =
    by fewer_transfer_cost
    ∷ by higher_gross_points
    ∷ by higher_captain_points
    ∷ by fewer_points_on_bench
    ∷ by no_chip_played
    ∷ by higher_season_total
    ∷ by better_overall_rank
    ∷ shared
    ∷ []

abbrev confirmed_tie_break_rules : List Rule
confirmed_tie_break_rules =
    by fewer_transfer_cost
    ∷ by higher_season_total
    ∷ by higher_captain_points
    ∷ by no_chip_played
    ∷ shared
    ∷ []

abbrev pub default_tie_break_rules : List Rule
default_tie_break_rules = by fewer_transfer_cost ∷ by higher_season_total ∷ shared ∷ []

-- `rules.at(-1) === SHARED`; false for the empty chain.
abbrev ends_shared : List Rule → Bool
ends_shared [] = false
ends_shared (r ∷ []) = is_shared r
ends_shared (r ∷ s ∷ rs) = ends_shared (s ∷ rs)

-- `rules.every((r, i) => allowed.includes(r) && (r === SHARED ? i === rules.length - 1 : true))`
abbrev pub each_allowed : List Rule → List Rule → Bool
each_allowed allowed [] = true
each_allowed allowed (r ∷ rs) =
    any (same_rule r) allowed
    && (if is_shared r then length rs == 0 else true)
    && each_allowed allowed rs

-- `new Set(rules).size === rules.length`
abbrev distinct_rules : List Rule → Bool
distinct_rules [] = true
distinct_rules (r ∷ rs) = not (any (same_rule r) rs) && distinct_rules rs

unfoldable pub is_valid_rule_chain : List Rule → List Rule → Bool
is_valid_rule_chain rules allowed =
    ends_shared rules && each_allowed allowed rules && distinct_rules rules
