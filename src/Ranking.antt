-- ===== src/Ranking.antt =====
-- server/src/analytics/ranking.js: competition ranks from the score alone, and a unique order after
-- the tie-break chain with the entry id as the last key.
pub mod Laws
pub mod Order
use fpl_radar.Prelude.{
  ℕ, suc, ◌+◌, ◌≡◌, Bool, true, false, Option, none, some, List, [], ◌∷◌, ◌++◌, if◌then◌else◌,
  length, keep, leb, ◌==◌,
}
use fpl_radar.Prelude.Int.{ℤ, ltb_ℤ, leb_ℤ}
use fpl_radar.Prelude.Sort.{sort_by}
use fpl_radar.Prelude.Buckets.{Buckets, buckets, bucket, bucket_keys}
use fpl_radar.TieBreak.{TieBreakRow, Key, Rule, by, shared, has_data, rule_number}

-- `1 + scores.filter((o) => o.score > s.score).length`
unfoldable pub rank_of : List TieBreakRow → ℤ → ℕ
rank_of scores s = 1 + length (keep (λ o. ltb_ℤ s o.score) scores)

-- `competitionRanks(scores)`: the entries of the `Map` from entry id to rank.
unfoldable pub ranks_from : List TieBreakRow → List TieBreakRow → List (ℕ × ℕ)
ranks_from scores [] = []
ranks_from scores (s ∷ ss) = (s.entry_id, rank_of scores s.score) ∷ ranks_from scores ss

unfoldable pub competition_ranks : List TieBreakRow → List (ℕ × ℕ)
unfolding ranks_from
competition_ranks scores = ranks_from scores scores

-- What separated a row from the one before it.
pub data DecidedBy : Type 0 where
  rule : Key → DecidedBy
  entry_id_fallback : DecidedBy

pub record Placed : Type 0 where
  pub row : TieBreakRow
  pub decided_by : Option DecidedBy

-- `[...group].sort((a, b) => a.entryId - b.entryId)`
abbrev pub by_entry_id : TieBreakRow → TieBreakRow → Bool
by_entry_id a b = leb a.entry_id b.entry_id

abbrev pub by_number_desc : ℤ → ℤ → Bool
by_number_desc a b = leb_ℤ b a

fallback_rest : List TieBreakRow → List Placed
fallback_rest [] = []
fallback_rest (r ∷ rs) = record { row = r; decided_by = some entry_id_fallback } ∷ fallback_rest rs

-- `.map((row, k) => (k === 0 ? { row } : { row, decidedBy: 'ENTRY_ID_FALLBACK' }))`
pub fallback : List TieBreakRow → List Placed
unfolding fallback_rest
fallback [] = []
fallback (r ∷ rs) = record { row = r; decided_by = none } ∷ fallback_rest rs

-- `sub[0] = { ...sub[0], decidedBy }`
mark_first : Option DecidedBy → List Placed → List Placed
mark_first d [] = []
mark_first d (p ∷ ps) = record { row = p.row; decided_by = d } ∷ ps

-- The loop over the sorted keys of a `Map`: `out` is what was placed before, and the first row of
-- every bucket but the first is marked.
join_buckets : (ℤ → List Placed) → DecidedBy → List Placed → List ℤ → List Placed
unfolding mark_first
join_buckets sub d out [] = out
join_buckets sub d [] (v ∷ vs) = join_buckets sub d (sub v) vs
join_buckets sub d (p ∷ ps) (v ∷ vs) =
    join_buckets sub d ((p ∷ ps) ++ mark_first (some d) (sub v)) vs

-- `resolveGroup(group, rules, i)`, with the rules from `i` on.
unfoldable pub resolve_group : List Key → List TieBreakRow → List Placed
unfolding fallback join_buckets sort_by buckets bucket bucket_keys
resolve_group [] group =
    if length group == 1 then fallback group else fallback (sort_by by_entry_id group)
resolve_group (k ∷ ks) group =
    let skip = resolve_group ks group in
    let m = buckets (rule_number k) group in
    let split =
      join_buckets (λ v. resolve_group ks (bucket v m)) (rule k) []
        (sort_by by_number_desc (bucket_keys m)) in
    if length group == 1 then fallback group else if has_data k group then split else skip

-- `rules.filter((r) => r !== SHARED)`
abbrev pub keys_of : List Rule → List Key
keys_of [] = []
keys_of (by k ∷ rs) = k ∷ keys_of rs
keys_of (shared ∷ rs) = keys_of rs

-- The loop over the scores: `group[0]` is marked with `null` each time.
join_scores : (ℤ → List Placed) → List Placed → List ℤ → List Placed
unfolding mark_first
join_scores sub out [] = out
join_scores sub out (v ∷ vs) = join_scores sub (out ++ mark_first none (sub v)) vs

unfoldable pub ordered_rows : List TieBreakRow → List Rule → List Placed
unfolding resolve_group join_scores
ordered_rows rows rules =
    let m = buckets (λ r. r.score) rows in
    join_scores (λ v. resolve_group (keys_of rules) (bucket v m)) []
      (sort_by by_number_desc (bucket_keys m))

pub record Position : Type 0 where
  pub entry_id : ℕ
  pub resolved_position : ℕ
  pub position_decided_by : Option DecidedBy

number_from : ℕ → List Placed → List Position
number_from i [] = []
number_from i (p ∷ ps) =
    record {
      entry_id = p.row.entry_id;
      resolved_position = suc i;
      position_decided_by = p.decided_by;
    }
    ∷ number_from (suc i) ps

unfoldable pub resolve_positions : List TieBreakRow → List Rule → List Position
unfolding number_from ordered_rows
resolve_positions rows rules = number_from 0 (ordered_rows rows rules)
