-- ===== src/Ranking/Laws.antt =====
-- The rows that the order of the table holds: every row of the input, once.
use mathlib.Core.List.{Perm, append_assoc, append-nil}
use mathlib.Core.List.Perm
use fpl_radar.Prelude.{
  ◌≡◌, refl, sym, ap, ◌∙◌, ◌≢◌, true, false, Option, none, some, List, [], ◌∷◌, ◌++◌, Bool-cases,
  inl, inr, keep, mem-keep, length, ◌==◌, All, All-append, All-of_mem, All-mem, Ordered,
}
use fpl_radar.Prelude.Int.{ℤ, eq_ℤ, leb_ℤ, leb_ℤ_total, leb_ℤ_trans}
use fpl_radar.Prelude.Sort.{
  sort_by, sort_by-perm, mem-sort_by, sort_by-All, sort_by-Ordered_sym, sort_by-Ordered,
}
use fpl_radar.Prelude.Buckets.{
  buckets, bucket, bucket_keys, bucket-buckets, mem-bucket_keys, bucket_keys-Distinct, Distinct,
}
use fpl_radar.Prelude.Spread.{spread, spread-perm}
use fpl_radar.TieBreak.{TieBreakRow, Key, Rule, has_data, rule_number}
use fpl_radar.Ranking.{
  DecidedBy, rule, Placed, by_entry_id, by_number_desc, fallback_rest, fallback, mark_first,
  join_buckets, resolve_group, keys_of, join_scores, ordered_rows,
}

abbrev pub rows_of : List Placed → List TieBreakRow
rows_of [] = []
rows_of (p ∷ ps) = p.row ∷ rows_of ps

rows_of-append : (ps qs : List Placed) → rows_of (ps ++ qs) ≡ rows_of ps ++ rows_of qs
rows_of-append [] qs = refl
rows_of-append (p ∷ ps) qs = ap (◌∷◌ p.row) (rows_of-append ps qs)

rows_of-mark_first :
    (d : Option DecidedBy) (ps : List Placed) → rows_of (mark_first d ps) ≡ rows_of ps
unfolding mark_first
rows_of-mark_first d [] = refl
rows_of-mark_first d (p ∷ ps) = refl

rows_of-fallback_rest : (g : List TieBreakRow) → rows_of (fallback_rest g) ≡ g
unfolding fallback_rest
rows_of-fallback_rest [] = refl
rows_of-fallback_rest (r ∷ rs) = ap (◌∷◌ r) (rows_of-fallback_rest rs)

rows_of-fallback : (g : List TieBreakRow) → rows_of (fallback g) ≡ g
unfolding fallback
rows_of-fallback [] = refl
rows_of-fallback (r ∷ rs) = ap (◌∷◌ r) (rows_of-fallback_rest rs)

-- The rows placed key by key.
unfoldable pub placed_rows : (ℤ → List Placed) → List ℤ → List TieBreakRow
placed_rows sub [] = []
placed_rows sub (v ∷ vs) = rows_of (sub v) ++ placed_rows sub vs

rows_of-join_buckets :
    (sub : ℤ → List Placed) (d : DecidedBy) (out : List Placed) (vs : List ℤ)
    → rows_of (join_buckets sub d out vs) ≡ rows_of out ++ placed_rows sub vs
unfolding join_buckets placed_rows
rows_of-join_buckets sub d out [] = sym (append-nil (rows_of out))
rows_of-join_buckets sub d [] (v ∷ vs) = rows_of-join_buckets sub d (sub v) vs
rows_of-join_buckets sub d (p ∷ ps) (v ∷ vs) =
    rows_of-join_buckets sub d ((p ∷ ps) ++ mark_first (some d) (sub v)) vs
    ∙ ap (λ t. t ++ placed_rows sub vs)
        (rows_of-append (p ∷ ps) (mark_first (some d) (sub v))
          ∙ ap (λ t. rows_of (p ∷ ps) ++ t) (rows_of-mark_first (some d) (sub v)))
    ∙ append_assoc (rows_of (p ∷ ps)) (rows_of (sub v)) (placed_rows sub vs)

rows_of-join_scores :
    (sub : ℤ → List Placed) (out : List Placed) (vs : List ℤ)
    → rows_of (join_scores sub out vs) ≡ rows_of out ++ placed_rows sub vs
unfolding join_scores placed_rows
rows_of-join_scores sub out [] = sym (append-nil (rows_of out))
rows_of-join_scores sub out (v ∷ vs) =
    rows_of-join_scores sub (out ++ mark_first none (sub v)) vs
    ∙ ap (λ t. t ++ placed_rows sub vs)
        (rows_of-append out (mark_first none (sub v))
          ∙ ap (λ t. rows_of out ++ t) (rows_of-mark_first none (sub v)))
    ∙ append_assoc (rows_of out) (rows_of (sub v)) (placed_rows sub vs)

-- The keys of the grouping by `f`, highest first.
abbrev pub keys_desc : (TieBreakRow → ℤ) → List TieBreakRow → List ℤ
keys_desc f g = sort_by by_number_desc (bucket_keys (buckets f g))

abbrev pub sub_groups : List Key → (TieBreakRow → ℤ) → List TieBreakRow → ℤ → List Placed
sub_groups ks f g v = resolve_group ks (bucket v (buckets f g))

-- The three ways of `resolveGroup`.
resolve_group_one :
    (ks : List Key) (g : List TieBreakRow)
    → (length g == 1) ≡ true
    → resolve_group ks g ≡ fallback g
unfolding resolve_group
resolve_group_one [] g h = rw h
resolve_group_one (k ∷ ks) g h = rw h

pub resolve_group_skip :
    (k : Key) (ks : List Key) (g : List TieBreakRow)
    → (length g == 1) ≡ false
    → has_data k g ≡ false
    → resolve_group (k ∷ ks) g ≡ resolve_group ks g
unfolding resolve_group
resolve_group_skip k ks g h e = rw (h, e)

pub resolve_group_split :
    (k : Key) (ks : List Key) (g : List TieBreakRow)
    → (length g == 1) ≡ false
    → has_data k g ≡ true
    → rows_of (resolve_group (k ∷ ks) g)
      ≡ placed_rows (sub_groups ks (rule_number k) g) (keys_desc (rule_number k) g)
unfolding resolve_group
resolve_group_split k ks g h e =
    rw (h, e)
      (rows_of-join_buckets (sub_groups ks (rule_number k) g) (rule k) []
        (keys_desc (rule_number k) g))

-- `P` of every row of each bucket is `P` of every row placed.
placed_rows-All {κ} :
    (P : TieBreakRow → Type κ) (sub : ℤ → List Placed) (vs : List ℤ)
    → ((v : ℤ) → All P (rows_of (sub v)))
    → All P (placed_rows sub vs)
unfolding placed_rows
placed_rows-All P sub [] h = tt
placed_rows-All P sub (v ∷ vs) h =
    All-append P (rows_of (sub v)) (placed_rows sub vs) (h v) (placed_rows-All P sub vs h)

bucket-All {κ} :
    (P : TieBreakRow → Type κ) (f : TieBreakRow → ℤ) (g : List TieBreakRow) (v : ℤ)
    → All P g
    → All P (bucket v (buckets f g))
bucket-All P f g v h = rw (bucket-buckets f v g) (
    All-of_mem (keep (λ r. eq_ℤ v (f r)) g)
      (λ a m. All-mem P g h (mem-keep (λ r. eq_ℤ v (f r)) g m).0))

-- What holds of every row of a group holds of every row that is placed.
pub resolve_group-All {κ} :
    (P : TieBreakRow → Type κ) (ks : List Key) (g : List TieBreakRow)
    → All P g
    → All P (rows_of (resolve_group ks g))
unfolding resolve_group
resolve_group-All P [] g h = elim (Bool-cases (length g == 1)) [
  | inl e ↦ rw (e, rows_of-fallback g) h
  | inr e ↦ rw (e, rows_of-fallback (sort_by by_entry_id g)) (sort_by-All by_entry_id P g h)
]
resolve_group-All P (k ∷ ks) g h = elim (Bool-cases (length g == 1)) [
  | inl e ↦ rw (resolve_group_one (k ∷ ks) g e, rows_of-fallback g) h
  | inr e ↦ elim (Bool-cases (has_data k g)) [
    | inl d ↦ rw (resolve_group_split k ks g e d) (
        placed_rows-All P (sub_groups ks (rule_number k) g) (keys_desc (rule_number k) g) (λ v.
          resolve_group-All P ks (bucket v (buckets (rule_number k) g))
            (bucket-All P (rule_number k) g v h)))
    | inr d ↦ rw (resolve_group_skip k ks g e d) (resolve_group-All P ks g h)
  ]
]

placed_rows-perm :
    (f : TieBreakRow → ℤ) (g : List TieBreakRow) (sub : ℤ → List Placed) (vs : List ℤ)
    → ((v : ℤ) → Perm (rows_of (sub v)) (bucket v (buckets f g)))
    → Perm (placed_rows sub vs) (spread f g vs)
unfolding placed_rows spread
placed_rows-perm f g sub [] h = Perm.rfl
placed_rows-perm f g sub (v ∷ vs) h =
    Perm.append (rw (bucket-buckets f v g) at (h v)) (placed_rows-perm f g sub vs h)

keys_desc-Distinct : (f : TieBreakRow → ℤ) (g : List TieBreakRow) → Distinct (keys_desc f g)
keys_desc-Distinct f g =
    sort_by-Ordered_sym by_number_desc (λ v w. v ≢ w) (λ a b h e. h (sym e))
      (bucket_keys (buckets f g)) (bucket_keys-Distinct f g)

pub keys_desc-Ordered :
    (f : TieBreakRow → ℤ) (g : List TieBreakRow) → Ordered (λ v w. leb_ℤ w v ≡ true) (keys_desc f g)
keys_desc-Ordered f g =
    sort_by-Ordered by_number_desc (λ a b h. leb_ℤ_total b a h) (λ a b c h k. leb_ℤ_trans c b a k h)
      (bucket_keys (buckets f g))

-- Placing the buckets of a group places the group.
placed_rows-group :
    (f : TieBreakRow → ℤ) (g : List TieBreakRow) (sub : ℤ → List Placed)
    → ((v : ℤ) → Perm (rows_of (sub v)) (bucket v (buckets f g)))
    → Perm (placed_rows sub (keys_desc f g)) g
placed_rows-group f g sub h = Perm.trans (placed_rows-perm f g sub (keys_desc f g) h) (
    spread-perm f g (keys_desc f g) (keys_desc-Distinct f g)
      (λ r m. mem-sort_by by_number_desc (bucket_keys (buckets f g)) (mem-bucket_keys f g m)))

pub resolve_group-perm :
    (ks : List Key) (g : List TieBreakRow) → Perm (rows_of (resolve_group ks g)) g
unfolding resolve_group
resolve_group-perm [] g = elim (Bool-cases (length g == 1)) [
  | inl e ↦ rw (e, rows_of-fallback g) Perm.rfl
  | inr e ↦ rw (e, rows_of-fallback (sort_by by_entry_id g)) (sort_by-perm by_entry_id g)
]
resolve_group-perm (k ∷ ks) g = elim (Bool-cases (length g == 1)) [
  | inl e ↦ rw (resolve_group_one (k ∷ ks) g e, rows_of-fallback g) Perm.rfl
  | inr e ↦ elim (Bool-cases (has_data k g)) [
    | inl d ↦ rw (resolve_group_split k ks g e d) (
        placed_rows-group (rule_number k) g (sub_groups ks (rule_number k) g)
          (λ v. resolve_group-perm ks (bucket v (buckets (rule_number k) g))))
    | inr d ↦ rw (resolve_group_skip k ks g e d) (resolve_group-perm ks g)
  ]
]

pub ordered_rows_eq :
    (rows : List TieBreakRow) (rules : List Rule)
    → rows_of (ordered_rows rows rules)
      ≡ placed_rows (sub_groups (keys_of rules) (λ r. r.score) rows) (keys_desc (λ r. r.score) rows)
unfolding ordered_rows
ordered_rows_eq rows rules =
    rows_of-join_scores (sub_groups (keys_of rules) (λ r. r.score) rows) []
      (keys_desc (λ r. r.score) rows)

-- The table holds every eligible row exactly once, whatever the chain.
pub ordered_rows-perm :
    (rows : List TieBreakRow) (rules : List Rule) → Perm (rows_of (ordered_rows rows rules)) rows
ordered_rows-perm rows rules = rw (ordered_rows_eq rows rules) (
    placed_rows-group (λ r. r.score) rows (sub_groups (keys_of rules) (λ r. r.score) rows)
      (λ v. resolve_group-perm (keys_of rules) (bucket v (buckets (λ r. r.score) rows))))
