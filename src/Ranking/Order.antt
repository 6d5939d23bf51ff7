-- ===== src/Ranking/Order.antt =====
-- The order of the table: by score, highest first, and so by competition rank.
use fpl_radar.Prelude.{
  ℕ, suc, ◌+◌, ◌≤◌, ◌<◌, ◌≡◌, refl, sym, ap, subst, ◌∙◌, ◌↔◌, Bool, true, false, List, [], ◌∷◌,
  Bool-cases, inl, inr, Memᴰ, keep, mem-keep, length, arith, All, All-append, All-of_mem, All-imp,
  Ordered, keep-mem, Ordered-append, map,
}
use fpl_radar.Prelude.Int.{ℤ, eq_ℤ, eq_ℤ→eq, ltb_ℤ, leb_ℤ, leb_ℤ→le, ◌≤ℤ◌, ≤ℤ_antisymm, ltb_ℤ_not}
use fpl_radar.Prelude.Buckets.{buckets, bucket, bucket-buckets}
use fpl_radar.TieBreak.{TieBreakRow, Rule}
use fpl_radar.Ranking.{
  Placed, rank_of, keys_of, ordered_rows, Position, number_from, resolve_positions,
}
use fpl_radar.Ranking.Laws.{
  rows_of, placed_rows, sub_groups, keys_desc, resolve_group-All, keys_desc-Ordered,
  ordered_rows_eq, ordered_rows-perm,
}
use mathlib.Core.List.{Perm}
use mathlib.Core.List.Perm
use mathlib.Core.List.Memᴰ

length-keep_mono :
    {A : Type 0} (p q : A → Bool) (xs : List A)
    → ((x : A) → p x ≡ true → q x ≡ true)
    → length (keep p xs) ≤ length (keep q xs)
length-keep_mono p q [] h = omega arith
length-keep_mono p q (x ∷ xs) h = ground (arith, length-keep_mono p q xs h, h x)

length-keep_lt :
    {A : Type 0} (p q : A → Bool) {a : A} (xs : List A)
    → ((x : A) → p x ≡ true → q x ≡ true)
    → Memᴰ a xs
    → p a ≡ false
    → q a ≡ true
    → length (keep p xs) < length (keep q xs)
length-keep_lt p q [] h m f t = absurd (Memᴰ.not-nil m)
length-keep_lt p q (x ∷ xs) h (Memᴰ.head e) f t =
    rw (sym (ap p e) ∙ f, sym (ap q e) ∙ t) (ground (arith, length-keep_mono p q xs h))
length-keep_lt p q (x ∷ xs) h (Memᴰ.tail m) f t = ground (arith, length-keep_lt p q xs h m f t, h x)

rank_of_mono : (rows : List TieBreakRow) (s t : ℤ) → t ≤ℤ s → rank_of rows s ≤ rank_of rows t
unfolding rank_of
rank_of_mono rows s t h = omega (
  arith,
  length-keep_mono (λ o. ltb_ℤ s o.score) (λ o. ltb_ℤ t o.score) rows (λ o e. ground arith),
)

-- Among the scores of the rows, a higher score has a smaller rank.
rank_of-lt :
    (rows : List TieBreakRow) {a : TieBreakRow} (t : ℤ)
    → Memᴰ a rows
    → ltb_ℤ t a.score ≡ true
    → rank_of rows a.score < rank_of rows t
unfolding rank_of
rank_of-lt rows {a} t m h = omega (
  arith,
  length-keep_lt (λ o. ltb_ℤ a.score o.score) (λ o. ltb_ℤ t o.score) rows (λ o e. ground arith) m
      (ground arith) h,
)

-- Competition ranking: of two rows, the one with the higher score has the smaller rank, and equal
-- ranks are equal scores.
rank_of_iff :
    (rows : List TieBreakRow) (a b : TieBreakRow)
    → Memᴰ a rows
    → Memᴰ b rows
    → ((rank_of rows a.score < rank_of rows b.score) ↔ (ltb_ℤ b.score a.score ≡ true))
      × ((rank_of rows a.score ≡ rank_of rows b.score) ↔ (a.score ≡ b.score))
rank_of_iff rows a b ma mb = (
  (
    λ h. elim (Bool-cases (ltb_ℤ b.score a.score)) [
      | inl e ↦ e
      | inr e ↦ absurd (omega (arith, rank_of_mono rows b.score a.score (ground arith)))
    ],
    rank_of-lt rows b.score ma,
  ),
  (
    λ h. elim (Bool-cases (ltb_ℤ b.score a.score)) [
      | inl e ↦ absurd (omega (arith, rank_of-lt rows b.score ma e))
      | inr e ↦ elim (Bool-cases (ltb_ℤ a.score b.score)) [
        | inl d ↦ absurd (omega (arith, rank_of-lt rows a.score mb d))
        | inr d ↦
            ≤ℤ_antisymm a.score b.score (ltb_ℤ_not b.score a.score e) (ltb_ℤ_not a.score b.score d)
      ]
    ],
    ap (rank_of rows),
  ),
)

-- Rank 1 is exactly the top score.
pub rank_of-one :
    (rows : List TieBreakRow) (s : ℤ)
    → rank_of rows s ≡ 1 ↔ ((r : TieBreakRow) → Memᴰ r rows → r.score ≤ℤ s)
unfolding rank_of
rank_of-one rows s = (
  λ h r m. ltb_ℤ_not s r.score (elim (Bool-cases (ltb_ℤ s r.score)) [
    | inl e ↦ absurd (keep-ne_nil (keep-mem (λ o. ltb_ℤ s o.score) m e) (omega arith))
    | inr e ↦ e
  ]),
  λ h. none_kept rows h,
)
  where
    keep-ne_nil : {xs : List TieBreakRow} {r : TieBreakRow} → Memᴰ r xs → length xs ≡ 0 → ⊥
    keep-ne_nil (Memᴰ.head q) e = omega arith
    keep-ne_nil (Memᴰ.tail m) e = omega arith

    none_kept :
        (xs : List TieBreakRow)
        → ((r : TieBreakRow) → Memᴰ r xs → r.score ≤ℤ s)
        → 1 + length (keep (λ o. ltb_ℤ s o.score) xs) ≡ 1
    none_kept [] k = omega arith
    none_kept (x ∷ xs) k =
        ground (arith, none_kept xs (λ r m. k r (Memᴰ.tail m)), k x (Memᴰ.head refl))

abbrev HigherFirst : TieBreakRow → TieBreakRow → Type 0
HigherFirst a b = b.score ≤ℤ a.score

HigherFirst-same :
    (v : ℤ) (xs : List TieBreakRow) → All (λ r. r.score ≡ v) xs → Ordered HigherFirst xs
HigherFirst-same v [] h = tt
HigherFirst-same v (x ∷ xs) h = (
  All-imp xs
      (λ (r : TieBreakRow) (e : r.score ≡ v). subst (λ s. r.score ≤ℤ s) (e ∙ sym h.0) (omega arith))
      h.1,
  HigherFirst-same v xs h.1,
)

bucket-score :
    (rows : List TieBreakRow) (v : ℤ)
    → All (λ r. r.score ≡ v) (bucket v (buckets (λ r. r.score) rows))
bucket-score rows v = rw (bucket-buckets (λ r. r.score) v rows) (
    All-of_mem (keep (λ r. eq_ℤ v r.score) rows)
      (λ a m. sym (eq_ℤ→eq v a.score (mem-keep (λ r. eq_ℤ v r.score) rows m).1)))

placed_rows-Ordered :
    (sub : ℤ → List Placed) (vs : List ℤ)
    → ((v : ℤ) → All (λ r. r.score ≡ v) (rows_of (sub v)))
    → Ordered (λ v w. leb_ℤ w v ≡ true) vs
    → Ordered HigherFirst (placed_rows sub vs)
unfolding placed_rows
placed_rows-Ordered sub [] h o = tt
placed_rows-Ordered sub (v ∷ vs) h o =
    Ordered-append HigherFirst (rows_of (sub v)) (placed_rows sub vs)
      (HigherFirst-same v (rows_of (sub v)) (h v)) (placed_rows-Ordered sub vs h o.1)
      (All-imp (rows_of (sub v))
        (λ (r : TieBreakRow) (e : r.score ≡ v).
          subst (λ s. All (λ b. b.score ≤ℤ s) (placed_rows sub vs)) (sym e) (later v vs o.0))
        (h v))
  where
    later :
        (v : ℤ) (ws : List ℤ)
        → All (λ w. leb_ℤ w v ≡ true) ws
        → All (λ b. b.score ≤ℤ v) (placed_rows sub ws)
    later v [] k = tt
    later v (w ∷ ws) k =
        All-append (λ b. b.score ≤ℤ v) (rows_of (sub w)) (placed_rows sub ws)
          (All-imp (rows_of (sub w)) (λ b e. rw e (leb_ℤ→le w v k.0)) (h w)) (later v ws k.1)

-- No row of the table stands below a row with a lower score.
ordered_rows-Ordered :
    (rows : List TieBreakRow) (rules : List Rule)
    → Ordered (λ a b. b.score ≤ℤ a.score) (rows_of (ordered_rows rows rules))
ordered_rows-Ordered rows rules = rw (ordered_rows_eq rows rules) (
    placed_rows-Ordered (sub_groups (keys_of rules) (λ r. r.score) rows)
      (keys_desc (λ r. r.score) rows)
      (λ v.
        resolve_group-All (λ r. r.score ≡ v) (keys_of rules)
          (bucket v (buckets (λ r. r.score) rows)) (bucket-score rows v))
      (keys_desc-Ordered (λ r. r.score) rows))

-- Positions that count up by one after `i`.
abbrev pub CountsFrom : ℕ → List Position → Type 0
CountsFrom i [] = Unit
CountsFrom i (p ∷ ps) = (p.resolved_position ≡ suc i) × CountsFrom (suc i) ps

number_from-CountsFrom : (i : ℕ) (ps : List Placed) → CountsFrom i (number_from i ps)
unfolding number_from
number_from-CountsFrom i [] = tt
number_from-CountsFrom i (p ∷ ps) = (refl, number_from-CountsFrom (suc i) ps)

number_from-ids :
    (i : ℕ) (ps : List Placed)
    → map (λ p. p.entry_id) (number_from i ps) ≡ map (λ r. r.entry_id) (rows_of ps)
unfolding number_from
number_from-ids i [] = refl
number_from-ids i (p ∷ ps) = ap (◌∷◌ p.row.entry_id) (number_from-ids (suc i) ps)

pub resolve_positions-ids :
    (rows : List TieBreakRow) (rules : List Rule)
    → map (λ p. p.entry_id) (resolve_positions rows rules)
      ≡ map (λ r. r.entry_id) (rows_of (ordered_rows rows rules))
unfolding resolve_positions
resolve_positions-ids rows rules = number_from-ids 0 (ordered_rows rows rules)

-- Every row gets one position: the entries are those of the rows, each as often, and the positions
-- count 1, 2, 3 and so on.
pub resolve_positions_complete :
    (rows : List TieBreakRow) (rules : List Rule)
    → Perm (map (λ p. p.entry_id) (resolve_positions rows rules)) (map (λ r. r.entry_id) rows)
      × CountsFrom 0 (resolve_positions rows rules)
unfolding resolve_positions
resolve_positions_complete rows rules = (
  rw (number_from-ids 0 (ordered_rows rows rules))
      (Perm.map (λ r. r.entry_id) (ordered_rows-perm rows rules)),
  number_from-CountsFrom 0 (ordered_rows rows rules),
)
