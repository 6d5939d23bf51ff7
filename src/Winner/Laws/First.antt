-- ===== src/Winner/Laws/First.antt =====
-- The two readings of the tie-break chain agree: the first row of the table is a winner.
use mathlib.Core.List.{Perm}
use mathlib.Core.List.Perm
use mathlib.Core.List.Memᴰ
use fpl_radar.Prelude.{
  ◌≡◌, refl, sym, ap, subst, ◌∙◌, true, false, Option, none, List, [], ◌∷◌, ◌++◌, Bool-cases, inl,
  inr, Memᴰ, mem-keep, keep-mem, keep_congr, bool_eq_of_iff, All, All-of_mem, All-mem, length, ◌==◌,
  arith, Ordered,
}
use fpl_radar.Prelude.Int.{ℤ, ◌≤ℤ◌, ≤ℤ_antisymm, leb_ℤ, leb_ℤ→le, eq_ℤ, eq_ℤ_sym, eq_ℤ_iff}
use fpl_radar.Prelude.Sort.{mem-sort_by, sort_by-mem}
use fpl_radar.Prelude.Buckets.{
  buckets, bucket, bucket_keys, bucket-buckets, mem-bucket_keys, bucket_keys-mem,
}
use fpl_radar.TieBreak.{
  TieBreakRow, Key, Rule, by, shared, has_data, rule_number, tie_breakers, best_number,
}
use fpl_radar.TieBreak.Laws.{
  tie_breakers_kept, tie_breakers_some, rule_number-le-best_number, best_number-mem,
}
use fpl_radar.Ranking.{Placed, resolve_group, keys_of, ordered_rows, by_number_desc}
use fpl_radar.Ranking.Laws.{
  rows_of, placed_rows, sub_groups, keys_desc, keys_desc-Ordered, resolve_group_skip,
  resolve_group_split, resolve_group-All, resolve_group-perm, ordered_rows_eq,
}
use fpl_radar.Winner.Decide.{decide, applied_after, top_candidates}
use fpl_radar.Winner.Laws.Chain.{decide_one, decide_shared, decide_by}
use fpl_radar.Winner.Laws.Top.{OneRowEach, top_candidates_iff}

-- The list starts with a row that `P` holds of.
abbrev pub StartsWith : (TieBreakRow → Type 0) → List TieBreakRow → Type 0
StartsWith P rows = (r : TieBreakRow) × (rest : List TieBreakRow) × (rows ≡ r ∷ rest) × P r

StartsWith-of_All :
    (P : TieBreakRow → Type 0) (rows : List TieBreakRow) {c : TieBreakRow} {cs : List TieBreakRow}
    → Perm rows (c ∷ cs)
    → All P rows
    → StartsWith P rows
StartsWith-of_All P [] p h = absurd (cc (Perm.nil-eq p))
StartsWith-of_All P (r ∷ rest) p h = (r, rest, refl, h.0)

-- Where nothing is decided yet, any order of the group starts with a member of it.
group_starts :
    (ks : List Key) (c : TieBreakRow) (cs : List TieBreakRow)
    → StartsWith (λ r. Memᴰ r (c ∷ cs)) (rows_of (resolve_group ks (c ∷ cs)))
group_starts ks c cs =
    StartsWith-of_All (λ r. Memᴰ r (c ∷ cs)) (rows_of (resolve_group ks (c ∷ cs)))
      (resolve_group-perm ks (c ∷ cs))
      (resolve_group-All (λ r. Memᴰ r (c ∷ cs)) ks (c ∷ cs) (All-of_mem (c ∷ cs) (λ r m. m)))

-- The first key is the greatest value of a row.
first_key :
    (f : TieBreakRow → ℤ) (g : List TieBreakRow) (v : ℤ) (vs : List ℤ)
    → keys_desc f g ≡ v ∷ vs
    → ((r : TieBreakRow) × Memᴰ r g × (f r ≡ v)) × ((r : TieBreakRow) → Memᴰ r g → f r ≤ℤ v)
first_key f g v vs e =
    let keys = bucket_keys (buckets f g) in
    (
      bucket_keys-mem f g
          (sort_by-mem by_number_desc keys (subst (λ l. Memᴰ v l) (sym e) (Memᴰ.head refl))),
      λ r m.
          let k =
            subst (λ l. Memᴰ (f r) l) e (mem-sort_by by_number_desc keys (mem-bucket_keys f g m)) in
          elim (Memᴰ.cases_cons k) [
            | inl q ↦ subst (λ w. f r ≤ℤ w) q (omega arith)
            | inr z ↦ leb_ℤ→le (f r) v (
                All-mem (λ w. leb_ℤ w v ≡ true) vs
                  (subst (λ l. Ordered (λ a b. leb_ℤ b a ≡ true) l) e (keys_desc-Ordered f g)).0 z)
          ],
    )

keys_desc_some :
    (f : TieBreakRow → ℤ) (c : TieBreakRow) (cs : List TieBreakRow)
    → (v : ℤ) × (vs : List ℤ) × (keys_desc f (c ∷ cs) ≡ v ∷ vs)
keys_desc_some f c cs = go (keys_desc f (c ∷ cs)) refl
  where
    go :
        (l : List ℤ)
        → keys_desc f (c ∷ cs) ≡ l
        → (v : ℤ) × (vs : List ℤ) × (keys_desc f (c ∷ cs) ≡ v ∷ vs)
    go [] e = absurd (
        Memᴰ.not-nil (
          subst (λ l. Memᴰ (f c) l) e
            (mem-sort_by by_number_desc (bucket_keys (buckets f (c ∷ cs)))
              (mem-bucket_keys f (c ∷ cs) (Memᴰ.head refl)))))
    go (v ∷ vs) e = (v, vs, e)

-- If the rows of the first bucket start well, so does the whole.
placed_rows-StartsWith :
    (P : TieBreakRow → Type 0) (sub : ℤ → List Placed) (v : ℤ) (vs : List ℤ)
    → StartsWith P (rows_of (sub v))
    → StartsWith P (placed_rows sub (v ∷ vs))
unfolding placed_rows
placed_rows-StartsWith P sub v vs (r, rest, e, p) =
    (r, rest ++ placed_rows sub vs, ap (λ l. l ++ placed_rows sub vs) e, p)

-- The first bucket of a rule is what the rule leaves.
first_bucket :
    (k : Key) (c : TieBreakRow) (cs : List TieBreakRow) (v : ℤ) (vs : List ℤ)
    → has_data k (c ∷ cs) ≡ true
    → keys_desc (rule_number k) (c ∷ cs) ≡ v ∷ vs
    → bucket v (buckets (rule_number k) (c ∷ cs)) ≡ tie_breakers k (c ∷ cs)
first_bucket k c cs v vs d e =
    let ((r, mr, qr), bound) = first_key (rule_number k) (c ∷ cs) v vs e in
    let (b, mb, qb) = best_number-mem k c cs in
    let same : v ≡ best_number k (c ∷ cs) =
      ≤ℤ_antisymm v (best_number k (c ∷ cs))
        (subst (λ w. w ≤ℤ best_number k (c ∷ cs)) qr (rule_number-le-best_number k (c ∷ cs) mr))
        (subst (λ w. w ≤ℤ v) qb (bound b mb)) in
    bucket-buckets (rule_number k) v (c ∷ cs)
    ∙ keep_congr (λ x. eq_ℤ v (rule_number k x))
        (λ x. eq_ℤ (rule_number k x) (best_number k (c ∷ cs))) (c ∷ cs)
        (λ x m. eq_ℤ_sym v (rule_number k x) ∙ ap (eq_ℤ (rule_number k x)) same)
    ∙ sym (tie_breakers_kept k (c ∷ cs) d)

tie_breakers_skip :
    (k : Key) (cs : List TieBreakRow) → has_data k cs ≡ false → tie_breakers k cs ≡ cs
unfolding tie_breakers
tie_breakers_skip k cs h = rw h

shape :
    (k : Key) (c : TieBreakRow) (cs : List TieBreakRow)
    → (d : TieBreakRow) × (ds : List TieBreakRow) × (tie_breakers k (c ∷ cs) ≡ d ∷ ds)
shape k c cs = go (tie_breakers k (c ∷ cs)) refl
  where
    go :
        (l : List TieBreakRow)
        → tie_breakers k (c ∷ cs) ≡ l
        → (d : TieBreakRow) × (ds : List TieBreakRow) × (tie_breakers k (c ∷ cs) ≡ d ∷ ds)
    go [] e = absurd (
        Memᴰ.not-nil
          (subst (λ l. Memᴰ (tie_breakers_some k c cs).0 l) e (tie_breakers_some k c cs).1))
    go (d ∷ ds) e = (d, ds, e)

-- Whatever the chain leaves of a tied group, the order of the group starts with one of it.
resolve_group-first :
    (rules : List Rule) (c : TieBreakRow) (cs : List TieBreakRow) (applied : Option Rule)
    → StartsWith
        (λ r. Memᴰ r (decide rules (c ∷ cs) applied).candidates)
        (rows_of (resolve_group (keys_of rules) (c ∷ cs)))
unfolding decide
resolve_group-first [] c cs applied = group_starts [] c cs
resolve_group-first (shared ∷ rules) c cs applied =
    rw (decide_shared rules (c ∷ cs) applied) (group_starts (keys_of rules) c cs)
resolve_group-first (by k ∷ rules) c cs applied = elim (Bool-cases (length (c ∷ cs) == 1)) [
  | inl e ↦
      rw (decide_one (by k ∷ rules) (c ∷ cs) applied e).0 (group_starts (k ∷ keys_of rules) c cs)
  | inr e ↦
      let next = tie_breakers k (c ∷ cs) in
      let later = applied_after k next (c ∷ cs) applied in
      let wins =
        λ (l : List TieBreakRow) (r : TieBreakRow). Memᴰ r (decide rules l later).candidates in
      rw (decide_by k rules (c ∷ cs) applied e).0 (elim (Bool-cases (has_data k (c ∷ cs))) [
        | inr f ↦ rw (resolve_group_skip k (keys_of rules) (c ∷ cs) e f) (
            subst
              (λ l.
                StartsWith (λ r. Memᴰ r (decide rules l later).candidates)
                  (rows_of (resolve_group (keys_of rules) (c ∷ cs))))
              (sym (tie_breakers_skip k (c ∷ cs) f)) (resolve_group-first rules c cs later))
        | inl d ↦
            let (b, bs, q) = shape k c cs in
            let (v, vs, qv) = keys_desc_some (rule_number k) c cs in
            let ih : StartsWith (wins next) (rows_of (resolve_group (keys_of rules) next)) =
              subst (λ l. StartsWith (wins l) (rows_of (resolve_group (keys_of rules) l))) (sym q)
                (resolve_group-first rules b bs later) in
            rw (resolve_group_split k (keys_of rules) (c ∷ cs) e d, qv)
              (placed_rows-StartsWith (wins next)
                (sub_groups (keys_of rules) (rule_number k) (c ∷ cs)) v vs
                (subst (λ l. StartsWith (wins next) (rows_of (resolve_group (keys_of rules) l)))
                  (sym (first_bucket k c cs v vs d qv)) ih))
      ])
]

top_bucket :
    (scored : List TieBreakRow) (v : ℤ) (vs : List ℤ)
    → OneRowEach scored
    → keys_desc (λ r. r.score) scored ≡ v ∷ vs
    → bucket v (buckets (λ r. r.score) scored) ≡ top_candidates scored
unfolding top_candidates
top_bucket scored v vs one e =
    let ((r, mr, qr), bound) = first_key (λ r. r.score) scored v vs e in
    bucket-buckets (λ r. r.score) v scored
    ∙ keep_congr (λ x. eq_ℤ v x.score) _ scored
        (λ x m.
          bool_eq_of_iff _ _
            (λ t.
              let same : v ≡ x.score = (eq_ℤ_iff v x.score).0 t in
              (mem-keep _ scored (
                (top_candidates_iff scored x one).1
                  (m, λ y my. subst (λ w. y.score ≤ℤ w) same (bound y my)))).1)
            (λ t.
              let best = ((top_candidates_iff scored x one).0 (keep-mem _ m t)).1 in
              (eq_ℤ_iff v x.score).1
                (≤ℤ_antisymm v x.score (subst (λ w. w ≤ℤ x.score) qr (best r mr)) (bound x m))))

pub ordered_rows-first :
    (scored : List TieBreakRow) (rules : List Rule) (b : TieBreakRow) (bs : List TieBreakRow)
    → OneRowEach scored
    → top_candidates scored ≡ b ∷ bs
    → StartsWith
        (λ r. Memᴰ r (decide rules (top_candidates scored) none).candidates)
        (rows_of (ordered_rows scored rules))
ordered_rows-first [] rules b bs one e =
    absurd (Memᴰ.not-nil (empty_top b (subst (λ l. Memᴰ b l) (sym e) (Memᴰ.head refl))))
  where
    empty_top : (x : TieBreakRow) → Memᴰ x (top_candidates []) → Memᴰ x []
    empty_top x m = ((top_candidates_iff [] x (λ p q mp. absurd (Memᴰ.not-nil mp))).0 m).0
ordered_rows-first (c ∷ cs) rules b bs one e =
    let scored = c ∷ cs in
    let wins = λ (r : TieBreakRow). Memᴰ r (decide rules (top_candidates scored) none).candidates in
    let (v, vs, qv) = keys_desc_some (λ r. r.score) c cs in
    let start : StartsWith wins (rows_of (resolve_group (keys_of rules) (top_candidates scored))) =
      subst
        (λ l.
          StartsWith (λ r. Memᴰ r (decide rules l none).candidates)
            (rows_of (resolve_group (keys_of rules) l)))
        (sym e) (resolve_group-first rules b bs none) in
    rw (ordered_rows_eq scored rules, qv)
      (placed_rows-StartsWith wins (sub_groups (keys_of rules) (λ r. r.score) scored) v vs (
        subst (λ l. StartsWith wins (rows_of (resolve_group (keys_of rules) l)))
          (sym (top_bucket scored v vs one qv)) start))
