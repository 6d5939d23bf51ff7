-- ===== src/Winner/Laws/Top.antt =====
-- The candidates: the rows with rank 1 are those with the top score.
use mathlib.Core.List.Memᴰ
use mathlib.Core.Path.{ap₂}
use fpl_radar.Prelude.{
  ℕ, ◌≡◌, refl, sym, ap, subst, ◌∙◌, ◌↔◌, true, some, List, [], ◌∷◌, Bool-cases, inl, inr, Memᴰ,
  map, mem-keep, keep-mem, ◌==◌, ==_iff, arith, Option-cases,
}
use fpl_radar.Prelude.Int.{◌≤ℤ◌, ≤ℤ_total}
use fpl_radar.Constants.{is_reconciled}
use fpl_radar.TieBreak.{TieBreakRow}
use fpl_radar.Ranking.{rank_of, ranks_from, competition_ranks}
use fpl_radar.Ranking.Order.{rank_of-one}
use fpl_radar.Winner.Inputs.{GwRow, GwInput, map_get, tie_row, tie_rows, blocked_by}
use fpl_radar.Winner.Decide.{top_candidates, is_rank_one}

-- One row to an entry id.
abbrev pub OneRowEach : List TieBreakRow → Type 0
OneRowEach scored =
    (a b : TieBreakRow) → Memᴰ a scored → Memᴰ b scored → a.entry_id ≡ b.entry_id → a ≡ b

-- A rank that the `Map` holds for an id is the rank of a row with that id.
ranks_found :
    (scores ss : List TieBreakRow) (id : ℕ) {v : ℕ}
    → map_get id (ranks_from scores ss) ≡ some v
    → (d : TieBreakRow) × Memᴰ d ss × (d.entry_id ≡ id) × (v ≡ rank_of scores d.score)
unfolding ranks_from map_get
ranks_found scores [] id e = cc
ranks_found scores (s ∷ ss) id {v} e = elim (Option-cases (map_get id (ranks_from scores ss))) [
  | inr (w, q) ↦
      let (d, md, qd, vd) = ranks_found scores ss id q in
      (d, Memᴰ.tail md, qd, cc (vd, rw (q, map_get) at e))
  | inl q ↦
      let e' = rw (q, map_get) at e in
      elim (Bool-cases (s.entry_id == id)) [
        | inl t ↦ (s, Memᴰ.head refl, (==_iff s.entry_id id).0 t, cc (rw t at e'))
        | inr f ↦ absurd (cc (rw f at e'))
      ]
]

ranks_hold :
    (scores ss : List TieBreakRow) {c : TieBreakRow}
    → Memᴰ c ss
    → (v : ℕ) × (map_get c.entry_id (ranks_from scores ss) ≡ some v)
unfolding ranks_from map_get
ranks_hold scores [] m = absurd (Memᴰ.not-nil m)
ranks_hold scores (s ∷ ss) {c} m = elim (Option-cases (map_get c.entry_id (ranks_from scores ss))) [
  | inr (w, q) ↦ (w, rw (q, map_get) refl)
  | inl q ↦ elim (Memᴰ.cases_cons m) [
    | inl e ↦ (
      rank_of scores s.score,
      rw (q, map_get) (rw ((==_iff s.entry_id c.entry_id).1 (ap (λ x. x.entry_id) (sym e))) refl),
    )
    | inr m' ↦ let (v, e) = ranks_hold scores ss m' in absurd (cc (q, e))
  ]
]

map_get-competition_ranks :
    (scored : List TieBreakRow) {c : TieBreakRow}
    → OneRowEach scored
    → Memᴰ c scored
    → map_get c.entry_id (competition_ranks scored) ≡ some (rank_of scored c.score)
unfolding competition_ranks
map_get-competition_ranks scored {c} one m =
    let (v, e) = ranks_hold scored scored m in
    let (d, md, qd, vd) = ranks_found scored scored c.entry_id e in
    e ∙ ap (λ x. some x) (vd ∙ ap (λ x. rank_of scored x.score) (one d c md m qd))

rank_one_test :
    (scored : List TieBreakRow) {c : TieBreakRow}
    → OneRowEach scored
    → Memᴰ c scored
    → (is_rank_one (map_get c.entry_id (competition_ranks scored)) ≡ true)
      ↔ (rank_of scored c.score ≡ 1)
rank_one_test scored {c} one m =
    rw (map_get-competition_ranks scored one m) (==_iff (rank_of scored c.score) 1)

-- The candidates are exactly the rows whose score no other row exceeds.
pub top_candidates_iff :
    (scored : List TieBreakRow) (c : TieBreakRow)
    → OneRowEach scored
    → Memᴰ c (top_candidates scored)
      ↔ (Memᴰ c scored × ((r : TieBreakRow) → Memᴰ r scored → r.score ≤ℤ c.score))
unfolding top_candidates
top_candidates_iff scored c one = (
  λ k.
      let h =
        mem-keep (λ r. is_rank_one (map_get r.entry_id (competition_ranks scored))) scored k in
      (h.0, (rank_of-one scored c.score).0 ((rank_one_test scored one h.0).0 h.1)),
  λ p.
      keep-mem (λ r. is_rank_one (map_get r.entry_id (competition_ranks scored))) p.0
        ((rank_one_test scored one p.0).1 ((rank_of-one scored c.score).1 p.1)),
)

-- Some row has a score that no other row exceeds.
pub top_row :
    (b : TieBreakRow) (scored : List TieBreakRow)
    → (c : TieBreakRow) × Memᴰ c (b ∷ scored)
      × ((r : TieBreakRow) → Memᴰ r (b ∷ scored) → r.score ≤ℤ c.score)
top_row b [] = (
  b,
  Memᴰ.head refl,
  λ r m. elim (Memᴰ.cases_cons m) [
    | inl e ↦ subst (λ x. r.score ≤ℤ x.score) e (omega arith)
    | inr z ↦ absurd (Memᴰ.not-nil z)
  ],
)
top_row b (s ∷ ss) =
    let (c, mc, h) = top_row s ss in
    elim (≤ℤ_total b.score c.score) [
      | inl le ↦ (
        c,
        Memᴰ.tail mc,
        λ r m. elim (Memᴰ.cases_cons m) [
          | inl e ↦ subst (λ x. x.score ≤ℤ c.score) (sym e) le
          | inr z ↦ h r z
        ],
      )
      | inr ge ↦ (
        b,
        Memᴰ.head refl,
        λ r m. elim (Memᴰ.cases_cons m) [
          | inl e ↦ subst (λ x. x.score ≤ℤ b.score) (sym e) (omega arith)
          | inr z ↦ omega (arith, h r z)
        ],
      )
    ]

-- Each scored row is the one row of its entry, read for the group.
tie_rows-mem :
    (i : GwInput) (rows : List (ℕ × GwRow)) (ids : List ℕ) {c : TieBreakRow}
    → Memᴰ c (tie_rows i rows ids)
    → (r : GwRow) × Memᴰ c.entry_id ids
      × (map_get c.entry_id rows ≡ some r)
      × (c ≡ tie_row i c.entry_id r)
unfolding tie_rows
tie_rows-mem i rows [] m = absurd (Memᴰ.not-nil m)
tie_rows-mem i rows (id ∷ ids) {c} m = elim (Option-cases (map_get id rows)) [
  | inl e ↦
      let (r, mr, q, t) = tie_rows-mem i rows ids (rw (e, tie_rows) at m) in (r, Memᴰ.tail mr, q, t)
  | inr (s, e) ↦ elim (Memᴰ.cases_cons (rw (e, tie_rows) at m)) [
    | inl q ↦
        let same : c.entry_id ≡ id = ap (λ x. x.entry_id) q in
        (
          s,
          Memᴰ.head same,
          ap (λ k. map_get k rows) same ∙ e,
          q ∙ ap (λ k. tie_row i k s) (sym same),
        )
    | inr m' ↦ let (r, mr, q, t) = tie_rows-mem i rows ids m' in (r, Memᴰ.tail mr, q, t)
  ]
]

pub tie_rows-OneRowEach :
    (i : GwInput) (rows : List (ℕ × GwRow)) (ids : List ℕ) → OneRowEach (tie_rows i rows ids)
tie_rows-OneRowEach i rows ids a b ma mb e =
    let (r, _, qa, ta) = tie_rows-mem i rows ids ma in
    let (s, _, qb, tb) = tie_rows-mem i rows ids mb in
    let same : r ≡ s = some_inj (sym qa ∙ ap (λ k. map_get k rows) e ∙ qb) in
    ta ∙ ap₂ (tie_row i) e same ∙ sym tb
  where
    some_inj : {x y : GwRow} → some x ≡ some y → x ≡ y
    some_inj p = cc

-- A scored row belongs to an eligible member.
tie_rows-eligible :
    (i : GwInput) (rows : List (ℕ × GwRow)) (ids : List ℕ) {c : TieBreakRow}
    → Memᴰ c (tie_rows i rows ids)
    → Memᴰ c.entry_id ids
tie_rows-eligible i rows ids m = (tie_rows-mem i rows ids m).1

-- Nobody blocks exactly when every eligible member has a reconciled row.
pub blocked_by_none :
    (rows : List (ℕ × GwRow)) (ids : List ℕ)
    → (blocked_by rows ids ≡ []) ↔ (
        (id : ℕ)
        → Memᴰ id ids
        → (r : GwRow) × (map_get id rows ≡ some r) × (is_reconciled r.reconciliation_status ≡ true))
unfolding blocked_by
blocked_by_none rows [] = (λ e id m. absurd (Memᴰ.not-nil m), λ h. refl)
blocked_by_none rows (j ∷ ids) = elim (Option-cases (map_get j rows)) [
  | inl e ↦ (
    λ q. absurd (cc (rw (e, blocked_by) at q)),
    λ h. let (r, p, _) = h j (Memᴰ.head refl) in absurd (cc (e, p)),
  )
  | inr (r, e) ↦ elim (Bool-cases (is_reconciled r.reconciliation_status)) [
    | inl t ↦ (
      λ q id m. elim (Memᴰ.cases_cons m) [
        | inl s ↦ (r, ap (λ k. map_get k rows) s ∙ e, t)
        | inr z ↦ (blocked_by_none rows ids).0 (rw (e, t) at q) id z
      ],
      λ h. rw (e, blocked_by) (rw t ((blocked_by_none rows ids).1 (λ id z. h id (Memᴰ.tail z)))),
    )
    | inr f ↦ (
      λ q. absurd (cc (rw f at (rw (e, blocked_by) at q))),
      λ h.
          let (s, p, t) = h j (Memᴰ.head refl) in
          absurd
            (cc (f, t, ap (λ x. is_reconciled x.reconciliation_status) (some_inj (sym e ∙ p)))),
    )
  ]
]
  where
    some_inj : {x y : GwRow} → some x ≡ some y → x ≡ y
    some_inj p = cc

-- Where every eligible member has a row, the scored rows are those of the eligible members, in order.
pub tie_rows-ids :
    (i : GwInput) (rows : List (ℕ × GwRow)) (ids : List ℕ)
    → ((id : ℕ) → Memᴰ id ids → (r : GwRow) × (map_get id rows ≡ some r))
    → map (λ c. c.entry_id) (tie_rows i rows ids) ≡ ids
unfolding tie_rows
tie_rows-ids i rows [] h = refl
tie_rows-ids i rows (j ∷ ids) h =
    let (r, e) = h j (Memᴰ.head refl) in
    rw (e, tie_rows) (ap (◌∷◌ j) (tie_rows-ids i rows ids (λ id m. h id (Memᴰ.tail m))))
