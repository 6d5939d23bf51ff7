-- ===== src/Winner/Laws/Result.antt =====
-- The result as a whole: blocked or decided, its winners, its score, and the first row of its table.
use mathlib.Core.List.Memᴰ
use Prim.Native.Nat.{Ordering}
use Prim.Native.String.{String}
use fpl_radar.Prelude.{
  ℕ, ◌<◌, ◌≡◌, refl, sym, ap, subst, ◌∙◌, ◌↔◌, ◌≢◌, true, false, none, some, List, [], ◌∷◌, map,
  Bool-cases, inl, inr, Memᴰ, length, leb, length-map,
}
use fpl_radar.Prelude.Int.{◌≤ℤ◌, ≤ℤ_antisymm}
use fpl_radar.Prelude.Sort.{mem-sort_by, sort_by-mem, length-sort_by}
use fpl_radar.Constants.{is_reconciled}
use fpl_radar.TieBreak.{TieBreakRow, Rule, shared}
use fpl_radar.Ranking.{Position, resolve_positions}
use fpl_radar.Ranking.Order.{resolve_positions-ids, resolve_positions_complete, CountsFrom}
use fpl_radar.Winner.{
  GwInput, GwRow, provisional, blocked, rank_and_decide, is_empty, eligible_of, blocked_of,
  scored_of, outcome_of, compute_gw_result, first_score,
}
use fpl_radar.Winner.Inputs.{row_by_entry, map_get}
use fpl_radar.Winner.Decide.{decide, applied_at_end, top_candidates, ids_of}
use fpl_radar.Winner.Laws.Chain.{decide_subset, decide_some, applied_at_end-shared}
use fpl_radar.Winner.Laws.Top.{
  OneRowEach, top_candidates_iff, top_row, tie_rows-OneRowEach, tie_rows-ids, blocked_by_none,
}
use fpl_radar.Winner.Laws.First.{ordered_rows-first}

pub none_blocked :
    (i : GwInput)
    → (blocked_of i ≡ []) ↔ (
        (id : ℕ)
        → Memᴰ id (eligible_of i)
        → (r : GwRow) × (map_get id (row_by_entry i) ≡ some r)
          × (is_reconciled r.reconciliation_status ≡ true))
unfolding blocked_of
none_blocked i = blocked_by_none (row_by_entry i) (eligible_of i)

is_empty_iff : {A : Type 0} (xs : List A) → (is_empty xs ≡ true) ↔ (xs ≡ [])
is_empty_iff [] = (λ e. refl, λ e. refl)
is_empty_iff (x ∷ xs) = (λ e. cc, λ e. cc)

pub outcome_decided :
    (i : GwInput)
    → blocked_of i ≡ []
    → eligible_of i ≢ []
    → outcome_of i ≡ rank_and_decide (scored_of i) i.group.tie_break_rules
unfolding outcome_of
outcome_decided i b e = elim (Bool-cases (is_empty (eligible_of i))) [
  | inl t ↦ absurd (e ((is_empty_iff (eligible_of i)).0 t))
  | inr f ↦ rw ((is_empty_iff (blocked_of i)).1 b, f) refl
]

outcome_blocked :
    (i : GwInput)
    → is_empty (blocked_of i) ≡ false
    → ((outcome_of i).winners ≡ [])
      × ((outcome_of i).winning_score ≡ none)
      × ((outcome_of i).applied ≡ none)
unfolding outcome_of
outcome_blocked i h = (rw h, rw h, rw h)

-- What the decision of a non-empty list of scored rows gives.
decided_winners :
    (scored : List TieBreakRow) (rules : List Rule) {b : TieBreakRow}
    → OneRowEach scored
    → Memᴰ b scored
    → ((w : ℕ) × Memᴰ w (rank_and_decide scored rules).winners)
      × ((w : ℕ)
          → Memᴰ w (rank_and_decide scored rules).winners
          → (c : TieBreakRow) × Memᴰ c scored
            × (c.entry_id ≡ w)
            × ((r : TieBreakRow) → Memᴰ r scored → r.score ≤ℤ c.score)
            × ((rank_and_decide scored rules).winning_score ≡ some c.score))
      × (((rank_and_decide scored rules).applied ≡ some shared)
          ↔ (1 < length (rank_and_decide scored rules).winners))
unfolding rank_and_decide
decided_winners [] rules one m = absurd (Memᴰ.not-nil m)
decided_winners (s ∷ ss) rules one m =
    let scored = s ∷ ss in
    let tops = top_candidates scored in
    let ds = (decide rules tops none).candidates in
    let (t, mt, ht) = top_row s ss in
    let topped = (top_candidates_iff scored t one).1 (mt, ht) in
    let (w, mw) = decide_some rules tops none topped in
    (
      (w.entry_id, mem-sort_by leb (ids_of ds) (Memᴰ.map (λ c. c.entry_id) mw)),
      λ v mv.
          let (c, mc, e) = Memᴰ.of_map (λ c. c.entry_id) ds (sort_by-mem leb (ids_of ds) mv) in
          let top = (top_candidates_iff scored c one).0 (decide_subset rules tops none mc) in
          (c, top.0, e, top.1, first_top scored one top.0 top.1 topped),
      subst (λ (n : ℕ). (applied_at_end (decide rules tops none) ≡ some shared) ↔ (1 < n))
          (sym (length-sort_by leb (ids_of ds) ∙ length-map (λ c. c.entry_id) ds))
          (applied_at_end-shared rules tops topped),
    )
  where
    first_top :
        (scored : List TieBreakRow) {c t : TieBreakRow}
        → OneRowEach scored
        → Memᴰ c scored
        → ((r : TieBreakRow) → Memᴰ r scored → r.score ≤ℤ c.score)
        → Memᴰ t (top_candidates scored)
        → first_score (top_candidates scored) ≡ some c.score
    first_top scored {c} {t} one mc hc mt = go (top_candidates scored) refl
      where
        go :
            (l : List TieBreakRow)
            → top_candidates scored ≡ l
            → first_score (top_candidates scored) ≡ some c.score
        go [] e = absurd (Memᴰ.not-nil (subst (λ l. Memᴰ t l) e mt))
        go (d ∷ l) e =
            let top =
              (top_candidates_iff scored d one).0
                (subst (λ l. Memᴰ d l) (sym e) (Memᴰ.head refl)) in
            ap first_score e ∙ ap some (≤ℤ_antisymm d.score c.score (hc d top.0) (top.1 c mc))

scored-OneRowEach : (i : GwInput) → OneRowEach (scored_of i)
unfolding scored_of
scored-OneRowEach i = tie_rows-OneRowEach i (row_by_entry i) (eligible_of i)

abbrev EveryRow : GwInput → Type 0
EveryRow i =
    (id : ℕ)
    → Memᴰ id (eligible_of i)
    → (r : GwRow) × (map_get id (row_by_entry i) ≡ some r)
      × (is_reconciled r.reconciliation_status ≡ true)

pub scored_ids : (i : GwInput) → EveryRow i → map (λ c. c.entry_id) (scored_of i) ≡ eligible_of i
unfolding scored_of
scored_ids i h =
    tie_rows-ids i (row_by_entry i) (eligible_of i) (λ id m. let (r, e, _) = h id m in (r, e))

scored_some :
    (i : GwInput) → eligible_of i ≢ [] → EveryRow i → (c : TieBreakRow) × Memᴰ c (scored_of i)
scored_some i n h = go (scored_of i) refl
  where
    go : (l : List TieBreakRow) → scored_of i ≡ l → (c : TieBreakRow) × Memᴰ c (scored_of i)
    go [] e = absurd (n (sym (scored_ids i h) ∙ ap (map (λ c. c.entry_id)) e))
    go (c ∷ l) e = (c, subst (λ xs. Memᴰ c xs) (sym e) (Memᴰ.head refl))

-- The first row of the table, over any scored rows.
decided_first :
    (scored : List TieBreakRow) (rules : List Rule) {b : TieBreakRow}
    → OneRowEach scored
    → Memᴰ b scored
    → (p : Position) × (rest : List Position) × (resolve_positions scored rules ≡ p ∷ rest)
      × Memᴰ p.entry_id (rank_and_decide scored rules).winners
      × (p.resolved_position ≡ 1)
unfolding rank_and_decide
decided_first [] rules one m = absurd (Memᴰ.not-nil m)
decided_first (s ∷ ss) rules one m =
    let scored = s ∷ ss in
    let (t, mt, ht) = top_row s ss in
    let topped = (top_candidates_iff scored t one).1 (mt, ht) in
    let (d, ds, qd) = shape_of_mem (top_candidates scored) topped in
    let (r, rest, q, mr) = ordered_rows-first scored rules d ds one qd in
    head_position (resolve_positions scored rules)
      (resolve_positions-ids scored rules ∙ ap (map (λ x. x.entry_id)) q)
      (resolve_positions_complete scored rules).1
      (mem-sort_by leb (ids_of (decide rules (top_candidates scored) none).candidates)
        (Memᴰ.map (λ c. c.entry_id) mr))
  where
    shape_of_mem :
        (l : List TieBreakRow) {x : TieBreakRow}
        → Memᴰ x l
        → (d : TieBreakRow) × (ds : List TieBreakRow) × (l ≡ d ∷ ds)
    shape_of_mem [] k = absurd (Memᴰ.not-nil k)
    shape_of_mem (d ∷ ds) k = (d, ds, refl)

    head_position :
        (ps : List Position) {id : ℕ} {ids ws : List ℕ}
        → map (λ p. p.entry_id) ps ≡ id ∷ ids
        → CountsFrom 0 ps
        → Memᴰ id ws
        → (p : Position) × (rest : List Position) × (ps ≡ p ∷ rest)
          × Memᴰ p.entry_id ws
          × (p.resolved_position ≡ 1)
    head_position [] e k mw = cc
    head_position (p ∷ rest) {id} {ids} {ws} e k mw =
        (p, rest, refl, subst (λ x. Memᴰ x ws) (sym (head_eq e)) mw, k.0)
      where
        head_eq : {a b : ℕ} {us vs : List ℕ} → a ∷ us ≡ b ∷ vs → a ≡ b
        head_eq h = cc

module _ (locale_compare : String → String → Ordering) where
  -- A result is PROVISIONAL exactly when every eligible member has a reconciled row; otherwise it is
  -- BLOCKED, and then it names no winner, no score and no rule.
  pub blocked_iff :
      (i : GwInput)
      → (((compute_gw_result locale_compare i).status ≡ provisional) ↔ (
          (id : ℕ)
          → Memᴰ id (eligible_of i)
          → (r : GwRow) × (map_get id (row_by_entry i) ≡ some r)
            × (is_reconciled r.reconciliation_status ≡ true)))
        × ((compute_gw_result locale_compare i).status ≡ blocked
            → ((compute_gw_result locale_compare i).winners ≡ [])
              × ((compute_gw_result locale_compare i).winning_score ≡ none)
              × ((compute_gw_result locale_compare i).tie_break_applied ≡ none))
  unfolding compute_gw_result outcome_of blocked_of
  blocked_iff i = (
    (
      λ e. elim (Bool-cases (is_empty (blocked_of i))) [
        | inl t ↦ (none_blocked i).0 ((is_empty_iff (blocked_of i)).0 t)
        | inr f ↦ absurd (cc (rw f at e))
      ],
      λ h. rw ((is_empty_iff (blocked_of i)).1 ((none_blocked i).1 h)) refl,
    ),
    λ e. elim (Bool-cases (is_empty (blocked_of i))) [
      | inl t ↦ absurd (cc (rw t at e))
      | inr f ↦ outcome_blocked i f
    ],
  )

  -- With every eligible member reconciled and at least one of them, somebody wins; each winner is an
  -- eligible member whose score no other eligible member exceeds, and that score is the winning
  -- score; and the deciding rule is SHARED exactly when several win.
  pub winners_top :
      (i : GwInput)
      → (compute_gw_result locale_compare i).status ≡ provisional
      → eligible_of i ≢ []
      → (map (λ c. c.entry_id) (scored_of i) ≡ eligible_of i)
        × ((w : ℕ) × Memᴰ w (compute_gw_result locale_compare i).winners)
        × ((w : ℕ)
            → Memᴰ w (compute_gw_result locale_compare i).winners
            → (c : TieBreakRow) × Memᴰ c (scored_of i)
              × (c.entry_id ≡ w)
              × ((r : TieBreakRow) → Memᴰ r (scored_of i) → r.score ≤ℤ c.score)
              × ((compute_gw_result locale_compare i).winning_score ≡ some c.score))
        × (((compute_gw_result locale_compare i).tie_break_applied ≡ some shared)
            ↔ (1 < length (compute_gw_result locale_compare i).winners))
  unfolding compute_gw_result
  winners_top i e n =
      let all_rows = (blocked_iff i).0.0 e in
      let (c, mc) = scored_some i n all_rows in
      let (a, b, d) =
        decided_winners (scored_of i) i.group.tie_break_rules (scored-OneRowEach i) mc in
      (
        scored_ids i all_rows,
        rw (outcome_decided i ((none_blocked i).1 all_rows) n) a,
        rw (outcome_decided i ((none_blocked i).1 all_rows) n) b,
        rw (outcome_decided i ((none_blocked i).1 all_rows) n) d,
      )

  -- With every eligible member reconciled and at least one of them, the first position is that of a
  -- winner.
  pub first_position :
      (i : GwInput)
      → (compute_gw_result locale_compare i).status ≡ provisional
      → eligible_of i ≢ []
      → (p : Position) × (rest : List Position) × (resolve_positions
            (scored_of i)
            i.group.tie_break_rules
          ≡ p ∷ rest)
        × Memᴰ p.entry_id (compute_gw_result locale_compare i).winners
        × (p.resolved_position ≡ 1)
  unfolding compute_gw_result
  first_position i e n =
      let all_rows = (blocked_iff i).0.0 e in
      let (c, mc) = scored_some i n all_rows in
      let (p, rest, q, m, one) =
        decided_first (scored_of i) i.group.tie_break_rules (scored-OneRowEach i) mc in
      (p, rest, q, rw (outcome_decided i ((none_blocked i).1 all_rows) n) m, one)
