-- ===== src/Winner/Laws/Leader.antt =====
-- The first row of the table of a result (server/src/analytics/winner.js).
use mathlib.Core.List.{Mem, Nodup, Nodup-nil, Nodup-cons, Nodup-append}
use mathlib.Core.List.Perm
use mathlib.Core.Logic.{∥∥₁_elim}
use mathlib.Core.List.Memᴰ
use Prim.Native.Nat.{Ordering}
use Prim.Native.String.{String}
use fpl_radar.Prelude.{
  ℕ, ◌≤◌, ◌≡◌, refl, sym, ap, subst, ◌∙◌, ◌≢◌, Bool, true, false, Option, none, some, List, [], ◌∷◌,
  map, Bool-cases, Option-cases, inl, inr, Memᴰ, leb, ◌==◌, ==_iff, any, any_none, arith, All-mem,
  Ordered,
}
use fpl_radar.Prelude.Sort.{sort_by-first, sort_by-mem, first_is}
use fpl_radar.Eligibility.{Member, select_eligible}
use fpl_radar.Eligibility.Laws.{select_eligible-perm, eligible_member}
use fpl_radar.Ranking.{Position, resolve_positions}
use fpl_radar.Ranking.Order.{resolve_positions_complete, CountsFrom}
use fpl_radar.Winner.{
  GwInput, GwRow, provisional, rank_and_decide, eligible_of, scored_of, compute_gw_result,
  outcome_of,
}
use fpl_radar.Winner.Inputs.{Manager, map_get, map_has, row_by_entry}
use fpl_radar.Winner.Table.{ResultRow, Standing, result_row, row_before_at, table}
use fpl_radar.Winner.Laws.Result.{
  none_blocked, outcome_decided, blocked_iff, winners_top, first_position,
}
use fpl_radar.Winner.Laws.Places.{keyed, keyed_first, keyed_head}

is_first : Option ℕ → Bool
is_first none = false
is_first (some q) = leb q 1

leads : ResultRow → Bool
leads r = is_first r.resolved_position

any_mem :
    {A : Type 0} (f : A → Bool) {a : A} (xs : List A) → Memᴰ a xs → f a ≡ true → any f xs ≡ true
any_mem f {a} xs m h = elim (Bool-cases (any f xs)) [
  | inl e ↦ e
  | inr e ↦ let never = any_none f xs e m in cc
]

row_id :
    (i : GwInput) (rows : List (ℕ × GwRow)) (s : Standing) (id : ℕ)
    → (result_row i rows s id).entry_id ≡ id
unfolding result_row
row_id i rows s id = refl

row_wins :
    (i : GwInput) (rows : List (ℕ × GwRow)) (s : Standing) (id : ℕ)
    → Memᴰ id s.winners
    → (result_row i rows s id).is_winner ≡ true
unfolding result_row
row_wins i rows s id m = any_mem (λ w. w == id) s.winners m ((==_iff id id).1 refl)

-- No two of the entries are the same.
abbrev pub AllDistinct : List ℕ → Type 0
AllDistinct = Ordered (λ a b. a ≢ b)

AllDistinct-Nodup : (xs : List ℕ) → AllDistinct xs → Nodup xs
AllDistinct-Nodup [] h = Nodup-nil
AllDistinct-Nodup (x ∷ xs) h =
    Nodup-cons.1
      (λ m. ∥∥₁_elim m (hlevel) (λ k. All-mem (λ b. x ≢ b) xs h.0 k refl), AllDistinct-Nodup xs h.1)

-- No manager is eligible twice.
eligible_of-Nodup : (i : GwInput) → Nodup (map (λ m. m.entry_id) i.members) → Nodup (eligible_of i)
unfolding eligible_of
eligible_of-Nodup i d =
    (Nodup-append.0
      ((Perm.Nodup-iff (select_eligible-perm i.members (map_has (row_by_entry i)) i.event)).1 d)).0

outcome_positions :
    (i : GwInput)
    → outcome_of i ≡ rank_and_decide (scored_of i) i.group.tie_break_rules
    → (outcome_of i).positions ≡ keyed (resolve_positions (scored_of i) i.group.tie_break_rules)
unfolding rank_and_decide keyed
outcome_positions i e = ap (λ o. o.positions) e

module _ (locale_compare : String → String → Ordering) where
  -- A row that leads stands before one that does not, whatever their names are.
  leads_ahead :
      (managers : List (ℕ × Manager)) (a b : ResultRow)
      → leads a ≡ true
      → leads b ≡ false
      → (row_before_at locale_compare managers a.resolved_position b.resolved_position a b ≡ true)
        × (row_before_at locale_compare managers b.resolved_position a.resolved_position b a
            ≡ false)
  unfolding leads is_first
  leads_ahead managers a b = go a.resolved_position b.resolved_position
    where
      go :
          (x y : Option ℕ)
          → is_first x ≡ true
          → is_first y ≡ false
          → (row_before_at locale_compare managers x y a b ≡ true)
            × (row_before_at locale_compare managers y x b a ≡ false)
      go none y h k = cc
      go (some p) none h k = (refl, refl)
      go (some p) (some q) h k = (ground arith, ground arith)

  table_leader :
      (i : GwInput) (rows : List (ℕ × GwRow)) (s : Standing)
      → any leads (map (λ m. result_row i rows s m.entry_id) i.members) ≡ true
      → (r : ResultRow) × (rest : List ResultRow) × (table locale_compare i rows s ≡ r ∷ rest)
        × (leads r ≡ true)
        × Memᴰ r (map (λ m. result_row i rows s m.entry_id) i.members)
  unfolding table
  table_leader i rows s h =
      let before = λ (a b : ResultRow).
        row_before_at locale_compare i.managers a.resolved_position b.resolved_position a b in
      go (table locale_compare i rows s) refl
        (sort_by-first before leads (leads_ahead i.managers) _ h)
    where
      go :
          (t : List ResultRow)
          → table locale_compare i rows s ≡ t
          → first_is leads t ≡ true
          → (r : ResultRow) × (rest : List ResultRow) × (table locale_compare i rows s ≡ r ∷ rest)
            × (leads r ≡ true)
            × Memᴰ r (map (λ m. result_row i rows s m.entry_id) i.members)
      go [] e k = cc
      go (r ∷ rest) e k = (
        r,
        rest,
        e,
        k,
        sort_by-mem
            (λ a b.
              row_before_at locale_compare i.managers a.resolved_position b.resolved_position a b)
            _ (subst (λ l. Memᴰ r l) (sym e) (Memᴰ.head refl)),
      )

  -- The row of a member who leads, by his position.
  leads_place :
      (i : GwInput) (rows : List (ℕ × GwRow)) (s : Standing) (id : ℕ)
      → leads (result_row i rows s id) ≡ true
      → (q : Position) × (map_get id s.positions ≡ some q) × (q.resolved_position ≤ 1)
  unfolding result_row leads is_first
  leads_place i rows s id h = elim (Option-cases (map_get id s.positions)) [
    | inl e ↦ absurd (cc (rw e at h))
    | inr (q, e) ↦ let k = rw e at h in (q, e, ground arith)
  ]

  place_leads :
      (i : GwInput) (rows : List (ℕ × GwRow)) (s : Standing) (id : ℕ) (q : Position)
      → map_get id s.positions ≡ some q
      → q.resolved_position ≡ 1
      → (leads (result_row i rows s id) ≡ true)
        × ((result_row i rows s id).resolved_position ≡ some 1)
  unfolding result_row leads is_first
  place_leads i rows s id q e one = (rw e (rw one refl), rw e (ap some one))

  -- The first row of a table whose first position is that of a winner among the members.
  table_first :
      (i : GwInput) (rows : List (ℕ × GwRow)) (s : Standing) (p : Position) (rest : List Position)
      (m : Member)
      → s.positions ≡ keyed (p ∷ rest)
      → CountsFrom 0 (p ∷ rest)
      → ¬ Mem p.entry_id (map (λ x. x.entry_id) rest)
      → Memᴰ p.entry_id s.winners
      → Memᴰ m i.members
      → m.entry_id ≡ p.entry_id
      → (r : ResultRow) × (others : List ResultRow) × (table locale_compare i rows s ≡ r ∷ others)
        × (r.entry_id ≡ p.entry_id)
        × (r.is_winner ≡ true)
        × (r.resolved_position ≡ some 1)
  table_first i rows s p rest m ps c once wins mem at =
      let shown = λ (n : Member). result_row i rows s n.entry_id in
      let found : map_get p.entry_id s.positions ≡ some p =
        ap (map_get p.entry_id) ps ∙ keyed_head p rest once in
      let leading : any leads (map shown i.members) ≡ true =
        any_mem leads (map shown i.members) (Memᴰ.map shown mem)
          (place_leads i rows s m.entry_id p (ap (λ id. map_get id s.positions) at ∙ found)
            c.0).0 in
      let (r, others, shape, first, mr) = table_leader i rows s leading in
      let (n, _, row) = Memᴰ.of_map shown i.members mr in
      let (q, hq, q_first) = leads_place i rows s n.entry_id (ap leads row ∙ first) in
      let same : p.entry_id ≡ n.entry_id =
        keyed_first n.entry_id p rest q c (ap (map_get n.entry_id) (sym ps) ∙ hq) q_first in
      let place =
        (place_leads i rows s n.entry_id p (ap (λ id. map_get id s.positions) (sym same) ∙ found)
          c.0).1 in
      (
        r,
        others,
        shape,
        ap (λ x. x.entry_id) (sym row) ∙ row_id i rows s n.entry_id ∙ sym same,
        ap (λ x. x.is_winner) (sym row)
            ∙ row_wins i rows s n.entry_id (subst (λ id. Memᴰ id s.winners) same wins),
        ap (λ x. x.resolved_position) (sym row) ∙ place,
      )

  -- With every eligible member reconciled, at least one of them, and no manager twice among the
  -- members, the first row of the table is that of a winner, is marked as one, and has position 1.
  pub first_is_winner :
      (i : GwInput)
      → AllDistinct (map (λ m. m.entry_id) i.members)
      → (compute_gw_result locale_compare i).status ≡ provisional
      → eligible_of i ≢ []
      → (r : ResultRow) × (rest : List ResultRow) × ((compute_gw_result locale_compare i).rows
          ≡ r ∷ rest)
        × Memᴰ r.entry_id (compute_gw_result locale_compare i).winners
        × (r.is_winner ≡ true)
        × (r.resolved_position ≡ some 1)
  unfolding compute_gw_result eligible_of
  first_is_winner i d e n =
      let all_rows = (blocked_iff locale_compare i).0.0 e in
      let (p, rest, q, m, one) = first_position locale_compare i e n in
      let (at_all, _, tops, _) = winners_top locale_compare i e n in
      let (c, mc, ec, _, _) = tops p.entry_id m in
      let (member, mm, em, _) = eligible_member i.members (map_has (row_by_entry i)) i.event (
        subst (λ ids. Memᴰ p.entry_id ids) at_all
          (subst (λ id. Memᴰ id (map (λ x. x.entry_id) (scored_of i))) ec
            (Memᴰ.map (λ x. x.entry_id) mc))) in
      let (order, counts) = resolve_positions_complete (scored_of i) i.group.tie_break_rules in
      let distinct = Nodup-cons.0 (
        subst (λ ps. Nodup (map (λ x. x.entry_id) ps)) q
          ((Perm.Nodup-iff order).1
            (subst Nodup (sym at_all) (eligible_of-Nodup i (AllDistinct-Nodup _ d))))) in
      let standing : Standing = record {
        ranks = (outcome_of i).ranks;
        positions = (outcome_of i).positions;
        winners = (outcome_of i).winners;
        ineligible = (select_eligible i.members (map_has (row_by_entry i)) i.event).ineligible;
      } in
      let (r, others, shape, same, win, place) =
        table_first i (row_by_entry i) standing p rest member
          (outcome_positions i (outcome_decided i ((none_blocked i).1 all_rows) n) ∙ ap keyed q)
          (subst (CountsFrom 0) q counts) distinct.0 m mm em in
      (
        r,
        others,
        shape,
        subst (λ id. Memᴰ id (compute_gw_result locale_compare i).winners) (sym same) m,
        win,
        place,
      )
