-- ===== src/Reconcile/Before.antt =====
-- The total that a row of a season is compared with (server/src/analytics/reconcile.js).
use mathlib.Core.List.Memᴰ
use fpl_radar.Prelude.{
  ℕ, zero, suc, ◌≤◌, ◌≡◌, sym, ap, subst, ◌∙◌, ◌⊎◌, inl, inr, true, some, List, [], ◌∷◌, map, Memᴰ,
  Bool-cases, Option-cases, arith, leb, ◌==◌, ==_iff, All-mem, Ordered,
}
use fpl_radar.Prelude.Int.{ℤ, pos}
use fpl_radar.Prelude.Sort.{sort_by, sort_by-mem, mem-sort_by, sort_by-Ordered}
use fpl_radar.Winner.Inputs.{map_get}
use fpl_radar.Reconcile.{
  HistoryRow, Evaluated, evaluate, evaluate_all, first_event, event_entry, before, total_of,
}

-- What stands before a gameweek in a history: nothing before the first one, and otherwise the total of
-- the gameweek just before it.
abbrev pub IsBefore : List HistoryRow → ℕ → ℤ → Type 0
IsBefore history event prev =
    ((prev ≡ pos 0) × ((x : HistoryRow) → Memᴰ x history → event ≤ x.event))
    ⊎ ((x : HistoryRow) × Memᴰ x history × (suc x.event ≡ event) × (x.total_points ≡ prev))

some_eq : {A : Type 0} {a b : A} → some a ≡ some b → a ≡ b
some_eq e = cc

found_row :
    (k : ℕ) (rows : List HistoryRow) (x : HistoryRow)
    → map_get k (map event_entry rows) ≡ some x
    → Memᴰ x rows × (x.event ≡ k)
unfolding map_get
found_row k [] x h = cc
found_row k (r ∷ rows) x h = elim (Option-cases (map_get k (map event_entry rows))) [
  | inr (w, e) ↦
      let same : w ≡ x = some_eq (rw e at h) in
      let (m, q) = found_row k rows x (e ∙ ap some same) in (Memᴰ.tail m, q)
  | inl e ↦ elim (Bool-cases (r.event == k)) [
    | inr f ↦ absurd (cc (rw (e, f) at h))
    | inl f ↦
        let same : r ≡ x = some_eq (rw (e, f) at h) in
        (Memᴰ.head (sym same), ap (λ z. z.event) (sym same) ∙ (==_iff r.event k).0 f)
  ]
]

before_row :
    (event : ℕ) (rows : List HistoryRow) (prev : ℤ)
    → total_of (before event (map event_entry rows)) ≡ some prev
    → (x : HistoryRow) × Memᴰ x rows × (suc x.event ≡ event) × (x.total_points ≡ prev)
before_row zero rows prev h = cc
before_row (suc k) rows prev h = elim (Option-cases (map_get k (map event_entry rows))) [
  | inl e ↦ absurd (cc (rw e at h))
  | inr (x, e) ↦ let (m, q) = found_row k rows x e in (x, m, ap suc q, some_eq (rw e at h))
]

first_least :
    (rows : List HistoryRow) (x : HistoryRow)
    → Ordered (λ a b. leb a.event b.event ≡ true) rows
    → Memᴰ x rows
    → first_event rows ≤ x.event
first_least [] x o m = absurd (Memᴰ.not-nil m)
first_least (r ∷ rows) x o m = elim (Memᴰ.cases_cons m) [
  | inl q ↦ let same = ap (λ z. z.event) q in omega (arith, same)
  | inr k ↦ let after = All-mem (λ b. leb r.event b.event ≡ true) rows o.0 k in ground arith
]

pub evaluate_all-IsBefore :
    (history : List HistoryRow) (prev : ℤ) {e : Evaluated}
    → Memᴰ e (evaluate_all history)
    → e.t_prev ≡ some prev
    → IsBefore history e.row.event prev
unfolding evaluate_all evaluate
evaluate_all-IsBefore history prev {e} m h =
    let le = λ (a b : HistoryRow). leb a.event b.event in
    let rows = sort_by le history in
    let at = evaluate (first_event rows) (map event_entry rows) in
    let (r, _, q) = Memᴰ.of_map at rows m in
    let ordered = sort_by-Ordered le (λ a b k. ground arith) (λ a b c j k. ground arith) history in
    let k : (at r).t_prev ≡ some prev = ap (λ x. x.t_prev) q ∙ h in
    subst (λ x. IsBefore history x.row.event prev) q
      (elim (Bool-cases (r.event == first_event rows)) [
        | inl f ↦
            let first = (==_iff r.event (first_event rows)).0 f in
            inl (
              sym (some_eq (rw f at k)),
              λ x mx.
                  let least = first_least rows x ordered (mem-sort_by le history mx) in
                  omega (arith, first, least),
            )
        | inr f ↦
            let (x, mx, next, total) = before_row r.event rows prev (rw f at k) in
            inr (x, sort_by-mem le history mx, next, total)
      ])
