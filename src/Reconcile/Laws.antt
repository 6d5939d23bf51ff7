-- ===== src/Reconcile/Laws.antt =====
-- Reconciled rows and the season total.
use mathlib.Core.List.Memᴰ
use fpl_radar.Prelude.Sort.{sort_by, sort_by-mem}
use fpl_radar.Prelude.{
  ℕ, ◌<◌, ◌≡◌, refl, sym, ap, subst, ◌∙◌, ◌⊎◌, inl, inr, Bool, true, false, not, Option, none, some,
  List, map, Memᴰ, Bool-cases, if◌then◌else◌, arith, length, keep, keep-mem, ◌&&◌, leb,
}
use fpl_radar.Prelude.Int.{
  ℤ, pos, ◌+ℤ◌, ◌-ℤ◌, eq_ℤ, eq_ℤ→eq, ltb_ℤ, int_laws, +ℤ_parts, eq_of_parts,
}
use fpl_radar.Constants.{
  PointsSemantics, gross_before_hits, net_after_hits, unverified, conflicted, ReconciliationStatus,
  reconciled, reconciled_no_cost, mismatch, incomplete, source_disagreement, is_reconciled,
}
use fpl_radar.Reconcile.Before.{IsBefore, evaluate_all-IsBefore}
use fpl_radar.Reconcile.{
  HistoryRow, Evaluated, evaluate, delta_of, delta_is, hit_verdict, Verdict, verdict_of,
  evaluate_all, Evidence, unreconciled, reconciled_as, is_some_ℤ, differs, first_event, event_entry,
  has_hit, proves_gross, proves_net, evidence_of, applied_semantics, SeasonRow, SeasonInput,
  season_row, reconcile_season,
}

-- An evaluated row tests its own change of the total.
pub record IsEvaluated (e : Evaluated) : Type 0 where
  pub delta_at : e.delta ≡ delta_of e.row.total_points e.t_prev
  pub gross_at : e.gross ≡ delta_is e.delta (e.row.points -ℤ e.row.event_transfers_cost)
  pub net_at : e.net ≡ delta_is e.delta e.row.points

evaluate-IsEvaluated :
    (first : ℕ) (by_event : List (ℕ × HistoryRow)) (r : HistoryRow)
    → IsEvaluated (evaluate first by_event r)
unfolding evaluate
evaluate-IsEvaluated first by_event r = record { delta_at = refl; gross_at = refl; net_at = refl }

delta_is-some :
    (t n : ℤ) (prev : Option ℤ)
    → delta_is (delta_of t prev) n ≡ true
    → (p : ℤ) × (prev ≡ some p) × (t -ℤ p ≡ n)
delta_is-some t n none h = cc
delta_is-some t n (some p) h = (p, refl, eq_ℤ→eq (t -ℤ p) n h)

-- Points that agree with the total.
abbrev pub Agrees : SeasonRow → Type 0
Agrees r =
    (net : ℤ) × (gross : ℤ) × (prev : ℤ) × (r.net_gw_points ≡ some net)
    × (r.gross_gw_points ≡ some gross)
    × (r.previous_total_points ≡ some prev)
    × (net ≡ r.total_points -ℤ prev)
    × (gross ≡ net +ℤ r.transfer_cost)

abbrev VerdictAgrees : Evaluated → Verdict → Type 0
VerdictAgrees e v =
    (net : ℤ) × (gross : ℤ) × (prev : ℤ) × (v.net ≡ some net)
    × (v.gross ≡ some gross)
    × (e.t_prev ≡ some prev)
    × (net ≡ e.row.total_points -ℤ prev)
    × (gross ≡ net +ℤ e.row.event_transfers_cost)

sub-add : (r c : ℤ) → r ≡ (r -ℤ c) +ℤ c
sub-add r c = omega int_laws

add-zero_ℤ : (r c : ℤ) → c ≡ pos 0 → r ≡ r +ℤ c
add-zero_ℤ r c e = eq_of_parts r (r +ℤ c) (rw e (omega (arith, +ℤ_parts r (pos 0))))

-- The two ways down the ladder that end in a reconciled row.
ladder :
    (known disagree free net : Bool) (nc hit : Verdict)
    → let v =
        if not known
        then unreconciled incomplete
        else if disagree
        then unreconciled source_disagreement
        else if free
        then (if net then nc else unreconciled mismatch)
        else hit in
      is_reconciled v.status ≡ true
      → ((free ≡ true) × (net ≡ true) × (v ≡ nc))
        ⊎ ((free ≡ false) × (is_reconciled hit.status ≡ true) × (v ≡ hit))
ladder false disagree free net nc hit h = cc
ladder true true free net nc hit h = cc
ladder true false true true nc hit h = inl (refl, refl, refl)
ladder true false true false nc hit h = cc
ladder true false false net nc hit h = inr (refl, h, refl)

hit_ways :
    (applied : PointsSemantics) (gross net : Bool) (r c : ℤ)
    → is_reconciled (hit_verdict applied gross net r c).status ≡ true
    → ((applied ≡ gross_before_hits)
        × (gross ≡ true)
        × (net ≡ false)
        × (hit_verdict applied gross net r c ≡ reconciled_as reconciled (r -ℤ c) r))
      ⊎ ((applied ≡ net_after_hits)
          × (net ≡ true)
          × (gross ≡ false)
          × (hit_verdict applied gross net r c ≡ reconciled_as reconciled r (r +ℤ c)))
hit_ways gross_before_hits true false r c h = inl (refl, refl, refl, refl)
hit_ways net_after_hits false true r c h = inr (refl, refl, refl, refl)
hit_ways applied true true r c h = absurd (ground arith)
hit_ways applied false false r c h = absurd (ground arith)
hit_ways applied gross net r c h = absurd (ground arith)

agrees_at :
    (e : Evaluated) (v : Verdict) (s : ReconciliationStatus) (n g : ℤ)
    → IsEvaluated e
    → v ≡ reconciled_as s n g
    → delta_is e.delta n ≡ true
    → g ≡ n +ℤ e.row.event_transfers_cost
    → VerdictAgrees e v
agrees_at e v s n g w q d k =
    let (p, qp, eq) =
      delta_is-some e.row.total_points n e.t_prev (subst (λ x. delta_is x n ≡ true) w.delta_at d) in
    (n, g, p, ap (λ x. x.net) q, ap (λ x. x.gross) q, qp, sym eq, k)

verdict_agrees :
    (applied : PointsSemantics) (picks : Option ℤ) (checked : Bool) (e : Evaluated)
    → IsEvaluated e
    → is_reconciled (verdict_of applied picks checked e).status ≡ true
    → VerdictAgrees e (verdict_of applied picks checked e)
unfolding verdict_of
verdict_agrees applied picks checked e w h =
    let r = e.row.points in
    let c = e.row.event_transfers_cost in
    elim (ladder (is_some_ℤ e.t_prev) (differs picks r && checked) (eq_ℤ c (pos 0)) e.net
      (reconciled_as reconciled_no_cost r r) (hit_verdict applied e.gross e.net r c) h) [
        | inl (free, net, q) ↦
            agrees_at e (verdict_of applied picks checked e) reconciled_no_cost r r w q
              (sym w.net_at ∙ net) (add-zero_ℤ r c (eq_ℤ→eq c (pos 0) free))
        | inr (hit, k, q) ↦ elim (hit_ways applied e.gross e.net r c k) [
          | inl (_, g, _, x) ↦
              agrees_at e (verdict_of applied picks checked e) reconciled (r -ℤ c) r w (q ∙ x)
                (sym w.gross_at ∙ g) (sub-add r c)
          | inr (_, n, _, x) ↦
              agrees_at e (verdict_of applied picks checked e) reconciled r (r +ℤ c) w (q ∙ x)
                (sym w.net_at ∙ n) refl
        ]
      ]

evaluate_all-IsEvaluated :
    (history : List HistoryRow) {e : Evaluated} → Memᴰ e (evaluate_all history) → IsEvaluated e
unfolding evaluate_all
evaluate_all-IsEvaluated history {e} m =
    let rows = sort_by (λ a b. leb a.event b.event) history in
    let (r, _, q) = Memᴰ.of_map (evaluate (first_event rows) (map event_entry rows)) rows m in
    subst IsEvaluated q (evaluate-IsEvaluated (first_event rows) (map event_entry rows) r)

evaluate-row :
    (first : ℕ) (by_event : List (ℕ × HistoryRow)) (r : HistoryRow)
    → (evaluate first by_event r).row ≡ r
unfolding evaluate
evaluate-row first by_event r = refl

-- Where the rows of a history are told apart by their gameweeks, so are their evaluations.
pub evaluate_all-identified :
    (history : List HistoryRow)
    → ((x y : HistoryRow) → Memᴰ x history → Memᴰ y history → x.event ≡ y.event → x ≡ y)
    → (e d : Evaluated) → Memᴰ e (evaluate_all history)
    → Memᴰ d (evaluate_all history)
    → e.row.event ≡ d.row.event
    → e ≡ d
unfolding evaluate_all
evaluate_all-identified history u e d me md same =
    let le : HistoryRow → HistoryRow → Bool = λ a b. leb a.event b.event in
    let rows = sort_by le history in
    let first = first_event rows in
    let by_event = map event_entry rows in
    let (r, mr, qr) = Memᴰ.of_map (evaluate first by_event) rows me in
    let (t, mt, qt) = Memᴰ.of_map (evaluate first by_event) rows md in
    let er : e.row.event ≡ r.event =
      ap (λ x. x.row.event) (sym qr) ∙ ap (λ x. x.event) (evaluate-row first by_event r) in
    let et : d.row.event ≡ t.event =
      ap (λ x. x.row.event) (sym qt) ∙ ap (λ x. x.event) (evaluate-row first by_event t) in
    sym qr
    ∙ ap (evaluate first by_event)
        (u r t (sort_by-mem le history mr) (sort_by-mem le history mt) (sym er ∙ same ∙ et))
    ∙ qt

season_row-Agrees :
    (i : SeasonInput) (applied : PointsSemantics) (e : Evaluated)
    → IsEvaluated e
    → is_reconciled (season_row i applied e).reconciliation_status ≡ true
    → Agrees (season_row i applied e)
unfolding season_row
season_row-Agrees i applied e w h = verdict_agrees applied _ _ e w h

-- A reconciled row carries both point values: the net points are exactly the change of the season
-- total, since the gameweek just before or, for the first gameweek of the history, since 0; and the gross
-- points exceed them by the transfer cost.
pub reconciled_points :
    (i : SeasonInput) (r : SeasonRow)
    → Memᴰ r (reconcile_season i).0
    → is_reconciled r.reconciliation_status ≡ true
    → (net : ℤ) × (gross : ℤ) × (prev : ℤ) × (r.net_gw_points ≡ some net)
      × (r.gross_gw_points ≡ some gross)
      × (r.previous_total_points ≡ some prev)
      × IsBefore i.history_rows r.event prev
      × (net ≡ r.total_points -ℤ prev)
      × (gross ≡ net +ℤ r.transfer_cost)
unfolding reconcile_season season_row
reconciled_points i r m h =
    let es = evaluate_all i.history_rows in
    let (e, me, q) =
      Memᴰ.of_map (season_row i (applied_semantics i.season_semantics (evidence_of es))) es m in
    let (net, gross, prev, n, g, p, change, cost) = subst Agrees q (
      season_row-Agrees i (applied_semantics i.season_semantics (evidence_of es)) e
        (evaluate_all-IsEvaluated i.history_rows me)
        (subst (λ x. is_reconciled x.reconciliation_status ≡ true) (sym q) h)) in
    let at =
      subst (λ x. IsBefore i.history_rows x prev) (ap (λ x. x.event) q)
        (evaluate_all-IsBefore i.history_rows prev me (ap (λ x. x.previous_total_points) q ∙ p)) in
    (net, gross, prev, n, g, p, at, change, cost)

verdict_hit :
    (applied : PointsSemantics) (picks : Option ℤ) (checked : Bool) (e : Evaluated)
    → is_reconciled (verdict_of applied picks checked e).status ≡ true
    → has_hit e ≡ true
    → ((applied ≡ gross_before_hits) × (proves_gross e ≡ true))
      ⊎ ((applied ≡ net_after_hits) × (proves_net e ≡ true))
unfolding verdict_of
verdict_hit applied picks checked e h t =
    let r = e.row.points in
    let c = e.row.event_transfers_cost in
    elim (ladder (is_some_ℤ e.t_prev) (differs picks r && checked) (eq_ℤ c (pos 0)) e.net
      (reconciled_as reconciled_no_cost r r) (hit_verdict applied e.gross e.net r c) h) [
        | inl (free, _, _) ↦ absurd (cc (t, ap (ltb_ℤ (pos 0)) (eq_ℤ→eq c (pos 0) free)))
        | inr (_, k, _) ↦ elim (hit_ways applied e.gross e.net r c k) [
          | inl (a, g, n, _) ↦ inl (a, rw (t, g, n) refl)
          | inr (a, n, g, _) ↦ inr (a, rw (t, g, n) refl)
        ]
      ]

count_pos :
    {A : Type 0} (p : A → Bool) {a : A} {xs : List A}
    → Memᴰ a xs
    → p a ≡ true
    → 0 < length (keep p xs)
count_pos p {xs = xs} m h = at_least (keep-mem p m h)
  where
    at_least : {A : Type 0} {a : A} {ys : List A} → Memᴰ a ys → 0 < length ys
    at_least (Memᴰ.head q) = omega arith
    at_least (Memᴰ.tail k) = omega arith

applied_gross :
    (season : PointsSemantics) (e : Evidence)
    → applied_semantics season e ≡ gross_before_hits
    → (season ≡ gross_before_hits) ⊎ ((season ≡ unverified) × (e.net ≡ 0))
unfolding applied_semantics
applied_gross gross_before_hits e h = inl refl
applied_gross net_after_hits e h = cc
applied_gross conflicted e h = cc
applied_gross unverified e h = inr (refl, ground arith)

applied_net :
    (season : PointsSemantics) (e : Evidence)
    → applied_semantics season e ≡ net_after_hits
    → (season ≡ net_after_hits) ⊎ ((season ≡ unverified) × (e.gross ≡ 0))
unfolding applied_semantics
applied_net net_after_hits e h = inl refl
applied_net gross_before_hits e h = cc
applied_net conflicted e h = cc
applied_net unverified e h = inr (refl, ground arith)

-- A reconciled row with a hit is read gross or net, by the verified semantics of the season or, in an
-- UNVERIFIED season, only if no row of the entry proves the other reading.
pub reconciled_hit_semantics :
    (i : SeasonInput) (r : SeasonRow)
    → Memᴰ r (reconcile_season i).0
    → is_reconciled r.reconciliation_status ≡ true
    → ltb_ℤ (pos 0) r.transfer_cost ≡ true
    → ((r.points_semantics ≡ gross_before_hits)
        × ((i.season_semantics ≡ gross_before_hits)
            ⊎ ((i.season_semantics ≡ unverified) × ((reconcile_season i).1.net ≡ 0))))
      ⊎ ((r.points_semantics ≡ net_after_hits)
          × ((i.season_semantics ≡ net_after_hits)
              ⊎ ((i.season_semantics ≡ unverified) × ((reconcile_season i).1.gross ≡ 0))))
unfolding reconcile_season season_row
reconciled_hit_semantics i r m h t =
    let es = evaluate_all i.history_rows in
    let applied = applied_semantics i.season_semantics (evidence_of es) in
    let (e, _, q) = Memᴰ.of_map (season_row i applied) es m in
    let hit : has_hit e ≡ true = subst (λ x. ltb_ℤ (pos 0) x.transfer_cost ≡ true) (sym q) t in
    let semantics : r.points_semantics ≡ applied =
      ap (λ x. x.points_semantics) (sym q)
      ∙ ap (λ b. if b then applied else i.season_semantics) hit in
    elim (verdict_hit applied _ _ e
      (subst (λ x. is_reconciled x.reconciliation_status ≡ true) (sym q) h) hit) [
        | inl (a, _) ↦ inl (semantics ∙ a, applied_gross i.season_semantics (evidence_of es) a)
        | inr (a, _) ↦ inr (semantics ∙ a, applied_net i.season_semantics (evidence_of es) a)
      ]

-- In an UNVERIFIED season where rows of the entry prove both readings, no row with a hit is
-- reconciled.
conflicting_evidence :
    (i : SeasonInput) (r : SeasonRow)
    → i.season_semantics ≡ unverified
    → 0 < (reconcile_season i).1.gross
    → 0 < (reconcile_season i).1.net
    → Memᴰ r (reconcile_season i).0
    → ltb_ℤ (pos 0) r.transfer_cost ≡ true
    → is_reconciled r.reconciliation_status ≡ false
conflicting_evidence i r u g n m t = elim (Bool-cases (is_reconciled r.reconciliation_status)) [
  | inr f ↦ f
  | inl h ↦ elim (reconciled_hit_semantics i r m h t) [
    | inl (_, inl s) ↦ absurd (cc (u, s))
    | inl (_, inr (_, z)) ↦ absurd (omega arith)
    | inr (_, inl s) ↦ absurd (cc (u, s))
    | inr (_, inr (_, z)) ↦ absurd (omega arith)
  ]
]
