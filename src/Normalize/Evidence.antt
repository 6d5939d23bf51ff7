-- ===== src/Normalize/Evidence.antt =====
-- No evidence is counted twice (server/src/sync/normalize.js, `buildSeasonRows`).
use mathlib.Core.List.Memᴰ
use fpl_radar.Prelude.{
  ◌≡◌, refl, sym, ap, subst, ◌∙◌, true, false, not, Option, none, some, List, [], ◌∷◌, map, Memᴰ,
  arith,
}
use fpl_radar.Prelude.Int.{ℤ, eq_ℤ_refl}
use fpl_radar.Constants.{PointsSemantics}
use fpl_radar.Reconcile.{
  HistoryRow, Evaluated, SeasonRow, SeasonInput, season_row, evaluate_all, evidence_of,
  applied_semantics, reconcile_season,
}
use fpl_radar.Reconcile.Laws.{evaluate_all-identified}
use fpl_radar.Winner.Inputs.{map_get}
use fpl_radar.Normalize.Lookup.{map_get-member}
use fpl_radar.Normalize.Season.{
  FplHistory, SyncedGw, SeasonBuild, season_input, stored_entry, gw_row, same_previous, same_points,
  is_new, evidence_candidates, build_season_rows,
}

no_evidence :
    (existing : List SyncedGw) (ns : List SeasonRow)
    → ((n : SeasonRow) → Memᴰ n ns → is_new (map_get n.event (map stored_entry existing)) n ≡ false)
    → evidence_candidates existing ns ≡ []
unfolding evidence_candidates
no_evidence existing [] h = refl
no_evidence existing (n ∷ ns) h =
    let f = h n (Memᴰ.head refl) in
    let rest = no_evidence existing ns (λ x m. h x (Memᴰ.tail m)) in rw (f, rest) (ground arith)

same_previous_self : (o : Option ℤ) → same_previous o o ≡ true
same_previous_self none = refl
same_previous_self (some n) = eq_ℤ_refl n

-- The points inputs of a row do not depend on the picks, the semantics and the states.
season_row-same_points :
    (i j : SeasonInput) (a c : PointsSemantics) (e : Evaluated)
    → same_points (season_row i a e) (season_row j c e) ≡ true
unfolding season_row
season_row-same_points i j a c e = rw (eq_ℤ_refl e.row.points) (
    rw (eq_ℤ_refl e.row.event_transfers_cost)
      (rw (eq_ℤ_refl e.row.total_points) (same_previous_self e.t_prev)))

season_row-event :
    (i : SeasonInput) (a : PointsSemantics) (e : Evaluated) → (season_row i a e).event ≡ e.row.event
unfolding season_row
season_row-event i a e = refl

stored_rows :
    (b : SeasonBuild) (i : SeasonInput) (a : PointsSemantics) (es : List Evaluated)
    → map stored_entry (map (gw_row b) (map (season_row i a) es))
      ≡ map (λ e. (e.row.event, gw_row b (season_row i a e))) es
unfolding gw_row season_row
stored_rows b i a [] = refl
stored_rows b i a (e ∷ es) =
    ap (λ r. (e.row.event, gw_row b (season_row i a e)) ∷ r) (stored_rows b i a es)

gw_row-points : (b : SeasonBuild) (n : SeasonRow) → (gw_row b n).points ≡ n
unfolding gw_row
gw_row-points b n = refl

-- Rows of a history are told apart by their gameweeks.
abbrev pub EventsIdentify : List FplHistory → Type 0
EventsIdentify history =
    (x y : HistoryRow)
    → Memᴰ x (map (λ h. h.row) history)
    → Memᴰ y (map (λ h. h.row) history)
    → x.event ≡ y.event
    → x ≡ y

known_points :
    (b : SeasonBuild) (i j : SeasonInput) (a c : PointsSemantics) (es : List Evaluated)
    (e : Evaluated)
    → ((x y : Evaluated) → Memᴰ x es → Memᴰ y es → x.row.event ≡ y.row.event → x ≡ y)
    → Memᴰ e es
    → is_new
        (map_get e.row.event (map stored_entry (map (gw_row b) (map (season_row i a) es))))
        (season_row j c e)
      ≡ false
known_points b i j a c es e u m =
    let g =
      ap (map_get e.row.event) (stored_rows b i a es)
      ∙ map_get-member (λ x. x.row.event) (λ x. gw_row b (season_row i a x)) es e u m in
    let s : same_points (gw_row b (season_row i a e)).points (season_row j c e) ≡ true =
      ap (λ p. same_points p (season_row j c e)) (gw_row-points b (season_row i a e))
      ∙ season_row-same_points i j a c e in
    ap (λ o. is_new o (season_row j c e)) g ∙ ap not s

-- A history that is synchronised again, with the rows that it gave the first time, proves nothing new
-- about the points semantics, whatever gameweek, picks, semantics and event states it is read with.
pub build_season_rows_replay :
    (b later : SeasonBuild)
    → EventsIdentify b.history
    → (build_season_rows
        (record later { history = b.history; existing_rows = (build_season_rows b).rows })).evidence
      ≡ []
unfolding build_season_rows season_input reconcile_season
build_season_rows_replay b later u =
    let again = record later { history = b.history; existing_rows = (build_season_rows b).rows } in
    let history = map (λ h. h.row) b.history in
    let es = evaluate_all history in
    let a = applied_semantics b.season_semantics (evidence_of es) in
    let c = applied_semantics later.season_semantics (evidence_of es) in
    no_evidence (build_season_rows b).rows (map (season_row (season_input again) c) es) (λ n m.
      let (e, me, q) = Memᴰ.of_map (season_row (season_input again) c) es m in
      subst (λ x. is_new (map_get x.event (map stored_entry (build_season_rows b).rows)) x ≡ false)
        q
        (subst
          (λ k.
            is_new (map_get k (map stored_entry (build_season_rows b).rows))
              (season_row (season_input again) c e)
            ≡ false)
          (sym (season_row-event (season_input again) c e))
          (known_points b (season_input b) (season_input again) a c es e
            (evaluate_all-identified history u) me)))
