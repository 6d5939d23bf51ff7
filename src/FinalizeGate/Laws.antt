-- ===== src/FinalizeGate/Laws.antt =====
-- The open gate of a finalization.
use mathlib.Core.List.Memᴰ
use fpl_radar.Prelude.{
  ℕ, ◌<◌, ◌≡◌, refl, ap, subst, ◌≢◌, ◌⊎◌, inl, inr, Bool, true, false, not, Option, none, some,
  List, [], ◌∷◌, ◌++◌, map, Memᴰ, if◌then◌else◌, ==_iff, any, any_none, arith, Bool-cases,
}
use fpl_radar.Constants.{
  PointsSemantics, gross_before_hits, net_after_hits, unverified, conflicted, ReconciliationStatus,
  is_reconciled, data_checked, reconciled, reconciled_no_cost,
}
use fpl_radar.EventState.{FinalizeBlockReason, success, finalize_reasons, can_finalize, no_reasons}
use fpl_radar.EventState.Laws.{IsFresh, can_finalize_iff}
use fpl_radar.Winner.Inputs.{GwRow, map_get}
use fpl_radar.FinalizeGate.{
  Freshness, GateInputs, GateRequest, GateReason, gate, gate_rows, fresh_map, gate_eligible,
  freshness_of, is_confirmed, status_of, confirmed_at, eligible_row, gate_context, has_cost,
  is_hit_row, hit_rows, add_hit, same_semantics, semantics_reasons, no_gate_reasons,
  evaluate_finalize_gate,
}

-- What an open gate stands for in one eligible member.
pub record IsSettled (i : GateInputs) (q : GateRequest) (observed id : ℕ) : Type 0 where
  pub row : GwRow
  pub row_at : map_get id (gate_rows i) ≡ some row
  pub row_reconciled : is_reconciled row.reconciliation_status ≡ true
  pub fresh : Freshness
  pub fresh_at : map_get id (fresh_map i) ≡ some fresh
  pub run_ok : fresh.sync_run_status ≡ some success
  pub run_later : (s : ℕ) × (fresh.sync_run_started_at ≡ some s) × (observed < s)
  pub same_run : (run : ℕ) → q.finalize_run_id ≡ some run → fresh.sync_run_id ≡ some run
  pub hit_semantics :
      has_cost row.transfer_cost ≡ true
      → (row.points_semantics ≡ q.season_semantics)
        × ((q.season_semantics ≡ gross_before_hits) ⊎ (q.season_semantics ≡ net_after_hits))

no_reasons_split :
    (rs : List FinalizeBlockReason) (ss : List GateReason)
    → no_gate_reasons (map gate rs ++ ss) ≡ true
    → (no_reasons rs ≡ true) × (no_gate_reasons ss ≡ true)
no_reasons_split [] ss h = (refl, h)
no_reasons_split (r ∷ rs) ss h = cc

if_some :
    {A : Type 0}
    → (b : Bool) (x : Option A) (a : A) → (if b then x else none) ≡ some a
    → (b ≡ true) × (x ≡ some a)
if_some true x a h = (refl, h)
if_some false x a h = cc

status_of-some :
    (o : Option GwRow) (s : ReconciliationStatus)
    → status_of o ≡ some s
    → (r : GwRow) × (o ≡ some r) × (r.reconciliation_status ≡ s)
status_of-some none s h = cc
status_of-some (some r) s h = (r, refl, cc)

freshness_some :
    (id : ℕ) (o : Option Freshness)
    → (freshness_of id o).sync_run_status ≡ some success
    → (f : Freshness) × (o ≡ some f)
freshness_some id none h = cc
freshness_some id (some f) h = (f, refl)

is_confirmed_run : (run : ℕ) (id : Option ℕ) → is_confirmed (some run) id ≡ true → id ≡ some run
is_confirmed_run run none h = cc
is_confirmed_run run (some id) h = ap some ((==_iff id run).0 h)

same_semantics_eq : (a b : PointsSemantics) → same_semantics a b ≡ true → a ≡ b
same_semantics_eq a b h = ground arith

mem-hit_rows :
    (rows : List (ℕ × GwRow)) (ids : List ℕ) (id : ℕ) (r : GwRow)
    → map_get id rows ≡ some r
    → is_hit_row r ≡ true
    → Memᴰ id ids
    → Memᴰ r (hit_rows rows ids)
unfolding hit_rows
mem-hit_rows rows [] id r g h m = elim m [ ]
mem-hit_rows rows (j ∷ ids) id r g h (Memᴰ.head e) =
    subst (λ k. Memᴰ r (add_hit (map_get k rows) (hit_rows rows ids))) e
      (rw (g, h) (Memᴰ.head refl))
mem-hit_rows rows (j ∷ ids) id r g h (Memᴰ.tail m) =
    add_hit-mem (map_get j rows) (hit_rows rows ids) (mem-hit_rows rows ids id r g h m)
  where
    add_hit-mem : (o : Option GwRow) (hits : List GwRow) → Memᴰ r hits → Memᴰ r (add_hit o hits)
    add_hit-mem none hits m = m
    add_hit-mem (some x) hits m = elim (Bool-cases (is_hit_row x)) [
      | inl e ↦ rw e (Memᴰ.tail m)
      | inr e ↦ rw e m
    ]

not-any_other :
    (season : PointsSemantics) (hits : List GwRow) (r : GwRow)
    → any (λ x. not (same_semantics x.points_semantics season)) hits ≡ false
    → Memᴰ r hits
    → r.points_semantics ≡ season
not-any_other season hits r h m =
    let e = any_none (λ x. not (same_semantics x.points_semantics season)) hits h m in
    same_semantics_eq r.points_semantics season (ground arith)

no_semantics_reasons :
    (season : PointsSemantics) (hits : List GwRow) (r : GwRow)
    → no_gate_reasons (semantics_reasons season hits) ≡ true
    → Memᴰ r hits
    → (r.points_semantics ≡ season) × ((season ≡ gross_before_hits) ⊎ (season ≡ net_after_hits))
unfolding semantics_reasons
no_semantics_reasons gross_before_hits (x ∷ hits) r h m =
    (not-any_other gross_before_hits (x ∷ hits) r (ground arith) m, inl refl)
no_semantics_reasons net_after_hits (x ∷ hits) r h m =
    (not-any_other net_after_hits (x ∷ hits) r (ground arith) m, inr refl)
no_semantics_reasons unverified (x ∷ hits) r h m = cc
no_semantics_reasons conflicted (x ∷ hits) r h m = cc
no_semantics_reasons season [] r h m = elim m [ ]

gate_tests :
    (i : GateInputs) (q : GateRequest)
    → (evaluate_finalize_gate i q).allowed ≡ true
    → ((can_finalize (gate_context i q)).0 ≡ true)
      × (no_gate_reasons
            (semantics_reasons q.season_semantics (hit_rows (gate_rows i) (gate_eligible i)))
          ≡ true)
unfolding evaluate_finalize_gate
gate_tests i q h = no_reasons_split (finalize_reasons (gate_context i q)) _ h

IsFresh-IsSettled :
    (i : GateInputs) (q : GateRequest) (observed id : ℕ)
    → Memᴰ id (gate_eligible i)
    → no_gate_reasons
        (semantics_reasons q.season_semantics (hit_rows (gate_rows i) (gate_eligible i)))
      ≡ true
    → IsFresh observed (eligible_row i q id)
    → IsSettled i q observed id
unfolding eligible_row
IsFresh-IsSettled i q observed id m sem f =
    let g = freshness_of id (map_get id (fresh_map i)) in
    let (con, ok) = if_some (confirmed_at i q id) g.sync_run_status success f.run_ok in
    let (fr, fa) = freshness_some id (map_get id (fresh_map i)) ok in
    let same : g ≡ fr = ap (freshness_of id) fa in
    let (s, es, lt) = f.confirmed in
    let (_, started) = if_some (confirmed_at i q id) g.sync_run_started_at s es in
    let (r, ra, rr) = found f.sound in
    record {
      row = r;
      row_at = ra;
      row_reconciled = rr;
      fresh = fr;
      fresh_at = fa;
      run_ok = subst (λ x. x.sync_run_status ≡ some success) same ok;
      run_later = (s, subst (λ x. x.sync_run_started_at ≡ some s) same started, lt);
      same_run = λ run e. is_confirmed_run run fr.sync_run_id (
          subst (λ x. is_confirmed (some run) x.sync_run_id ≡ true) same
            (subst (λ o. is_confirmed o g.sync_run_id ≡ true) e con));
      hit_semantics = λ hc.
          no_semantics_reasons q.season_semantics _ r sem
            (mem-hit_rows (gate_rows i) (gate_eligible i) id r ra (ground arith) m);
    }
  where
    found :
        ((status_of (map_get id (gate_rows i)) ≡ some reconciled)
          ⊎ (status_of (map_get id (gate_rows i)) ≡ some reconciled_no_cost))
        → (r : GwRow) × (map_get id (gate_rows i) ≡ some r)
          × (is_reconciled r.reconciliation_status ≡ true)
    found (inl e) =
        let (r, a, b) = status_of-some (map_get id (gate_rows i)) reconciled e in
        (r, a, ap is_reconciled b)
    found (inr e) =
        let (r, a, b) = status_of-some (map_get id (gate_rows i)) reconciled_no_cost e in
        (r, a, ap is_reconciled b)

-- A gate that opens stands for an active group, a gameweek that FPL has checked and that has no
-- decision yet, and at least one eligible member. Each of them has a reconciled row, and was confirmed
-- by a successful run that started after the check was observed and that is the finalizing run, if one
-- is named; and if his row has a hit, it is read by the season's semantics, which are gross or net.
pub evaluate_finalize_gate_lem :
    (i : GateInputs) (q : GateRequest)
    → (evaluate_finalize_gate i q).allowed ≡ true
    → (i.group_active ≡ true)
      × (i.event_state ≡ some data_checked)
      × (q.result_status ≡ none)
      × (gate_eligible i ≢ [])
      × (observed : ℕ) × (i.data_checked_observed_at ≡ some observed)
      × ((id : ℕ) → Memᴰ id (gate_eligible i) → IsSettled i q observed id)
unfolding gate_context
evaluate_finalize_gate_lem i q h =
    let (opened, sem) = gate_tests i q h in
    let may = (can_finalize_iff (gate_context i q)).0 opened in
    (
      may.active,
      may.checked,
      may.undecided,
      λ e. may.somebody (ap (map (eligible_row i q)) e),
      may.observed_at,
      may.observed,
      λ id m.
          IsFresh-IsSettled i q may.observed_at id m sem
            (may.fresh (eligible_row i q id) (Memᴰ.map (eligible_row i q) m)),
    )
