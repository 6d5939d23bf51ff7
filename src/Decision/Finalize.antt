-- ===== src/Decision/Finalize.antt =====
-- What a finalization decides on (server/src/services/resultService.js).
use Prim.Native.Nat.{Ordering}
use Prim.Native.String.{String}
use fpl_radar.Prelude.{
  ℕ, ◌≡◌, refl, sym, ap, ◌∙◌, inl, inr, Bool, true, false, ◌&&◌, not, Option, none, some, List, [],
  ◌∷◌, ◌++◌, map, Memᴰ, keep, arith, Bool-cases, ◌==◌,
}
use fpl_radar.Eligibility.{select_eligible}
use fpl_radar.Constants.{data_checked}
use fpl_radar.EventState.{ResultStatus, final, SyncRunStatus, success, is_success}
use fpl_radar.HashChain.{Body, Action, Snapshot}
use fpl_radar.FinalizeGate.{
  GateRequest, GateReason, gate_eligible, no_gate_reasons, evaluate_finalize_gate,
}
use fpl_radar.FinalizeGate.Laws.{IsSettled, evaluate_finalize_gate_lem}
use fpl_radar.Prelude.Int.{◌≤ℤ◌}
use fpl_radar.TieBreak.{TieBreakRow}
use fpl_radar.Winner.{
  GwInput, PreviewStatus, provisional, blocked, is_empty, eligible_of, scored_of,
}
use fpl_radar.Winner.Laws.Result.{winners_top}
use fpl_radar.Decision.Types.{
  SnapshotContent, rule_based, ActionFields, Head, Loaded, BlockReason, sync_not_success,
  result_blocked, by_gate, finalizing,
}
use fpl_radar.Decision.Explain.{build_snapshot_input}
use fpl_radar.Decision.Transaction.{write, World, committed, status_of_head}
use fpl_radar.Winner.Inputs.{GwRow, row_by_entry, map_has}
use fpl_radar.Decision.Commit.{guarded-IsCommit}
use fpl_radar.Decision.Chain.{IsIntact}
use fpl_radar.Decision.Service.{
  gate_inputs, FinalizeRun, is_provisional, computed, is_repeat, gate_request, finalize_gate,
  finalize_refusals, finalize_plan, finalize, request, block_if,
}

pub append_none :
    {A : Type 0} (xs ys : List A)
    → is_empty (xs ++ ys) ≡ true
    → (is_empty xs ≡ true) × (is_empty ys ≡ true)
append_none [] ys h = (refl, h)
append_none (x ∷ xs) ys h = cc

no_block_if : (b : Bool) (r : BlockReason) → is_empty (block_if b r) ≡ true → b ≡ false
no_block_if true r h = cc
no_block_if false r h = refl

map-by_gate : (rs : List GateReason) → is_empty (map by_gate rs) ≡ true → no_gate_reasons rs ≡ true
map-by_gate [] h = refl
map-by_gate (r ∷ rs) h = cc

allowed_of :
    (i : _) (q : GateRequest)
    → no_gate_reasons (evaluate_finalize_gate i q).reasons ≡ true
    → (evaluate_finalize_gate i q).allowed ≡ true
unfolding evaluate_finalize_gate
allowed_of i q h = h

is_success-eq : (s : SyncRunStatus) → is_success (some s) ≡ true → s ≡ success
is_success-eq s h = ground arith

pub is_provisional-eq : (s : PreviewStatus) → is_provisional s ≡ true → s ≡ provisional
is_provisional-eq provisional h = refl
is_provisional-eq blocked h = cc

undecided_head : (h : Option Head) → status_of_head h ≡ none → h ≡ none
undecided_head none e = refl
undecided_head (some h) e = cc

module _ (locale_compare : String → String → Ordering) (inputs_hash : GwInput → String) where
  pub record IsOpen (l : Loaded) (run : FinalizeRun) (head : Option Head) : Type 0 where
    run_ok : run.status ≡ success
    allowed : (finalize_gate locale_compare inputs_hash l (some run.id) head).allowed ≡ true
    sound : (computed locale_compare inputs_hash l).status ≡ provisional

  no_refusals :
      (l : Loaded) (run : FinalizeRun) (head : Option Head)
      → is_empty (finalize_refusals locale_compare inputs_hash l run head) ≡ true
      → IsOpen l run head
  unfolding finalize_refusals finalize_gate
  no_refusals l run head h =
      let g = finalize_gate locale_compare inputs_hash l (some run.id) head in
      let t = g.allowed && not (is_provisional (computed locale_compare inputs_hash l).status) in
      let xs = block_if (not (is_success (some run.status))) sync_not_success in
      let (ab, c) = append_none (xs ++ map by_gate g.reasons) (block_if t result_blocked) h in
      let (a, b) = append_none xs (map by_gate g.reasons) ab in
      let o : g.allowed ≡ true =
        allowed_of (gate_inputs l) (gate_request locale_compare inputs_hash l (some run.id) head)
          (map-by_gate g.reasons b) in
      let ra = no_block_if (not (is_success (some run.status))) sync_not_success a in
      let rc = no_block_if t result_blocked c in
      record {
        run_ok = is_success-eq run.status (ground arith);
        allowed = o;
        sound = is_provisional-eq (computed locale_compare inputs_hash l).status (ground arith);
      }

  pub finalize_plan-writes :
      (l : Loaded) (run : FinalizeRun) (now : ℕ) (head : Option Head)
      (prev : Option SnapshotContent) (content : SnapshotContent) (status : ResultStatus)
      → finalize_plan locale_compare inputs_hash l run now head prev ≡ write content status
      → IsOpen l run head
        × (status ≡ final)
        × (content
            ≡ build_snapshot_input inputs_hash l
                (computed locale_compare inputs_hash l)
                rule_based
                (computed locale_compare inputs_hash l).winners
                now)
  unfolding finalize_plan
  finalize_plan-writes l run now head prev content status h =
      elim (Bool-cases (is_repeat locale_compare inputs_hash l head prev)) [
        | inl r ↦ absurd (cc (rw r at h))
        | inr r ↦
            elim (Bool-cases (is_empty (finalize_refusals locale_compare inputs_hash l run head))) [
              | inr e ↦ absurd (cc (rw (r, e) at h))
              | inl e ↦ let k = rw (r, e) at h in (no_refusals l run head e, cc, cc)
            ]
      ]

some_eq : {A : Type 0} {a b : A} → some a ≡ some b → a ≡ b
some_eq e = cc

keep_every :
    {A : Type 0} (p : A → Bool) (xs : List A) → ((x : A) → Memᴰ x xs → p x ≡ true) → keep p xs ≡ xs
keep_every p [] h = refl
keep_every p (x ∷ xs) h =
    rw (h x (Memᴰ.head refl)) (ap (λ r. x ∷ r) (keep_every p xs (λ y m. h y (Memᴰ.tail m))))

-- `loadResultInputs` reads the rows of the gameweek only.
abbrev pub AllOfEvent : Loaded → Type 0
AllOfEvent l = (r : GwRow) → Memᴰ r l.gw.gw_rows → (r.event == l.gw.event) ≡ true

same_eligible : (l : Loaded) → AllOfEvent l → gate_eligible (gate_inputs l) ≡ eligible_of l.gw
unfolding gate_eligible eligible_of row_by_entry
same_eligible l h =
    ap
      (λ rows.
        (select_eligible l.gw.members (map_has (map (λ r. (r.entry_id, r)) rows))
          l.gw.event).eligible)
      (sym (keep_every (λ r. r.event == l.gw.event) l.gw.gw_rows h))

module _ (locale_compare : String → String → Ordering) (inputs_hash : GwInput → String)
    (action_hash : Body ActionFields → String) (snapshot_hash : SnapshotContent → String) where
  -- A finalization that commits, on a history that verifies and with rows of the gameweek only, decided an open gameweek: the group is
  -- active, no decision was there before, FPL has checked the gameweek and the check was observed, the run
  -- was a success, and every eligible member is settled by this run after that check, as the gate asks. It declares the winners of the rules, of
  -- whom there is at least one, each with a score that no eligible member exceeds, and its status is FINAL.
  pub finalize_lem :
      (group : Option Bool) (l : Loaded) (run : FinalizeRun) (id now : ℕ) (w : World)
      (s : Snapshot SnapshotContent) (a : Action ActionFields)
      → IsIntact action_hash snapshot_hash w.log
      → AllOfEvent l
      → (finalize locale_compare inputs_hash action_hash snapshot_hash group l run id now w).0
        ≡ committed s a
      → (group ≡ some true)
        × (w.log.head ≡ none)
        × (l.gw.event_state ≡ data_checked)
        × (run.status ≡ success)
        × (a.body.other.new_status ≡ final)
        × (s.content.declared_winners ≡ (computed locale_compare inputs_hash l).winners)
        × ((x : ℕ) × Memᴰ x (computed locale_compare inputs_hash l).winners)
        × ((x : ℕ)
            → Memᴰ x (computed locale_compare inputs_hash l).winners
            → (c : TieBreakRow) × Memᴰ c (scored_of l.gw)
              × (c.entry_id ≡ x)
              × ((r : TieBreakRow) → Memᴰ r (scored_of l.gw) → r.score ≤ℤ c.score))
        × (observed : ℕ) × (l.data_checked_observed_at ≡ some observed)
        × ((m : ℕ)
            → Memᴰ m (gate_eligible (gate_inputs l))
            → IsSettled
                (gate_inputs l)
                (gate_request locale_compare inputs_hash l (some run.id) w.log.head)
                observed
                m)
  unfolding finalize finalize_gate
  finalize_lem group l run id now w s a i h e =
      let q = request (some run.id) id now none finalizing in
      let plan = finalize_plan locale_compare inputs_hash l run now in
      let (g, c) = guarded-IsCommit action_hash snapshot_hash group now q plan w s a i e in
      let (o, st, ct) =
        finalize_plan-writes locale_compare inputs_hash l run now w.log.head _ c.content c.status
          c.planned in
      let (_, checked, u, some_eligible, at, seen, settled) =
        evaluate_finalize_gate_lem (gate_inputs l)
          (gate_request locale_compare inputs_hash l (some run.id) w.log.head) o.allowed in
      let (_, one, top, _) =
        winners_top locale_compare l.gw o.sound (λ n. some_eligible (same_eligible l h ∙ n)) in
      (
        g,
        undecided_head w.log.head u,
        some_eq checked,
        o.run_ok,
        ap (λ x. x.body.other.new_status) c.action ∙ st,
        ap (λ x. x.content.declared_winners) c.snapshot ∙ ap (λ x. x.declared_winners) ct,
        one,
        λ x m. let (d, md, ed, top_d, _) = top x m in (d, md, ed, top_d),
        at,
        seen,
        settled,
      )
