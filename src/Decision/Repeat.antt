-- ===== src/Decision/Repeat.antt =====
-- A finalization that is repeated (server/src/services/resultService.js).
use Prim.Native.Nat.{Ordering}
use Prim.Native.String.{String}
use fpl_radar.Prelude.{
  ℕ, ◌≡◌, refl, sym, ap, ◌∙◌, subst, true, false, none, some, List, [], ◌∷◌, ==_iff,
}
use fpl_radar.Prelude.Texts.{same_text_iff}
use fpl_radar.EventState.{ResultStatus, final}
use fpl_radar.HashChain.{Body, Action, Snapshot, next_action}
use fpl_radar.Lock.Lease.{guard_write}
use fpl_radar.Winner.{GwInput}
use fpl_radar.Decision.Types.{
  DecisionLog, SnapshotContent, rule_based, ActionFields, Head, Loaded, finalizing,
}
use fpl_radar.Decision.Explain.{build_snapshot_input, same_ids}
use fpl_radar.Decision.Repo.{moved, previous_content}
use fpl_radar.Decision.Transaction.{replay, Request, World, committed, replayed}
use fpl_radar.Winner.Inputs.{map_has}
use fpl_radar.Decision.Commit.{guarded-IsCommit}
use fpl_radar.Decision.Chain.{map_get-new, IsIntact, new_snapshot, new_action, extended}
use fpl_radar.Decision.Runs.{run_t4-replays}
use fpl_radar.Decision.Service.{
  FinalizeRun, computed, is_repeat, finalize_plan, guarded, finalize, request,
}
use fpl_radar.Decision.Finalize.{finalize_plan-writes}

same_ids_self : (xs : List ℕ) → same_ids xs xs ≡ true
unfolding same_ids
same_ids_self [] = refl
same_ids_self (x ∷ xs) = rw ((==_iff x x).1 refl, same_ids_self xs) refl

is_repeat-decision :
    (locale_compare : String → String → Ordering) (inputs_hash : GwInput → String) (l : Loaded)
    (now : ℕ) (h : Head)
    → h.status ≡ final
    → is_repeat locale_compare inputs_hash l (some h) (
        some (
          build_snapshot_input inputs_hash l
            (computed locale_compare inputs_hash l)
            rule_based
            (computed locale_compare inputs_hash l).winners
            now))
      ≡ true
unfolding is_repeat build_snapshot_input
is_repeat-decision locale_compare inputs_hash l now h e = rw e (
    rw ((same_text_iff (inputs_hash l.gw) (inputs_hash l.gw)).1 refl)
      (rw (same_ids_self (computed locale_compare inputs_hash l).winners) refl))

module _ (locale_compare : String → String → Ordering) (inputs_hash : GwInput → String)
    (action_hash : Body ActionFields → String) (snapshot_hash : SnapshotContent → String) where
  finalize_plan-replays :
      (l : Loaded) (again : FinalizeRun) (later : ℕ) (q : Request) (content : SnapshotContent)
      (status : ResultStatus) (log : DecisionLog) (now : ℕ)
      → status ≡ final
      → content
        ≡ build_snapshot_input inputs_hash l
            (computed locale_compare inputs_hash l)
            rule_based
            (computed locale_compare inputs_hash l).winners
            now
      → map_has log.snapshots q.snapshot_id ≡ false
      → let log' = extended action_hash snapshot_hash q content status log in
        finalize_plan locale_compare inputs_hash l again later log'.head
          (previous_content log' log'.head)
        ≡ replay
            (some content)
            (some (moved (new_action action_hash snapshot_hash q content status log)))
  unfolding finalize_plan next_action
  finalize_plan-replays l again later q content status log now es ec free =
      rw
        (map_get-new q.snapshot_id (new_snapshot action_hash snapshot_hash content) log.snapshots
          free)
        (rw ec (
          rw
            (is_repeat-decision locale_compare inputs_hash l now
              (moved (new_action action_hash snapshot_hash q content status log)) es)
            refl))

  -- A finalization that is repeated on the same inputs, by whatever run, after one that committed
  -- returns the snapshot of that decision and the pointer to it, which is the head, and leaves the history as it is.
  pub finalize_repeated :
      (l : Loaded) (run again : FinalizeRun) (id later_id now later : ℕ) (w : World)
      (s : Snapshot SnapshotContent) (a : Action ActionFields)
      → IsIntact action_hash snapshot_hash w.log
      → (finalize locale_compare inputs_hash action_hash snapshot_hash (some true) l run id now w).0
        ≡ committed s a
      → let w' =
          (finalize locale_compare inputs_hash action_hash snapshot_hash
            (some true)
            l
            run
            id
            now
            w).1 in
        (guard_write later w'.lock w'.lease).result ≡ true
        → let r =
            finalize locale_compare inputs_hash action_hash snapshot_hash
              (some true)
              l
              again
              later_id
              later
              w' in
          (r.0 ≡ replayed (some s.content) (some (moved a)))
          × (w'.log.head ≡ some (moved a))
          × (r.1.log ≡ w'.log)
  unfolding finalize guarded
  finalize_repeated l run again id later_id now later w s a i e ok =
      let q = request (some run.id) id now none finalizing in
      let plan = finalize_plan locale_compare inputs_hash l run now in
      let (g, c) = guarded-IsCommit action_hash snapshot_hash (some true) now q plan w s a i e in
      let (o, st, ct) =
        finalize_plan-writes locale_compare inputs_hash l run now w.log.head _ c.content c.status
          c.planned in
      let same : s.content ≡ c.content = ap (λ x. x.content) c.snapshot in
      let moved_to = λ (x : Action ActionFields). replay (some c.content) (some (moved x)) in
      let replays =
        finalize_plan-replays l again later q c.content c.status w.log now st ct c.new_id
        ∙ ap moved_to (sym c.action)
        ∙ ap (λ x. replay (some x) (some (moved a))) (sym same) in
      let (answer, kept) =
        run_t4-replays action_hash snapshot_hash later
          (request (some again.id) later_id later none finalizing)
          (finalize_plan locale_compare inputs_hash l again later)
          (finalize locale_compare inputs_hash action_hash snapshot_hash (some true) l run id now
            w).1
          (some s.content) (some (moved a)) c.intact ok
          (subst
            (λ z.
              finalize_plan locale_compare inputs_hash l again later z.head
                (previous_content z z.head)
              ≡ replay (some s.content) (some (moved a)))
            (sym c.grown) replays) in
      (answer, ap (λ z. z.head) c.grown ∙ ap (λ x. some (moved x)) (sym c.action), kept)
