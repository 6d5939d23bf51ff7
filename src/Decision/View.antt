-- ===== src/Decision/View.antt =====
-- What is shown of a gameweek after a decision (server/src/services/resultService.js, `getResult`).
use Prim.Native.Nat.{Ordering}
use Prim.Native.String.{String}
use fpl_radar.Prelude.{ℕ, false, ◌≡◌, refl, sym, ap, ◌∙◌, none, some, []}
use fpl_radar.EventState.{ResultStatus}
use fpl_radar.HashChain.{Body, Action, Snapshot, next_action}
use fpl_radar.Winner.{GwInput}
use fpl_radar.Winner.Inputs.{map_get, map_has}
use fpl_radar.Decision.Types.{SnapshotContent, ActionFields, DecisionLog, Loaded}
use fpl_radar.Decision.Repo.{moved}
use fpl_radar.Decision.Transaction.{Plan, Request, World, committed, run_t4}
use fpl_radar.Decision.Chain.{IsIntact, map_get-new, new_snapshot, new_action, extended}
use fpl_radar.Decision.Commit.{run_t4-IsCommit}
use fpl_radar.Decision.Service.{finalize_gate}
use fpl_radar.Decision.Shown.{get_result, decided_view, decided, ResultView}

module _ (locale_compare : String → String → Ordering) (inputs_hash : GwInput → String)
    (action_hash : Body ActionFields → String) (snapshot_hash : SnapshotContent → String) where
  get_result-extended :
      (l : Loaded) (q : Request) (content : SnapshotContent) (status : ResultStatus)
      (log : DecisionLog)
      → map_has log.snapshots q.snapshot_id ≡ false
      → let log' = extended action_hash snapshot_hash q content status log in
        get_result locale_compare inputs_hash l log'
        ≡ some (
            decided_view l
              (finalize_gate locale_compare inputs_hash l none log'.head)
              (moved (new_action action_hash snapshot_hash q content status log))
              content)
  unfolding get_result next_action map_get
  get_result-extended l q content status log free =
      rw
        (
          map_get-new q.snapshot_id (new_snapshot action_hash snapshot_hash content) log.snapshots
              free,
          get_result,
        )
        refl

  -- What a decision committed is what is shown next, on whatever inputs have been synchronised since:
  -- its status, its declared and computed winners, its table, and its snapshot and number in the history;
  -- no member is listed as blocking it.
  pub decision_shown :
      (l : Loaded) (now : ℕ) (q : Request) (plan : Plan) (w : World) (s : Snapshot SnapshotContent)
      (a : Action ActionFields)
      → IsIntact action_hash snapshot_hash w.log
      → (run_t4 action_hash snapshot_hash now q plan w).0 ≡ committed s a
      → (v : ResultView) × (get_result locale_compare inputs_hash l
            (run_t4 action_hash snapshot_hash now q plan w).1.log
          ≡ some v)
        × (v.status ≡ decided a.body.other.new_status)
        × (v.winners ≡ s.content.declared_winners)
        × (v.computed_winners ≡ s.content.computed_winners)
        × (v.standings ≡ s.content.standings)
        × (v.blocked_by ≡ [])
        × (v.current_snapshot_id ≡ some q.snapshot_id)
        × (v.head_seq ≡ a.body.seq)
  unfolding next_action
  decision_shown l now q plan w s a i e =
      let c = run_t4-IsCommit action_hash snapshot_hash now q plan w s a i e in
      let x = new_action action_hash snapshot_hash q c.content c.status w.log in
      let shown = get_result-extended l q c.content c.status w.log c.new_id in
      (
        decided_view l
            (finalize_gate locale_compare inputs_hash l none
              (extended action_hash snapshot_hash q c.content c.status w.log).head)
            (moved x) c.content,
        ap (get_result locale_compare inputs_hash l) c.grown ∙ shown,
        ap (λ b. decided b.body.other.new_status) (sym c.action),
        ap (λ t. t.content.declared_winners) (sym c.snapshot),
        ap (λ t. t.content.computed_winners) (sym c.snapshot),
        ap (λ t. t.content.standings) (sym c.snapshot),
        refl,
        refl,
        ap (λ b. b.body.seq) (sym c.action),
      )
