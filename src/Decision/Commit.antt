-- ===== src/Decision/Commit.antt =====
-- What is known of a decision that was committed.
use Prim.Native.String.{String}
use fpl_radar.Prelude.{ℕ, ◌≡◌, refl, subst, Bool, true, false, Option, none, some}
use fpl_radar.EventState.{ResultStatus}
use fpl_radar.HashChain.{Body, Action, Snapshot}
use fpl_radar.Lock.Lease.{guard_write}
use fpl_radar.Decision.Types.{SnapshotContent, ActionFields}
use fpl_radar.Decision.Repo.{previous_content}
use fpl_radar.Decision.Transaction.{write, Plan, Request, World, committed, run_t4}
use fpl_radar.Winner.Inputs.{map_has}
use fpl_radar.Decision.Chain.{IsIntact, new_snapshot, new_action, extended}
use fpl_radar.Decision.Runs.{IsSoundRun, run_t4_lem}
use fpl_radar.Decision.Service.{guarded}

-- What a commit stands for.
pub record IsCommit (action_hash : Body ActionFields → String)
    (snapshot_hash : SnapshotContent → String) (q : Request) (plan : Plan) (w : World)
    (s : Snapshot SnapshotContent) (a : Action ActionFields) (w' : World) : Type 0 where
  pub content : SnapshotContent
  pub status : ResultStatus
  pub planned : plan w.log.head (previous_content w.log w.log.head) ≡ write content status
  pub snapshot : s ≡ new_snapshot action_hash snapshot_hash content
  pub action : a ≡ new_action action_hash snapshot_hash q content status w.log
  pub grown : w'.log ≡ extended action_hash snapshot_hash q content status w.log
  pub new_id : map_has w.log.snapshots q.snapshot_id ≡ false
  pub intact : IsIntact action_hash snapshot_hash w'.log

module _ (action_hash : Body ActionFields → String) (snapshot_hash : SnapshotContent → String) where
  pub run_t4-IsCommit :
      (now : ℕ) (q : Request) (plan : Plan) (w : World) (s : Snapshot SnapshotContent)
      (a : Action ActionFields)
      → IsIntact action_hash snapshot_hash w.log
      → (run_t4 action_hash snapshot_hash now q plan w).0 ≡ committed s a
      → IsCommit action_hash snapshot_hash q plan w s a
          (run_t4 action_hash snapshot_hash now q plan w).1
  unfolding IsSoundRun
  run_t4-IsCommit now q plan w s a i e =
      let w' = (run_t4 action_hash snapshot_hash now q plan w).1 in
      let (_, content, status, p, es, ea, eg, en) =
        subst
          (λ d.
            IsSoundRun action_hash snapshot_hash q plan w (guard_write now w.lock w.lease).result d
              w')
          e (run_t4_lem action_hash snapshot_hash now q plan w i).1 in
      record {
        content = content;
        status = status;
        planned = p;
        snapshot = es;
        action = ea;
        grown = eg;
        new_id = en;
        intact = (run_t4_lem action_hash snapshot_hash now q plan w i).0;
      }

  pub guarded-IsCommit :
      (group : Option Bool) (now : ℕ) (q : Request) (plan : Plan) (w : World)
      (s : Snapshot SnapshotContent) (a : Action ActionFields)
      → IsIntact action_hash snapshot_hash w.log
      → (guarded action_hash snapshot_hash group now q plan w).0 ≡ committed s a
      → (group ≡ some true)
        × IsCommit action_hash snapshot_hash q plan w s a
            (guarded action_hash snapshot_hash group now q plan w).1
  unfolding guarded
  guarded-IsCommit none now q plan w s a i e = cc
  guarded-IsCommit (some false) now q plan w s a i e = cc
  guarded-IsCommit (some true) now q plan w s a i e = (refl, run_t4-IsCommit now q plan w s a i e)
