-- ===== src/Decision/Runs.antt =====
-- A whole run of the transaction of a decision.
use Prim.Native.String.{String}
use fpl_radar.Prelude.{
  ℕ, ◌≡◌, refl, inl, inr, Bool, true, false, Option, none, some, if◌then◌else◌, Bool-cases,
}
use fpl_radar.EventState.{ResultStatus}
use fpl_radar.HashChain.{Body, valid}
use fpl_radar.Lock.Lease.{After, guard_write}
use fpl_radar.Winner.Inputs.{map_get, map_has}
use fpl_radar.Decision.Types.{SnapshotContent, ActionFields, Head, DecisionLog, duplicate_snapshot}
use fpl_radar.Decision.Repo.{previous_content, verify_log}
use fpl_radar.Decision.Transaction.{
  Plan, Planned, write, replay, refuse, Request, World, Decided, committed, replayed, refused,
  chain_of, carry_out, end_run, decide_in_transaction, run_t4,
}
use fpl_radar.Decision.Chain.{
  IsIntact, new_snapshot, new_action, extended, write_decision-eq, extended-IsIntact,
}

module _ (action_hash : Body ActionFields → String) (snapshot_hash : SnapshotContent → String) where
  -- What a plan leads to on a log that verifies.
  abbrev pub carried_out : Request → Planned → DecisionLog → Decided × DecisionLog
  carried_out q (refuse r) log = (refused r, log)
  carried_out q (replay prev head) log = (replayed prev head, log)
  carried_out q (write content status) log =
      if map_has log.snapshots q.snapshot_id then (refused duplicate_snapshot, log) else (
        committed (new_snapshot action_hash snapshot_hash content)
            (new_action action_hash snapshot_hash q content status log),
        extended action_hash snapshot_hash q content status log,
      )

  chain_of-valid :
      (head : Option Head) (log : DecisionLog)
      → verify_log action_hash snapshot_hash log ≡ valid
      → chain_of action_hash snapshot_hash head log ≡ valid
  chain_of-valid none log h = refl
  chain_of-valid (some x) log h = h

  carry_out-eq :
      (q : Request) (p : Planned) (log : DecisionLog)
      → IsIntact action_hash snapshot_hash log
      → carry_out action_hash snapshot_hash q p log ≡ carried_out q p log
  unfolding carry_out map_get
  carry_out-eq q (refuse r) log w = refl
  carry_out-eq q (replay prev head) log w = refl
  carry_out-eq q (write content status) log w =
      elim (Bool-cases (map_has log.snapshots q.snapshot_id)) [
        | inl e ↦
            rw (write_decision-eq action_hash snapshot_hash q content status log w, carry_out)
              (rw e refl)
        | inr e ↦
            rw (write_decision-eq action_hash snapshot_hash q content status log w, carry_out)
              (rw e refl)
      ]

  decide_in_transaction-eq :
      (q : Request) (plan : Plan) (log : DecisionLog)
      → IsIntact action_hash snapshot_hash log
      → decide_in_transaction action_hash snapshot_hash q plan log
        ≡ carried_out q (plan log.head (previous_content log log.head)) log
  unfolding decide_in_transaction
  decide_in_transaction-eq q plan log w =
      rw (chain_of-valid log.head log w.sound, decide_in_transaction)
        (carry_out-eq q (plan log.head (previous_content log log.head)) log w)

  -- What is true of a run that leaves the world it leaves.
  unfoldable pub IsSoundRun : Request → Plan → World → Bool → Decided → World → Type 0
  IsSoundRun q plan w let_through (refused r) w' = (w'.log ≡ w.log) × (w'.lock ≡ w.lock)
  IsSoundRun q plan w let_through (replayed prev head) w' =
      (let_through ≡ true)
      × (plan w.log.head (previous_content w.log w.log.head) ≡ replay prev head)
      × (w'.log ≡ w.log)
  IsSoundRun q plan w let_through (committed s a) w' =
      (let_through ≡ true)
      × (content : SnapshotContent) × (status : ResultStatus) × (plan w.log.head
            (previous_content w.log w.log.head)
          ≡ write content status)
      × (s ≡ new_snapshot action_hash snapshot_hash content)
      × (a ≡ new_action action_hash snapshot_hash q content status w.log)
      × (w'.log ≡ extended action_hash snapshot_hash q content status w.log)
      × (map_has w.log.snapshots q.snapshot_id ≡ false)

  end_run-IsSoundRun :
      (q : Request) (plan : Plan) (w : World) (g : After) (p : Planned)
      → IsIntact action_hash snapshot_hash w.log
      → plan w.log.head (previous_content w.log w.log.head) ≡ p
      → let (d, w') = end_run g w (carried_out q p w.log) in
        IsIntact action_hash snapshot_hash w'.log × IsSoundRun q plan w true d w'
  unfolding end_run IsSoundRun
  end_run-IsSoundRun q plan w g (refuse r) i e = (i, (refl, refl))
  end_run-IsSoundRun q plan w g (replay prev head) i e = (i, (refl, e, refl))
  end_run-IsSoundRun q plan w g (write content status) i e =
      elim (Bool-cases (map_has w.log.snapshots q.snapshot_id)) [
        | inl t ↦ rw t (i, (refl, refl))
        | inr t ↦ rw t (
          extended-IsIntact action_hash snapshot_hash q content status w.log i t,
          (refl, content, status, e, refl, refl, refl, t),
        )
      ]

  -- On a history that verifies, a run leaves a history that verifies. If it refuses, neither the
  -- history nor the lock is changed; if it replays, the plan asked for that answer and the history is the same.
  -- If it commits, the lease let the write through and the plan asked for a content and a status: the
  -- history is the old one with one more snapshot, which has a new id and that content, one more action at the end,
  -- with the next sequence number and the hash of the head before, and a head that points to both.
  pub run_t4_lem :
      (now : ℕ) (q : Request) (plan : Plan) (w : World)
      → IsIntact action_hash snapshot_hash w.log
      → IsIntact action_hash snapshot_hash (run_t4 action_hash snapshot_hash now q plan w).1.log
        × IsSoundRun q plan w
            (guard_write now w.lock w.lease).result
            (run_t4 action_hash snapshot_hash now q plan w).0
            (run_t4 action_hash snapshot_hash now q plan w).1
  unfolding run_t4 IsSoundRun
  run_t4_lem now q plan w i =
      let g = guard_write now w.lock w.lease in
      let p = plan w.log.head (previous_content w.log w.log.head) in
      elim (Bool-cases g.result) [
        | inr e ↦ rw e (i, (refl, refl))
        | inl e ↦
            rw (decide_in_transaction-eq q plan w.log i)
              (rw e (end_run-IsSoundRun q plan w g p i refl))
      ]

  pub run_t4-commits :
      (now : ℕ) (q : Request) (plan : Plan) (w : World) (content : SnapshotContent)
      (status : ResultStatus)
      → IsIntact action_hash snapshot_hash w.log
      → (guard_write now w.lock w.lease).result ≡ true
      → map_has w.log.snapshots q.snapshot_id ≡ false
      → plan w.log.head (previous_content w.log w.log.head) ≡ write content status
      → ((run_t4 action_hash snapshot_hash now q plan w).0
          ≡ committed
              (new_snapshot action_hash snapshot_hash content)
              (new_action action_hash snapshot_hash q content status w.log))
        × ((run_t4 action_hash snapshot_hash now q plan w).1.log
            ≡ extended action_hash snapshot_hash q content status w.log)
  unfolding run_t4 end_run
  run_t4-commits now q plan w content status i h t e =
      rw (decide_in_transaction-eq q plan w.log i) (rw h (rw e (rw t (refl, refl))))

  pub run_t4-replays :
      (now : ℕ) (q : Request) (plan : Plan) (w : World) (prev : Option SnapshotContent)
      (head : Option Head)
      → IsIntact action_hash snapshot_hash w.log
      → (guard_write now w.lock w.lease).result ≡ true
      → plan w.log.head (previous_content w.log w.log.head) ≡ replay prev head
      → ((run_t4 action_hash snapshot_hash now q plan w).0 ≡ replayed prev head)
        × ((run_t4 action_hash snapshot_hash now q plan w).1.log ≡ w.log)
  unfolding run_t4 end_run
  run_t4-replays now q plan w prev head i h e =
      rw (decide_in_transaction-eq q plan w.log i) (rw h (rw e (refl, refl)))
