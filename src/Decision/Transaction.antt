-- ===== src/Decision/Transaction.antt =====
-- `runT4` of server/src/services/resultService.js: the transaction of a decision. Transactions are one
-- step each, since all of them write the lock document first. The retention of sources is not modelled.
use Prim.Native.String.{String}
use fpl_radar.Prelude.{ℕ, not, Option, none, some, if◌then◌else◌}
use fpl_radar.EventState.{ResultStatus}
use fpl_radar.HashChain.{Body, Action, Snapshot, Fields, Verification, valid, invalid}
use fpl_radar.Lock.{LockDoc}
use fpl_radar.Lock.Lease.{Lease, After, guard_write}
use fpl_radar.Decision.Types.{
  SnapshotContent, DecisionKind, ActionFields, Head, DecisionLog, Refusal, lock_lost, chain_invalid,
}
use fpl_radar.Decision.Explain.{declared_of}
use fpl_radar.Decision.Repo.{
  Result, ok, err, ◌>>=◌, current_id, previous_content, verify_log, insert_snapshot, append_action,
  move_pointer,
}

-- What `plan` returns or throws. A replay has the `snapshot` and the `pointer` to return.
pub data Planned : Type 0 where
  write : SnapshotContent → ResultStatus → Planned
  replay : Option SnapshotContent → Option Head → Planned
  refuse : Refusal → Planned

abbrev pub Plan : Type 0
Plan = Option Head → Option SnapshotContent → Planned

pub record Request : Type 0 where
  pub kind : DecisionKind
  pub note : Option String
  pub sync_run_id : Option ℕ
  pub snapshot_id : ℕ
  pub created_at : ℕ

pub record World : Type 0 where
  pub lock : Option LockDoc
  pub lease : Lease
  pub log : DecisionLog

pub data Decided : Type 0 where
  committed : Snapshot SnapshotContent → Action ActionFields → Decided
  replayed : Option SnapshotContent → Option Head → Decided
  refused : Refusal → Decided

abbrev pub status_of_head : Option Head → Option ResultStatus
status_of_head none = none
status_of_head (some h) = some h.status

abbrev pub action_fields :
    Request
    → Option Head
    → Option SnapshotContent
    → Snapshot SnapshotContent
    → ResultStatus
    → Fields ActionFields
action_fields q head prev s status = record {
  snapshot_id = q.snapshot_id;
  snapshot_hash = s.content_hash;
  rest = record {
    kind = q.kind;
    prev_status = status_of_head head;
    new_status = status;
    prev_winners = declared_of prev;
    new_winners = s.content.declared_winners;
    prev_snapshot_id = current_id head;
    note = q.note;
    sync_run_id = q.sync_run_id;
    created_at = q.created_at;
  };
}

-- How the transaction ends. A refusal undoes the write of the lock document too; the lease object
-- remembers a lost lease.
unfoldable pub end_run : After → World → Decided × DecisionLog → Decided × World
end_run g w (refused r, log) = (refused r, w)
end_run g w (replayed prev head, log) =
    (replayed prev head, record w { lock = g.store; lease = g.lease })
end_run g w (committed s a, log) =
    (committed s a, record { lock = g.store; lease = g.lease; log = log })

module _ (action_hash : Body ActionFields → String) (snapshot_hash : SnapshotContent → String) where
  -- The writes after the plan.
  unfoldable pub write_decision :
      Request
      → SnapshotContent
      → ResultStatus
      → DecisionLog
      → Result ((Snapshot SnapshotContent × Action ActionFields) × DecisionLog)
  unfolding insert_snapshot append_action move_pointer
  write_decision q content status log =
      let head = log.head in
      insert_snapshot action_hash snapshot_hash q.snapshot_id content log >>= λ (s, log1).
      append_action action_hash snapshot_hash head
        (action_fields q head (previous_content log head) s status) log1
      >>= λ (a, log2). move_pointer head a log2 >>= λ log3. ok ((s, a), log3)

  abbrev pub chain_of : Option Head → DecisionLog → Verification
  chain_of none log = valid
  chain_of (some h) log = verify_log action_hash snapshot_hash log

  -- What follows the plan.
  unfoldable pub carry_out : Request → Planned → DecisionLog → Decided × DecisionLog
  unfolding write_decision
  carry_out q (refuse r) log = (refused r, log)
  carry_out q (replay prev head) log = (replayed prev head, log)
  carry_out q (write content status) log = elim (write_decision q content status log) [
    | err r ↦ (refused r, log)
    | ok ((s, a), log') ↦ (committed s a, log')
  ]

  -- The callback of the transaction, after its fence: what it returns and the log it leaves.
  unfoldable pub decide_in_transaction : Request → Plan → DecisionLog → Decided × DecisionLog
  unfolding carry_out verify_log
  decide_in_transaction q plan log = elim (chain_of log.head log) [
    | invalid n r ↦ (refused (chain_invalid (invalid n r)), log)
    | valid ↦ carry_out q (plan log.head (previous_content log log.head)) log
  ]

  unfoldable pub run_t4 : ℕ → Request → Plan → World → Decided × World
  unfolding end_run decide_in_transaction guard_write
  run_t4 now q plan w =
      let g = guard_write now w.lock w.lease in
      if not g.result
      then (refused lock_lost, record w { lease = g.lease })
      else end_run g w (decide_in_transaction q plan w.log)
