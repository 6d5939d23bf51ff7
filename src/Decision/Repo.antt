-- ===== src/Decision/Repo.antt =====
-- The writes of server/src/repositories/resultRepo.js and the check of the chain. Each is one step of a
-- transaction, which is undone as a whole when one of them throws.
use Prim.Native.String.{String}
use fpl_radar.Prelude.{
  ℕ, ◌+◌, Bool, true, false, not, Option, none, some, [], ◌∷◌, ◌++◌, if◌then◌else◌, ◌==◌, any,
}
use fpl_radar.HashChain.{
  Body, Action, Snapshot, Pointer, Fields, Verification, verify_with, next_action, seq_after,
}
use fpl_radar.Winner.Inputs.{map_get, map_has}
use fpl_radar.Decision.Types.{
  SnapshotContent, ActionFields, Head, DecisionLog, Refusal, concurrent_decision,
  duplicate_snapshot, bad_head,
}

pub data Result (A : Type 0) : Type 0 where
  ok : A → Result A
  err : Refusal → Result A

infixl 5 ◌>>=◌
abbrev pub ◌>>=◌ : {A B : Type 0} → Result A → (A → Result B) → Result B
ok a >>= f = f a
err e >>= f = err e

abbrev pub pointer_of : Option Head → Option Pointer
pointer_of none = none
pointer_of (some h) = some h.pointer

abbrev pub current_id : Option Head → Option ℕ
current_id none = none
current_id (some h) = some h.pointer.current_snapshot_id

-- `getSnapshot(head.currentSnapshotId)`, read by its content.
abbrev content_of : Option (Snapshot SnapshotContent) → Option SnapshotContent
content_of none = none
content_of (some s) = some s.content

abbrev pub previous_content : DecisionLog → Option Head → Option SnapshotContent
previous_content log none = none
previous_content log (some h) = content_of (map_get h.pointer.current_snapshot_id log.snapshots)

abbrev pub same_id : Option ℕ → Option ℕ → Bool
same_id none none = true
same_id (some a) (some b) = a == b
same_id _ _ = false

module _ (action_hash : Body ActionFields → String) (snapshot_hash : SnapshotContent → String) where
  -- `resultRepo.verifyChain`: the map of snapshots is never empty, and the walk reads it at the ids of
  -- actions only, so the whole collection stands for the snapshots found by them.
  unfoldable pub verify_log : DecisionLog → Verification
  verify_log log =
      verify_with action_hash snapshot_hash false log.actions log.snapshots (pointer_of log.head)

  -- The id is the database's; one that is taken fails the insertion.
  unfoldable pub insert_snapshot :
      ℕ → SnapshotContent → DecisionLog → Result (Snapshot SnapshotContent × DecisionLog)
  insert_snapshot id content log =
      let s : Snapshot SnapshotContent = record {
        content = content;
        content_hash = snapshot_hash content;
      } in
      if map_has log.snapshots id
      then err duplicate_snapshot
      else ok (s, record log { snapshots = (id, s) ∷ log.snapshots })

  unfoldable pub append_action :
      Option Head → Fields ActionFields → DecisionLog → Result (Action ActionFields × DecisionLog)
  unfolding next_action
  append_action head f log =
      let a = next_action action_hash snapshot_hash (pointer_of head) f in
      if not (same_id f.rest.prev_snapshot_id (current_id head))
      then err bad_head
      else if any (λ b. b.body.seq == a.body.seq) log.actions
      then err concurrent_decision
      else ok (a, record log { actions = log.actions ++ a ∷ [] })

abbrev pub moved : Action ActionFields → Head
moved a = record {
  pointer = record {
    head_seq = a.body.seq;
    head_hash = a.hash;
    current_snapshot_id = a.body.new_snapshot_id;
  };
  status = a.body.other.new_status;
}

-- The filter of the update: the stored document has the expected sequence number, or is not there.
abbrev pub head_matches : Option Head → Option Head → Bool
head_matches none none = true
head_matches none (some stored) = false
head_matches (some h) none = false
head_matches (some h) (some stored) = stored.pointer.head_seq == h.pointer.head_seq

unfoldable pub move_pointer : Option Head → Action ActionFields → DecisionLog → Result DecisionLog
move_pointer head a log =
    if not (a.body.seq == seq_after (pointer_of head) + 1)
    then err bad_head
    else if head_matches head log.head
    then ok (record log { head = some (moved a) })
    else err concurrent_decision
