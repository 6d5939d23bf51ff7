-- ===== src/Decision/Chain.antt =====
-- Every decision leaves a history that verifies, and only adds to it.
use Prim.Native.String.{String}
use fpl_radar.Prelude.{
  ℕ, ◌+◌, ◌≤◌, ◌≡◌, refl, ap, subst, inl, inr, true, false, not, Option, none, some, List, [], ◌∷◌,
  ◌++◌, ◌==◌, ==_iff, if◌then◌else◌, any, none_any, length, All-mem, arith, Bool-cases,
}
use fpl_radar.Prelude.Sort.{sort_by, mem-sort_by}
use fpl_radar.Prelude.Texts.{same_text}
use fpl_radar.EventState.{ResultStatus}
use fpl_radar.HashChain.{
  Body, Action, Snapshot, valid, invalid, genesis, by_seq, check_snapshot, check_action, walk,
  verify_with, next_action, seq_after, seq_gap, prev_hash_mismatch, action_hash_mismatch,
}
use fpl_radar.HashChain.Laws.{check_action-IsLinked, step_valid, walk-Linked, verified}
use fpl_radar.HashChain.Append.{Linked-below, head_state, next_verifies}
use fpl_radar.Winner.Inputs.{map_get, map_has}
use fpl_radar.Decision.Types.{SnapshotContent, ActionFields, Head, DecisionLog, duplicate_snapshot}
use fpl_radar.Decision.Repo.{
  ok, err, pointer_of, current_id, previous_content, same_id, head_matches, moved, verify_log,
}
use fpl_radar.Decision.Transaction.{Request, action_fields, write_decision}

map_get-keep :
    {X : Type 0} (k j : ℕ) (v w : X) (m : List (ℕ × X))
    → map_get k m ≡ some v
    → map_get k ((j, w) ∷ m) ≡ some v
unfolding map_get
map_get-keep k j v w m h = rw h refl

pub map_get-new :
    {X : Type 0} (k : ℕ) (v : X) (m : List (ℕ × X))
    → map_has m k ≡ false
    → map_get k ((k, v) ∷ m) ≡ some v
unfolding map_get
map_get-new {X} k v m h = go (map_get k m) h
  where
    go :
        (o : Option X)
        → elim o [ some w ↦ true | none ↦ false ] ≡ false
        → elim o [ some w ↦ some w | none ↦ if k == k then some v else none ] ≡ some v
    go none h = rw ((==_iff k k).1 refl) refl
    go (some w) h = cc

module _ (action_hash : Body ActionFields → String) (snapshot_hash : SnapshotContent → String) where
  found_snapshot :
      (o : Option (Snapshot SnapshotContent)) (b : Body ActionFields)
      → check_snapshot action_hash snapshot_hash false o b ≡ valid
      → (s : Snapshot SnapshotContent) × (o ≡ some s)
  unfolding check_snapshot
  found_snapshot none b h = cc
  found_snapshot (some s) b h = (s, refl)

  -- A new snapshot does not disturb the check of an action whose snapshot was found.
  check_action-grow :
      (snaps : List (ℕ × Snapshot SnapshotContent)) (j : ℕ) (w : Snapshot SnapshotContent) (i : ℕ)
      (prev : String) (a : Action ActionFields)
      → check_action action_hash snapshot_hash false snaps i prev a ≡ valid
      → check_action action_hash snapshot_hash false ((j, w) ∷ snaps) i prev a ≡ valid
  unfolding check_action
  check_action-grow snaps j w i prev a h =
      let (_, c) = check_action-IsLinked action_hash snapshot_hash false snaps i prev a h in
      let (s, e) = found_snapshot (map_get a.body.new_snapshot_id snaps) a.body c in
      rw (map_get-keep a.body.new_snapshot_id j s w snaps e) (
        subst
          (λ o.
            (if not (a.body.seq == i + 1)
              then invalid (i + 1) (seq_gap (i + 1) a.body.seq)
              else if not (same_text a.body.prev_hash prev)
              then invalid a.body.seq prev_hash_mismatch
              else if not (same_text (action_hash a.body) a.hash)
              then invalid a.body.seq action_hash_mismatch
              else check_snapshot action_hash snapshot_hash false o a.body)
            ≡ valid)
          e h)

  walk-grow :
      (snaps : List (ℕ × Snapshot SnapshotContent)) (j : ℕ) (w : Snapshot SnapshotContent) (i : ℕ)
      (prev : String) (actions : List (Action ActionFields))
      → walk action_hash snapshot_hash false snaps i prev actions ≡ valid
      → walk action_hash snapshot_hash false ((j, w) ∷ snaps) i prev actions ≡ valid
  unfolding walk
  walk-grow snaps j w i prev [] h = refl
  walk-grow snaps j w i prev (a ∷ rest) h =
      let (c, k) =
        step_valid action_hash snapshot_hash
          (check_action action_hash snapshot_hash false snaps i prev a) _ h in
      rw (check_action-grow snaps j w i prev a c, walk) (walk-grow snaps j w (i + 1) a.hash rest k)

  pub record IsIntact (log : DecisionLog) : Type 0 where
    pub unheaded : log.head ≡ none → log.actions ≡ []
    pub sound : verify_log action_hash snapshot_hash log ≡ valid

  pointer_of-none : (h : Option Head) → pointer_of h ≡ none → h ≡ none
  pointer_of-none none e = refl
  pointer_of-none (some h) e = cc

  -- The next sequence number is free.
  seq_free :
      (log : DecisionLog)
      → IsIntact log
      → any (λ b. b.body.seq == seq_after (pointer_of log.head) + 1) log.actions ≡ false
  unfolding verify_log sort_by
  seq_free log w =
      let sorted = sort_by by_seq log.actions in
      let p = pointer_of log.head in
      let (k, c) = verified action_hash snapshot_hash false log.actions log.snapshots p w.sound in
      let (n, _) =
        head_state action_hash snapshot_hash sorted p
          (λ e. ap (sort_by by_seq) (w.unheaded (pointer_of-none log.head e))) c in
      let below =
        Linked-below action_hash snapshot_hash 0 genesis sorted
          (walk-Linked action_hash snapshot_hash false log.snapshots 0 genesis sorted k) in
      none_any (λ b. b.body.seq == seq_after p + 1) log.actions
        (λ a m.
          let b =
            All-mem (λ z. z.body.seq ≤ 0 + length sorted) sorted below
              (mem-sort_by by_seq log.actions m) in
          ground arith)

  verify-grow :
      (log : DecisionLog) (j : ℕ) (s : Snapshot SnapshotContent)
      → verify_log action_hash snapshot_hash log ≡ valid
      → verify_log action_hash snapshot_hash (record log { snapshots = (j, s) ∷ log.snapshots })
        ≡ valid
  unfolding verify_log verify_with
  verify-grow log j s h =
      let sorted = sort_by by_seq log.actions in
      let (k, c) =
        step_valid action_hash snapshot_hash
          (walk action_hash snapshot_hash false log.snapshots 0 genesis sorted) _ h in
      rw (walk-grow log.snapshots j s 0 genesis sorted k, verify_with) c

  same_id_self : (o : Option ℕ) → same_id o o ≡ true
  same_id_self none = refl
  same_id_self (some n) = (==_iff n n).1 refl

  head_matches_self : (h : Option Head) → head_matches h h ≡ true
  head_matches_self none = refl
  head_matches_self (some h) = (==_iff h.pointer.head_seq h.pointer.head_seq).1 refl

  -- The snapshot and the action that a decision adds.
  abbrev pub new_snapshot : SnapshotContent → Snapshot SnapshotContent
  new_snapshot content = record { content = content; content_hash = snapshot_hash content }

  abbrev pub new_action :
      Request → SnapshotContent → ResultStatus → DecisionLog → Action ActionFields
  new_action q content status log =
      next_action action_hash snapshot_hash (pointer_of log.head)
        (action_fields q log.head (previous_content log log.head) (new_snapshot content) status)

  abbrev pub extended : Request → SnapshotContent → ResultStatus → DecisionLog → DecisionLog
  extended q content status log = record {
    head = some (moved (new_action q content status log));
    actions = log.actions ++ new_action q content status log ∷ [];
    snapshots = (q.snapshot_id, new_snapshot content) ∷ log.snapshots;
  }

  pub write_decision-eq :
      (q : Request) (content : SnapshotContent) (status : ResultStatus) (log : DecisionLog)
      → IsIntact log
      → write_decision action_hash snapshot_hash q content status log ≡ (
          if map_has log.snapshots q.snapshot_id
          then err duplicate_snapshot
          else ok (
            (new_snapshot content, new_action q content status log),
            extended q content status log,
          ))
  unfolding write_decision next_action
  write_decision-eq q content status log w =
      elim (Bool-cases (map_has log.snapshots q.snapshot_id)) [
        | inl e ↦ rw e refl
        | inr e ↦ rw e (
            rw (same_id_self (current_id log.head)) (
              rw (seq_free log w) (
                rw
                  ((==_iff (seq_after (pointer_of log.head) + 1)
                      (seq_after (pointer_of log.head) + 1)).1
                    refl)
                  (rw (head_matches_self log.head) refl))))
      ]

  pub extended-IsIntact :
      (q : Request) (content : SnapshotContent) (status : ResultStatus) (log : DecisionLog)
      → IsIntact log
      → map_has log.snapshots q.snapshot_id ≡ false
      → IsIntact (extended q content status log)
  unfolding verify_log
  extended-IsIntact q content status log w e = record {
    unheaded = λ h. cc;
    sound =
        next_verifies action_hash snapshot_hash false log.actions
          ((q.snapshot_id, new_snapshot content) ∷ log.snapshots) (pointer_of log.head)
          (action_fields q log.head (previous_content log log.head) (new_snapshot content) status)
          (new_snapshot content) (λ h. w.unheaded (pointer_of-none log.head h))
          (map_get-new q.snapshot_id (new_snapshot content) log.snapshots e) refl refl
          (verify-grow log q.snapshot_id (new_snapshot content) w.sound);
  }
