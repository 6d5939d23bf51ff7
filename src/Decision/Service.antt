-- ===== src/Decision/Service.antt =====
-- The decisions of server/src/services/resultService.js: what `plan` of each operation loads, refuses
-- and writes, and the operations on the world after the lease was taken (and, for `finalize`, after its
-- sync run). The inputs that `loadResultInputs` reads are an argument, and so are `localeCompare` and
-- the content hashes.
use Prim.Native.Nat.{Ordering}
use Prim.Native.String.{String}
use fpl_radar.Prelude.{
  ℕ, Bool, true, false, ◌&&◌, not, Option, none, some, List, [], ◌∷◌, ◌++◌, map, if◌then◌else◌,
  ◌==◌, leb, length, any, keep,
}
use fpl_radar.Prelude.Sort.{sort_by}
use fpl_radar.Prelude.Texts.{same_text}
use fpl_radar.Constants.{is_data_checked}
use fpl_radar.EventState.{final, overridden, SyncRunStatus, is_success}
use fpl_radar.HashChain.{Body}
use fpl_radar.FinalizeGate.{GateInputs, GateRequest, GateResult, evaluate_finalize_gate}
use fpl_radar.Winner.{
  GwInput, GwResult, PreviewStatus, provisional, blocked, compute_gw_result, is_empty,
}
use fpl_radar.Decision.Types.{
  SnapshotKind, rule_based, by_override, Explanation, SnapshotContent, ActionFields, DecisionKind,
  Head, Loaded, finalizing, overriding, recomputing, BlockReason, sync_not_success, result_blocked,
  by_gate, RecomputeReason, group_archived_now, not_data_checked_now, reconciliation_failed_now,
  Refusal, group_not_found, group_archived_error, not_final, note_required, override_not_allowed,
  duplicate_winners, finalize_blocked, winners_not_members, recompute_blocked,
}
use fpl_radar.Decision.Explain.{
  explain_decision, build_snapshot_input, same_ids, ResultDiff, diff_results,
}
use fpl_radar.Decision.Repo.{Result, ok, err}
use fpl_radar.Decision.Transaction.{
  Planned, write, replay, refuse, Plan, Request, World, Decided, refused, status_of_head, run_t4,
}

-- `requireGroup` on `isActive` of the stored group: what it throws.
abbrev require_group : Option Bool → Bool → Option Refusal
require_group none writable = some group_not_found
require_group (some active) writable =
    if writable && not active then some group_archived_error else none

abbrev pub gate_inputs : Loaded → GateInputs
gate_inputs l = record {
  event = l.gw.event;
  event_state = some l.gw.event_state;
  members = l.gw.members;
  gw_rows = l.gw.gw_rows;
  freshness = l.freshness;
  group_active = l.group_active;
  data_checked_observed_at = l.data_checked_observed_at;
}

-- The `SyncRun` of a finalization.
pub record FinalizeRun : Type 0 where
  pub id : ℕ
  pub status : SyncRunStatus

abbrev is_rule_based : SnapshotKind → Bool
is_rule_based rule_based = true
is_rule_based by_override = false

abbrev is_final : Option Head → Bool
is_final none = false
is_final (some h) = elim h.status [ final ↦ true | overridden ↦ false ]

abbrev pub is_provisional : PreviewStatus → Bool
is_provisional provisional = true
is_provisional blocked = false

-- `[...new Set(winners)]`: the first of equal ids stays.
unfoldable pub distinct_ids : List ℕ → List ℕ
distinct_ids [] = []
distinct_ids (w ∷ ws) = let rest = distinct_ids ws in w ∷ keep (λ v. not (v == w)) rest

abbrev pub is_in_ids : ℕ → List ℕ → Bool
is_in_ids id ids = any (λ x. x == id) ids

abbrev pub block_if : Bool → BlockReason → List BlockReason
block_if true r = r ∷ []
block_if false r = []

abbrev pub recompute_if : Bool → RecomputeReason → List RecomputeReason
recompute_if true r = r ∷ []
recompute_if false r = []

-- `!note`: an empty note is none.
abbrev pub has_note : Option String → Bool
has_note none = false
has_note (some t) = not (same_text t "")

abbrev pub is_undecided : Option Head → Bool
is_undecided none = true
is_undecided (some h) = false

-- The note that is stored; the other arguments of `runT4`.
abbrev pub request : Option ℕ → ℕ → ℕ → Option String → DecisionKind → Request
request run id at note kind = record {
  kind = kind;
  note = note;
  sync_run_id = run;
  snapshot_id = id;
  created_at = at;
}

module _ (action_hash : Body ActionFields → String) (snapshot_hash : SnapshotContent → String) where
  unfoldable pub guarded : Option Bool → ℕ → Request → Plan → World → Decided × World
  unfolding run_t4
  guarded group now q plan w = elim (require_group group true) [
    | some r ↦ (refused r, w)
    | none ↦ run_t4 action_hash snapshot_hash now q plan w
  ]

module _ (locale_compare : String → String → Ordering) (inputs_hash : GwInput → String) where
  abbrev pub computed : Loaded → GwResult
  computed l = compute_gw_result locale_compare l.gw

  -- The test of a repeated finalization.
  unfoldable pub is_repeat : Loaded → Option Head → Option SnapshotContent → Bool
  unfolding same_ids
  is_repeat l head none = false
  is_repeat l head (some prev) =
      is_final head
      && is_rule_based prev.kind
      && same_text prev.inputs_hash (inputs_hash l.gw)
      && same_ids prev.declared_winners (computed l).winners

  abbrev pub gate_request : Loaded → Option ℕ → Option Head → GateRequest
  gate_request l run head = record {
    result_status = status_of_head head;
    finalize_run_id = run;
    season_semantics = l.season_semantics;
  }

  unfoldable pub finalize_gate : Loaded → Option ℕ → Option Head → GateResult
  unfolding evaluate_finalize_gate
  finalize_gate l run head = evaluate_finalize_gate (gate_inputs l) (gate_request l run head)

  -- `FINALIZE_SYNC_NOT_SUCCESS` is no reason of the gate, so it is never there before.
  unfoldable pub finalize_refusals : Loaded → FinalizeRun → Option Head → List BlockReason
  unfolding finalize_gate
  finalize_refusals l run head =
      let gate = finalize_gate l (some run.id) head in
      block_if (not (is_success (some run.status))) sync_not_success
      ++ map by_gate gate.reasons
      ++ block_if (gate.allowed && not (is_provisional (computed l).status)) result_blocked

  unfoldable pub finalize_plan : Loaded → FinalizeRun → ℕ → Plan
  unfolding is_repeat finalize_refusals build_snapshot_input
  finalize_plan l run now head prev =
      if is_repeat l head prev
      then replay prev head
      else if not (is_empty (finalize_refusals l run head))
      then refuse (finalize_blocked (finalize_refusals l run head))
      else write
          (build_snapshot_input inputs_hash l (computed l) rule_based (computed l).winners now)
          final

  unfoldable pub override_plan : Loaded → List ℕ → ℕ → Plan
  unfolding build_snapshot_input
  override_plan l declared now head prev =
      let outsiders =
        keep (λ id. not (is_in_ids id (map (λ m. m.entry_id) l.gw.members))) declared in
      if not l.group_active
      then refuse group_archived_error
      else if is_undecided head && not (is_data_checked l.gw.event_state)
      then refuse override_not_allowed
      else if not (is_empty outsiders)
      then refuse (winners_not_members outsiders)
      else write (build_snapshot_input inputs_hash l (computed l) by_override declared now)
          overridden

  -- The reasons that `check` of a recomputation collects.
  unfoldable pub recompute_reasons : Loaded → List RecomputeReason
  recompute_reasons l =
      recompute_if (not l.group_active) group_archived_now
      ++ recompute_if (not (is_data_checked l.gw.event_state)) not_data_checked_now
      ++ recompute_if (not (is_provisional (computed l).status)) reconciliation_failed_now

  unfoldable pub recompute_check : Loaded → Option Head → Option SnapshotContent → Result ResultDiff
  unfolding recompute_reasons diff_results
  recompute_check l none prev = err not_final
  recompute_check l (some h) prev =
      if not (is_empty (recompute_reasons l))
      then err (recompute_blocked (recompute_reasons l))
      else ok (diff_results prev (computed l))

  -- The part of the plan after `check`.
  unfoldable pub plan_checked : Loaded → Option String → ℕ → Result ResultDiff → Planned
  unfolding build_snapshot_input
  plan_checked l text now (err r) = refuse r
  plan_checked l text now (ok diff) =
      if diff.winners_changed && not (has_note text)
      then refuse note_required
      else write
          (build_snapshot_input inputs_hash l (computed l) rule_based (computed l).winners now)
          final

  unfoldable pub recompute_plan : Loaded → Option String → ℕ → Plan
  unfolding recompute_check plan_checked
  recompute_plan l note now head prev = plan_checked l note now (recompute_check l head prev)

  -- The answer of a dry run: the difference, the winners and the trace.
  unfoldable pub recompute_preview :
      Option Bool
      → Loaded
      → Option Head
      → Option SnapshotContent
      → Result (ResultDiff × List ℕ × Explanation × String)
  unfolding recompute_check explain_decision
  recompute_preview group l head prev = elim (require_group group true) [
    | some r ↦ err r
    | none ↦ elim (recompute_check l head prev) [
      | err r ↦ err r
      | ok diff ↦ ok (diff, (computed l).winners, explain_decision (computed l), inputs_hash l.gw)
    ]
  ]

  module _ (action_hash : Body ActionFields → String)
      (snapshot_hash : SnapshotContent → String) where
    -- The part of `finalize` after its sync: `id` is the id the database gives.
    unfoldable pub finalize : Option Bool → Loaded → FinalizeRun → ℕ → ℕ → World → Decided × World
    unfolding guarded finalize_plan
    finalize group l run id now =
        guarded action_hash snapshot_hash group now (request (some run.id) id now none finalizing)
          (finalize_plan l run now)

    unfoldable pub override :
        Option Bool → Loaded → List ℕ → String → ℕ → ℕ → World → Decided × World
    unfolding run_t4 override_plan distinct_ids sort_by
    override group l winners note id now w =
        let declared = sort_by leb (distinct_ids winners) in
        elim (require_group group true) [
          | some r ↦ (refused r, w)
          | none ↦
              if not (length declared == length winners)
              then (refused duplicate_winners, w)
              else run_t4 action_hash snapshot_hash now (request none id now (some note) overriding)
                  (override_plan l declared now) w
        ]

    unfoldable pub recompute :
        Option Bool → Loaded → Option String → ℕ → ℕ → World → Decided × World
    unfolding guarded recompute_plan
    recompute group l note id now =
        guarded action_hash snapshot_hash group now (request none id now note recomputing)
          (recompute_plan l note now)
