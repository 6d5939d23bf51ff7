-- ===== src/Tests/Decisions.antt =====
-- Runs of the decisions on a gameweek (server/src/services/resultService.js).
use Prim.Native.Nat.{Ordering, compare}
use Prim.Native.String.{String, len}
use fpl_radar.Prelude.{
  ℕ, ◌≡◌, ◌≢◌, ◌⊎◌, ◌↔◌, refl, Bool, true, false, Option, none, some, [], ◌∷◌, map, Memᴰ, ◌==◌, leb,
  length, if◌then◌else◌,
}
use fpl_radar.Prelude.Int.{pos, ◌≤ℤ◌}
use fpl_radar.Prelude.Sort.{sort_by}
use fpl_radar.Constants.{data_checked, net_points, gross_before_hits, is_data_checked}
use fpl_radar.TieBreak.{TieBreakRow, by, fewer_transfer_cost}
use fpl_radar.Ranking.{rank_of}
use fpl_radar.EventState.{success, final, overridden}
use fpl_radar.Eligibility.{select_eligible}
use fpl_radar.HashChain.{Body, Action, Snapshot, next_action, verify_with}
use fpl_radar.Lock.Lease.{guard_write}
use fpl_radar.FinalizeGate.{gate_eligible, evaluate_finalize_gate}
use fpl_radar.FinalizeGate.Laws.{IsSettled}
use fpl_radar.Winner.{GwInput, provisional, compute_gw_result, scored_of}
use fpl_radar.Winner.Inputs.{map_get, map_has}
use fpl_radar.Decision.Types.{
  SnapshotContent, rule_based, by_override, ActionFields, DecisionLog, Loaded, finalizing,
  overriding, recomputing,
}
use fpl_radar.Decision.Explain.{build_snapshot_input, same_ids, declared_of}
use fpl_radar.Decision.Repo.{moved, previous_content, verify_log}
use fpl_radar.Decision.Transaction.{
  Plan, end_run, World, Decided, write, committed, replayed, run_t4, Request,
}
use fpl_radar.Decision.Chain.{IsIntact, extended-IsIntact, new_snapshot, new_action, extended}
use fpl_radar.Decision.Runs.{IsSoundRun, run_t4_lem, run_t4-commits}
use fpl_radar.Decision.Service.{
  FinalizeRun, request, gate_inputs, gate_request, computed, distinct_ids, override_plan,
  recompute_plan, finalize_plan, finalize, override, recompute, guarded, has_note,
}
use fpl_radar.Decision.Finalize.{AllOfEvent, finalize_lem}
use fpl_radar.Decision.Repeat.{finalize_repeated}
use fpl_radar.Decision.Override.{override_lem}
use fpl_radar.Decision.Recompute.{recompute_lem}
use fpl_radar.Decision.View.{decision_shown}
use fpl_radar.Decision.Shown.{ResultView, get_result, decided}
use fpl_radar.Tests.Results.{played, member}
use fpl_radar.Tests.Locks.{held, lease}
use fpl_radar.Tests.Gate.{confirmed_by}

-- Stand-ins for `localeCompare` and the content hashes.
abbrev by_length : String → String → Ordering
by_length s t = compare (len s) (len t)

abbrev inputs_text : GwInput → String
inputs_text i = if i.event == 5 then "week five" else "other"

abbrev content_text : SnapshotContent → String
content_text c = c.inputs_hash

abbrev action_text : Body ActionFields → String
action_text b = if b.seq == 1 then "first" else "later"

abbrev loaded : Loaded
loaded = record {
  gw = record {
    group = record {
      winner_rule = net_points;
      tie_break_rules = by fewer_transfer_cost ∷ [];
      my_entry_id = none;
    };
    event = 5;
    event_state = data_checked;
    members = member 7 ∷ member 3 ∷ [];
    gw_rows = played 7 (pos 60) (pos 0) (pos 300) ∷ played 3 (pos 70) (pos 0) (pos 320) ∷ [];
    effective_squads = [];
    managers = [];
  };
  freshness = confirmed_by 12 3 ∷ confirmed_by 12 7 ∷ [];
  group_active = true;
  data_checked_observed_at = some 400;
  season_semantics = gross_before_hits;
}

of_week : AllOfEvent loaded
of_week r (Memᴰ.head e) = cc
of_week r (Memᴰ.tail (Memᴰ.head e)) = cc
of_week r (Memᴰ.tail (Memᴰ.tail m)) = elim m [ ]

abbrev new_world : World
new_world = record {
  lock = some held;
  lease = lease;
  log = record { head = none; actions = []; snapshots = [] };
}

new_world-IsIntact : IsIntact action_text content_text new_world.log
unfolding verify_log sort_by verify_with
new_world-IsIntact = record { unheaded = λ e. refl; sound = refl }

abbrev run : FinalizeRun
run = record { id = 12; status = success }

abbrev first_content : SnapshotContent
first_content =
    build_snapshot_input inputs_text loaded (computed by_length inputs_text loaded) rule_based
      (computed by_length inputs_text loaded).winners 150

abbrev first_request : Request
first_request = request (some 12) 41 150 none finalizing

abbrev first_snapshot : Snapshot SnapshotContent
first_snapshot = new_snapshot action_text content_text first_content

abbrev first_action : Action ActionFields
first_action = new_action action_text content_text first_request first_content final new_world.log

winners_are : first_content.declared_winners ≡ 3 ∷ []
unfolding build_snapshot_input compute_gw_result sort_by map_get select_eligible rank_of
winners_are = refl

planned : finalize_plan by_length inputs_text loaded run 150 none none ≡ write first_content final
unfolding finalize_plan evaluate_finalize_gate compute_gw_result sort_by map_get select_eligible
planned = refl

let_through : (guard_write 150 new_world.lock new_world.lease).result ≡ true
unfolding guard_write
let_through = refl

new_id : map_has new_world.log.snapshots 41 ≡ false
unfolding map_get
new_id = refl

abbrev finalized : Decided × World
finalized =
    finalize by_length inputs_text action_text content_text (some true) loaded run 41 150 new_world

finalized-commits : finalized.0 ≡ committed first_snapshot first_action
unfolding finalize guarded
finalized-commits =
    (run_t4-commits action_text content_text 150 first_request
      (finalize_plan by_length inputs_text loaded run 150) new_world first_content final
      new_world-IsIntact let_through new_id planned).0

abbrev first_plan : Plan
first_plan = finalize_plan by_length inputs_text loaded run 150

run_t4_lem_example :
    IsIntact action_text content_text
      (run_t4 action_text content_text 150 first_request first_plan new_world).1.log
    × IsSoundRun action_text content_text first_request first_plan new_world
        (guard_write 150 new_world.lock new_world.lease).result
        (run_t4 action_text content_text 150 first_request first_plan new_world).0
        (run_t4 action_text content_text 150 first_request first_plan new_world).1
run_t4_lem_example =
    run_t4_lem action_text content_text 150 first_request first_plan new_world new_world-IsIntact

finalize_lem_example :
    (◌≡◌ {A = Option Bool} (some true) (some true))
    × (new_world.log.head ≡ none)
    × (loaded.gw.event_state ≡ data_checked)
    × (run.status ≡ success)
    × (first_action.body.other.new_status ≡ final)
    × (first_snapshot.content.declared_winners ≡ (computed by_length inputs_text loaded).winners)
    × ((x : ℕ) × Memᴰ x (computed by_length inputs_text loaded).winners)
    × ((x : ℕ)
        → Memᴰ x (computed by_length inputs_text loaded).winners
        → (c : TieBreakRow) × Memᴰ c (scored_of loaded.gw)
          × (c.entry_id ≡ x)
          × ((r : TieBreakRow) → Memᴰ r (scored_of loaded.gw) → r.score ≤ℤ c.score))
    × (observed : ℕ) × (loaded.data_checked_observed_at ≡ some observed)
    × ((m : ℕ)
        → Memᴰ m (gate_eligible (gate_inputs loaded))
        → IsSettled
            (gate_inputs loaded)
            (gate_request by_length inputs_text loaded (some 12) none)
            observed
            m)
finalize_lem_example =
    finalize_lem by_length inputs_text action_text content_text (some true) loaded run 41 150
      new_world first_snapshot first_action new_world-IsIntact of_week finalized-commits

let_through_again : (guard_write 160 finalized.1.lock finalized.1.lease).result ≡ true
unfolding finalize guarded run_t4 finalize_plan evaluate_finalize_gate compute_gw_result sort_by
    map_get select_eligible guard_write end_run verify_with next_action
let_through_again = refl

abbrev run_again : FinalizeRun
run_again = record { id = 13; status = success }

finalize_repeated_example :
    ((finalize by_length inputs_text action_text content_text
        (some true)
        loaded
        run_again
        42
        160
        finalized.1).0
      ≡ replayed (some first_snapshot.content) (some (moved first_action)))
    × (finalized.1.log.head ≡ some (moved first_action))
    × ((finalize by_length inputs_text action_text content_text
          (some true)
          loaded
          run_again
          42
          160
          finalized.1).1.log
        ≡ finalized.1.log)
finalize_repeated_example =
    finalize_repeated by_length inputs_text action_text content_text loaded run run_again 41 42 150
      160 new_world first_snapshot first_action new_world-IsIntact finalized-commits
      let_through_again

abbrev overridden_content : SnapshotContent
overridden_content =
    build_snapshot_input inputs_text loaded (computed by_length inputs_text loaded) by_override
      (7 ∷ []) 150

abbrev override_request : Request
override_request = request none 41 150 (some "agreed") overriding

override-commits :
    (override by_length inputs_text action_text content_text
      (some true)
      loaded
      (7 ∷ [])
      "agreed"
      41
      150
      new_world).0
    ≡ committed (new_snapshot action_text content_text overridden_content) (
        new_action action_text content_text override_request overridden_content overridden
          new_world.log)
unfolding override override_plan distinct_ids sort_by
override-commits =
    (run_t4-commits action_text content_text 150 override_request
      (override_plan by_length inputs_text loaded (7 ∷ []) 150) new_world overridden_content
      overridden new_world-IsIntact let_through new_id refl).0

override_lem_example :
    (◌≡◌ {A = Option Bool} (some true) (some true))
    × (loaded.group_active ≡ true)
    × ((new_world.log.head ≢ none) ⊎ (is_data_checked loaded.gw.event_state ≡ true))
    × (overridden ≡ overridden)
    × (length overridden_content.declared_winners ≡ 1)
    × ((x : ℕ) → Memᴰ x (7 ∷ []) ↔ Memᴰ x overridden_content.declared_winners)
    × ((x : ℕ)
        → Memᴰ x overridden_content.declared_winners
        → Memᴰ x (map (λ m. m.entry_id) loaded.gw.members))
    × (overridden_content.computed_winners ≡ (computed by_length inputs_text loaded).winners)
unfolding next_action
override_lem_example =
    override_lem by_length inputs_text action_text content_text (some true) loaded (7 ∷ []) "agreed"
      41 150 new_world (new_snapshot action_text content_text overridden_content)
      (new_action action_text content_text override_request overridden_content overridden
        new_world.log)
      new_world-IsIntact override-commits

-- The world after the override, where the winners of the rules are brought back.
abbrev overridden_log : DecisionLog
overridden_log =
    extended action_text content_text override_request overridden_content overridden new_world.log

abbrev overridden_world : World
overridden_world = record new_world { log = overridden_log }

overridden_log-IsIntact : IsIntact action_text content_text overridden_log
overridden_log-IsIntact =
    extended-IsIntact action_text content_text override_request overridden_content overridden
      new_world.log new_world-IsIntact new_id

abbrev recompute_request : Request
recompute_request = request none 42 150 (some "corrected") recomputing

recompute_new_id : map_has overridden_log.snapshots 42 ≡ false
unfolding map_get
recompute_new_id = refl

recompute_planned :
    recompute_plan by_length inputs_text loaded
      (some "corrected")
      150
      overridden_log.head
      (previous_content overridden_log overridden_log.head)
    ≡ write first_content final
unfolding recompute_plan compute_gw_result sort_by map_get select_eligible next_action same_ids
    rank_of
recompute_planned = refl

recompute-commits :
    (recompute by_length inputs_text action_text content_text
      (some true)
      loaded
      (some "corrected")
      42
      150
      overridden_world).0
    ≡ committed first_snapshot
        (new_action action_text content_text recompute_request first_content final overridden_log)
unfolding recompute guarded
recompute-commits =
    (run_t4-commits action_text content_text 150 recompute_request
      (recompute_plan by_length inputs_text loaded (some "corrected") 150) overridden_world
      first_content final overridden_log-IsIntact let_through recompute_new_id recompute_planned).0

recompute_lem_example :
    (◌≡◌ {A = Option Bool} (some true) (some true))
    × (loaded.group_active ≡ true)
    × (overridden_log.head ≢ none)
    × (is_data_checked loaded.gw.event_state ≡ true)
    × ((computed by_length inputs_text loaded).status ≡ provisional)
    × (final ≡ final)
    × (first_content.declared_winners ≡ (computed by_length inputs_text loaded).winners)
    × (◌≡◌ {A = Option String} (some "corrected") (some "corrected"))
    × (same_ids
            (sort_by leb (declared_of (previous_content overridden_log overridden_log.head)))
            first_content.declared_winners
          ≡ false
        → has_note (some "corrected") ≡ true)
unfolding next_action
recompute_lem_example =
    recompute_lem by_length inputs_text action_text content_text (some true) loaded
      (some "corrected") 42 150 overridden_world first_snapshot
      (new_action action_text content_text recompute_request first_content final overridden_log)
      overridden_log-IsIntact recompute-commits

run_t4-commits_first :
    (run_t4 action_text content_text 150 first_request first_plan new_world).0
    ≡ committed first_snapshot first_action
run_t4-commits_first =
    (run_t4-commits action_text content_text 150 first_request first_plan new_world first_content
      final new_world-IsIntact let_through new_id planned).0

decision_shown_example :
    (v : ResultView) × (get_result by_length inputs_text loaded
        (run_t4 action_text content_text 150 first_request first_plan new_world).1.log
      ≡ some v)
    × (v.status ≡ decided first_action.body.other.new_status)
    × (v.winners ≡ first_snapshot.content.declared_winners)
    × (v.computed_winners ≡ first_snapshot.content.computed_winners)
    × (v.standings ≡ first_snapshot.content.standings)
    × (v.blocked_by ≡ [])
    × (v.current_snapshot_id ≡ some 41)
    × (v.head_seq ≡ first_action.body.seq)
decision_shown_example =
    decision_shown by_length inputs_text action_text content_text loaded 150 first_request
      first_plan new_world first_snapshot first_action new_world-IsIntact run_t4-commits_first
