-- ===== src/Tests/Sync.antt =====
-- Runs of a synchronisation (server/src/repositories/syncRunRepo.js, snapshotUpsert.js and
-- server/src/sync/normalize.js).
use Prim.Native.String.{String}
use mathlib.Core.List.Memᴰ
use fpl_radar.Prelude.Sort.{sort_by}
use fpl_radar.Prelude.{
  arith, ℕ, ◌+◌, ◌≡◌, refl, sym, ap, ◌∙◌, true, false, none, some, List, [], ◌∷◌, ◌++◌, map, Memᴰ,
  if◌then◌else◌, ◌==◌,
}
use fpl_radar.EventState.{running, success, abandoned}
use fpl_radar.SyncRun.{SyncRun, Collected, find_run, finish_run, mark_abandoned, end_job}
use fpl_radar.SyncRun.Changes.{Reach, here, next, finish}
use fpl_radar.SyncRun.Traces.{stopped_stays, IdsUnique, abandoned_reported}
use fpl_radar.SyncRun.Job.{JobWorld, JobStart, start_job, IsHeldBy, IsOpened, start_job_lem}
use fpl_radar.Lock.Lease.{Lease, try_acquire_lease}
use fpl_radar.Tests.Locks.{held}
use fpl_radar.Upsert.{RunContext, Item, Stored, Upserted, upsert_snapshots, find_stored, bulk_write}
use fpl_radar.Upsert.Laws.{kept_of, only_unchanged, upsert_repeated}
use fpl_radar.Normalize.Events.{FplEvent, FplFixture, build_events}
use fpl_radar.Normalize.Replay.{stored_of, IdsIdentify, build_events_replay}
use fpl_radar.Prelude.Int.{pos, eq_ℤ, ◌-ℤ◌}
use fpl_radar.Constants.{unverified}
use fpl_radar.Reconcile.{gross}
use fpl_radar.Winner.Inputs.{map_get}
use fpl_radar.Normalize.Season.{FplHistory, SeasonBuild, build_season_rows}
use fpl_radar.Normalize.Evidence.{EventsIdentify, build_season_rows_replay}
use fpl_radar.Normalize.Members.{
  LeagueMember, Settings, merge_league_members, settings_of, has_id, ids_of, new_member,
  merge_league_members_lem,
}

abbrev started : SyncRun
started = record {
  id = 31;
  lock_id = 4;
  fencing_token = 100;
  status = running;
  requests = 900 ∷ [];
  failures = [];
  warnings = [];
  started_at = 500;
  finished_at = none;
  expire_at = some 900;
}

abbrev given_up : SyncRun
given_up = record started { status = abandoned; finished_at = some 600 }

-- The next holder of the lock gives the run up.
taken_over : (mark_abandoned 4 101 600 (started ∷ [])).0 ≡ given_up ∷ []
unfolding mark_abandoned
taken_over = refl

abbrev after_finish : List SyncRun
after_finish = (finish_run 31 success [] [] 700 (given_up ∷ [])).0

abbrev late_finish : Reach (given_up ∷ []) after_finish
late_finish = next (finish 31 success [] [] 700 (given_up ∷ [])) (here after_finish)

found : find_run 31 (given_up ∷ []) ≡ some given_up
unfolding find_run
found = refl

stopped_stays_example : (r : SyncRun) × (find_run 31 after_finish ≡ some r) × (r.status ≡ abandoned)
stopped_stays_example = stopped_stays 31 given_up late_finish found refl

one_document : IdsUnique (given_up ∷ [])
unfolding find_run
one_document x (Memᴰ.head e) =
    ap (λ y. if 31 == y.id then some given_up else none) e ∙ ap some (sym e)
one_document x (Memᴰ.tail m) = absurd (Memᴰ.not-nil m)

abbrev all_well : Collected
all_well = record { warnings = []; failures = []; partial = false; thrown = none }

abandoned_reported_example :
    ((end_job 31 700 all_well after_finish).1 ≡ abandoned)
    × ((end_job 31 700 all_well after_finish).0 ≡ after_finish)
abandoned_reported_example =
    abandoned_reported 31 700 given_up all_well one_document late_finish found refl

abbrev text_hash : String → String
text_hash s = s

abbrev two_items : List (Item String)
two_items =
    record { id = 1; content = "gw1"; settled = true }
    ∷ record { id = 2; content = "gw2"; settled = false }
    ∷ []

abbrev first_run : RunContext
first_run = record { run_id = 31; at = 700 }

abbrev second_run : RunContext
second_run = record { run_id = 32; at = 800 }

abbrev old_document : Stored String
old_document = record {
  id = 1;
  content = "gw1, live";
  provenance = record {
    last_confirmed_by = 30;
    last_confirmed_at = 600;
    last_changed_by = 30;
    last_changed_at = 600;
    content_hash = "gw1, live";
    settled = true;
  };
}

abbrev outcome : Upserted
outcome = record {
  inserted = 2 ∷ [];
  changed = 1 ∷ [];
  unchanged = [];
  settled_row_changes = record { id = 1; old_hash = "gw1, live"; new_hash = "gw1" } ∷ [];
}

abbrev written : List (Stored String)
written = bulk_write text_hash first_run two_items (old_document ∷ [])

first_write :
    upsert_snapshots text_hash first_run two_items (old_document ∷ []) ≡ some (outcome, written)
unfolding upsert_snapshots find_stored
first_write = refl

upsert_repeated_example :
    (store : List (Stored String)) × (upsert_snapshots text_hash second_run two_items written
      ≡ some (only_unchanged text_hash two_items, store))
    × (map kept_of store ≡ map kept_of written)
upsert_repeated_example =
    upsert_repeated text_hash first_run second_run two_items (old_document ∷ []) outcome written
      first_write

abbrev week_one : FplEvent
week_one = record {
  id = 1;
  deadline_time = 100;
  is_current = true;
  is_next = false;
  finished = true;
  data_checked = true;
}

abbrev one_fixture : FplFixture
one_fixture = record {
  id = 5;
  event = some 1;
  team_h = 1;
  team_a = 2;
  team_h_difficulty = some 3;
  team_a_difficulty = none;
  kickoff_time = some 200;
  started = true;
  finished = true;
  finished_provisional = true;
  team_h_score = some 2;
  team_a_score = some 0;
}

one_event : IdsIdentify (week_one ∷ [])
one_event x y (Memᴰ.head p) (Memᴰ.head q) e = p ∙ sym q
one_event x y (Memᴰ.tail m) n e = absurd (Memᴰ.not-nil m)
one_event x y (Memᴰ.head p) (Memᴰ.tail m) e = absurd (Memᴰ.not-nil m)

build_events_replay_example :
    build_events
      (week_one ∷ [])
      (one_fixture ∷ [])
      900
      950
      (stored_of (build_events (week_one ∷ []) (one_fixture ∷ []) 900 910 []).events)
    ≡ build_events (week_one ∷ []) (one_fixture ∷ []) 900 910 []
build_events_replay_example =
    build_events_replay (week_one ∷ []) (one_fixture ∷ []) 900 910 950 [] one_event

abbrev by_hand : LeagueMember
by_hand = record (new_member 7) { added_manually = true; is_excluded = true }

merged :
    merge_league_members (by_hand ∷ new_member 8 ∷ []) (9 ∷ 9 ∷ 7 ∷ [])
    ≡ by_hand ∷ record (new_member 8) { left_league = true } ∷ new_member 9 ∷ []
unfolding merge_league_members
merged = refl

merge_league_members_lem_example :
    (merge_league_members (merge_league_members (by_hand ∷ []) (9 ∷ [])) (9 ∷ [])
      ≡ merge_league_members (by_hand ∷ []) (9 ∷ []))
    × ((rest : List Settings) × (map settings_of (merge_league_members (by_hand ∷ []) (9 ∷ []))
          ≡ map settings_of (by_hand ∷ []) ++ rest))
    × ((x : ℕ)
        → Memᴰ x (9 ∷ [])
        → has_id (ids_of (merge_league_members (by_hand ∷ []) (9 ∷ []))) x ≡ true)
merge_league_members_lem_example = merge_league_members_lem (by_hand ∷ []) (9 ∷ [])

-- Two gameweeks, the second with a hit that proves gross points.
abbrev history_row : ℕ → ℕ → ℕ → ℕ → FplHistory
history_row event points cost total = record {
  row = record {
    event = event;
    points = pos points;
    event_transfers_cost = pos cost;
    total_points = pos total;
  };
  event_transfers = 1;
  points_on_bench = pos 3;
  overall_rank = none;
  bank = 5;
  value = 1000;
}

abbrev season_build : SeasonBuild
season_build = record {
  season = "2026-27";
  entry_id = 7;
  event = 2;
  history = history_row 1 50 0 50 ∷ history_row 2 60 4 106 ∷ [];
  chips = [];
  picks = none;
  season_semantics = unverified;
  event_states = [];
  existing_rows = [];
  picks_request = none;
}

abbrev next_build : SeasonBuild
next_build = record season_build { event = 3 }

first_evidence : (build_season_rows season_build).evidence ≡ (2, gross) ∷ []
unfolding build_season_rows sort_by map_get eq_ℤ ◌-ℤ◌
first_evidence = refl

two_weeks : EventsIdentify season_build.history
two_weeks x y (Memᴰ.head p) (Memᴰ.head q) e = p ∙ sym q
two_weeks x y (Memᴰ.tail (Memᴰ.head p)) (Memᴰ.tail (Memᴰ.head q)) e = p ∙ sym q
two_weeks x y (Memᴰ.head p) (Memᴰ.tail (Memᴰ.head q)) e =
    absurd (omega (arith, ap (λ z. z.event) p, ap (λ z. z.event) q, e))
two_weeks x y (Memᴰ.tail (Memᴰ.head p)) (Memᴰ.head q) e =
    absurd (omega (arith, ap (λ z. z.event) p, ap (λ z. z.event) q, e))
two_weeks x y (Memᴰ.tail (Memᴰ.tail m)) n e = absurd (Memᴰ.not-nil m)
two_weeks x y (Memᴰ.head p) (Memᴰ.tail (Memᴰ.tail n)) e = absurd (Memᴰ.not-nil n)
two_weeks x y (Memᴰ.tail (Memᴰ.head p)) (Memᴰ.tail (Memᴰ.tail n)) e = absurd (Memᴰ.not-nil n)

build_season_rows_replay_example :
    (build_season_rows (record next_build {
      history = season_build.history;
      existing_rows = (build_season_rows season_build).rows;
    })).evidence
    ≡ []
build_season_rows_replay_example = build_season_rows_replay season_build next_build two_weeks

-- The lock of the run `started` has expired, and the next job takes it.
abbrev job_world : JobWorld
job_world = record { lock = some held; runs = started ∷ [] }

abbrev new_lease : Lease
new_lease = record { owner = 8; fencing_token = 300; ttl_ms = 120; lost = false; released = false }

job_started : (start_job false false 4 8 120 300 job_world).0 ≡ JobStart.started new_lease 1
unfolding start_job
job_started = refl

start_job_lem_example :
    ((try_acquire_lease 8 120 300 (some held)).1 ≡ some new_lease)
    × IsHeldBy 8 (300 + 120) new_lease (start_job false false 4 8 120 300 job_world).1.lock
    × IsOpened 4 8 new_lease (start_job false false 4 8 120 300 job_world).1.runs
start_job_lem_example = start_job_lem false false 4 8 120 300 job_world new_lease 1 job_started
