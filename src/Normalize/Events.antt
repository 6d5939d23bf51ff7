-- ===== src/Normalize/Events.antt =====
-- The events of a season with their fixtures (server/src/sync/normalize.js, `buildEvents`).
use fpl_radar.Prelude.{
  ℕ, Bool, true, false, Option, none, some, List, map, if◌then◌else◌, leb, keep,
}
use fpl_radar.Prelude.Sort.{sort_by}
use fpl_radar.Constants.{EventState}
use fpl_radar.EventState.{Fixture, is_in, derive_event_state}
use fpl_radar.Winner.Inputs.{map_get}

pub record FplFixture : Type 0 where
  pub id : ℕ
  pub event : Option ℕ
  pub team_h : ℕ
  pub team_a : ℕ
  pub team_h_difficulty : Option ℕ
  pub team_a_difficulty : Option ℕ
  pub kickoff_time : Option ℕ
  pub started : Bool
  pub finished : Bool
  pub finished_provisional : Bool
  pub team_h_score : Option ℕ
  pub team_a_score : Option ℕ

pub record SyncedFixture : Type 0 where
  pub id : ℕ
  pub team_h : ℕ
  pub team_a : ℕ
  pub team_h_fdr : Option ℕ
  pub team_a_fdr : Option ℕ
  pub kickoff_time : Option ℕ
  pub started : Bool
  pub finished : Bool
  pub finished_provisional : Bool
  pub team_h_score : Option ℕ
  pub team_a_score : Option ℕ

abbrev fixture_of : FplFixture → SyncedFixture
fixture_of f = record {
  id = f.id;
  team_h = f.team_h;
  team_a = f.team_a;
  team_h_fdr = f.team_h_difficulty;
  team_a_fdr = f.team_a_difficulty;
  kickoff_time = f.kickoff_time;
  started = f.started;
  finished = f.finished;
  finished_provisional = f.finished_provisional;
  team_h_score = f.team_h_score;
  team_a_score = f.team_a_score;
}

pub record FplEvent : Type 0 where
  pub id : ℕ
  pub deadline_time : ℕ
  pub is_current : Bool
  pub is_next : Bool
  pub finished : Bool
  pub data_checked : Bool

pub record SyncedEvent : Type 0 where
  pub gw : ℕ
  pub deadline_time : ℕ
  pub is_current : Bool
  pub is_next : Bool
  pub finished : Bool
  pub data_checked : Bool
  pub state : EventState
  pub data_checked_observed_at : Option ℕ
  pub fixtures : List SyncedFixture

abbrev is_unscheduled : FplFixture → Bool
is_unscheduled f = elim f.event [ none ↦ true | some e ↦ false ]

-- The fixtures that `byEvent` groups under an event, sorted.
unfoldable fixtures_at : ℕ → List FplFixture → List FplFixture
unfolding sort_by
fixtures_at gw fixtures = sort_by (λ a b. leb a.id b.id) (keep (λ f. is_in gw f.event) fixtures)

abbrev state_fixture : FplFixture → Fixture
state_fixture f = record {
  event = f.event;
  finished = f.finished;
  finished_provisional = f.finished_provisional;
}

-- `existing.get(e.id)?.dataCheckedObservedAt ?? null`
abbrev pub stored_at : ℕ → List (ℕ × Option ℕ) → Option ℕ
stored_at gw existing = elim (map_get gw existing) [ none ↦ none | some at ↦ at ]

-- `prev ?? observedAt`
abbrev pub first_observed : Option ℕ → ℕ → Option ℕ
first_observed none at = some at
first_observed (some prev) at = some prev

unfoldable pub event_of : List FplFixture → ℕ → ℕ → List (ℕ × Option ℕ) → FplEvent → SyncedEvent
unfolding fixtures_at derive_event_state map_get
event_of fixtures now observed_at existing e =
    let played = fixtures_at e.id fixtures in
    record {
      gw = e.id;
      deadline_time = e.deadline_time;
      is_current = e.is_current;
      is_next = e.is_next;
      finished = e.finished;
      data_checked = e.data_checked;
      state =
          derive_event_state
            (record {
              id = e.id;
              deadline_time = e.deadline_time;
              finished = e.finished;
              data_checked = e.data_checked;
            })
            (some (map state_fixture played)) now;
      data_checked_observed_at =
          if e.data_checked then first_observed (stored_at e.id existing) observed_at else none;
      fixtures = map fixture_of played;
    }

pub record Built : Type 0 where
  pub events : List SyncedEvent
  pub unscheduled_fixtures : List SyncedFixture

-- The events and the fixtures of a response, the stored instants by gameweek.
unfoldable pub build_events : List FplEvent → List FplFixture → ℕ → ℕ → List (ℕ × Option ℕ) → Built
unfolding event_of sort_by
build_events events fixtures now observed_at existing = record {
  events = map (event_of fixtures now observed_at existing) (sort_by (λ a b. leb a.id b.id) events);
  unscheduled_fixtures =
      sort_by (λ a b. leb a.id b.id) (map fixture_of (keep is_unscheduled fixtures));
}
