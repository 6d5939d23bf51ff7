-- ===== src/Normalize/Live.antt =====
-- The live points of a gameweek, the picks and the transfers (server/src/sync/normalize.js), and the
-- rules of a squad (server/src/models/validation/picks.js). An id of a fixture or a team is a number.
use fpl_radar.Prelude.{
  ℕ, Bool, true, false, ◌||◌, not, Option, none, some, List, [], ◌∷◌, ◌++◌, map, if◌then◌else◌, leb,
  ◌==◌, keep, every, any, length,
}
use fpl_radar.Prelude.Int.{ℤ}
use fpl_radar.Prelude.Sort.{sort_by}
use fpl_radar.EffectiveSquad.{Pick, AutoSub, fpl, Chip}
use fpl_radar.Winner.Inputs.{map_get}
use fpl_radar.Normalize.Events.{SyncedFixture}

pub record LiveElement : Type 0 where
  pub id : ℕ
  pub explained : List ℕ
  pub total_points : ℤ
  pub minutes : ℕ

pub record SettledElement : Type 0 where
  pub element_id : ℕ
  pub total_points : ℤ
  pub minutes : ℕ
  pub settled : Bool

abbrev finished_entry : SyncedFixture → ℕ × Bool
finished_entry f = (f.id, f.finished)

-- `finished.get(id) === true`
abbrev is_finished : List SyncedFixture → ℕ → Bool
is_finished fixtures id = elim (map_get id (map finished_entry fixtures)) [
  | none ↦ false
  | some b ↦ b
]

abbrev plays : Option ℕ → SyncedFixture → Bool
plays none f = false
plays (some team) f = f.team_h == team || f.team_a == team

abbrev team_fixtures_done : List SyncedFixture → Option ℕ → Bool
team_fixtures_done fixtures team = every (λ f. f.finished) (keep (plays team) fixtures)

-- A repeated fixture does not change `every`, so the `Set` is not built.
abbrev is_settled : List SyncedFixture → Option ℕ → List ℕ → Bool
is_settled fixtures team [] = team_fixtures_done fixtures team
is_settled fixtures team (id ∷ ids) = every (is_finished fixtures) (id ∷ ids)

unfoldable live_elements_of :
    List LiveElement → List SyncedFixture → List (ℕ × ℕ) → List SettledElement
unfolding map_get sort_by
live_elements_of elements fixtures team_of =
    map
      (λ e. record {
        element_id = e.id;
        total_points = e.total_points;
        minutes = e.minutes;
        settled = is_settled fixtures (map_get e.id team_of) e.explained;
      })
      (sort_by (λ a b. leb a.id b.id) elements)

pub data PickViolation : Type 0 where
  pick_count captain_count vice_captain_count : ℕ → PickViolation
  duplicate_position duplicate_element same_captain : PickViolation

abbrev violation_if : Bool → PickViolation → List PickViolation
violation_if true v = v ∷ []
violation_if false v = []

-- `new Set(ids).size !== ids.length`
unfoldable repeats : List ℕ → Bool
repeats [] = false
repeats (x ∷ xs) = any (λ y. y == x) xs || repeats xs

abbrev same_first : List Pick → List Pick → Bool
same_first (c ∷ []) (v ∷ []) = c.element_id == v.element_id
same_first _ _ = false

unfoldable pub pick_violations : List Pick → List PickViolation
unfolding repeats
pick_violations picks =
    let captains = keep (λ p. p.is_captain) picks in
    let vices = keep (λ p. p.is_vice_captain) picks in
    violation_if (not (length picks == 15)) (pick_count (length picks))
    ++ violation_if (repeats (map (λ p. p.squad_position) picks)) duplicate_position
    ++ violation_if (repeats (map (λ p. p.element_id) picks)) duplicate_element
    ++ violation_if (not (length captains == 1)) (captain_count (length captains))
    ++ violation_if (not (length vices == 1)) (vice_captain_count (length vices))
    ++ violation_if (same_first captains vices) same_captain

-- The response, its field names read as those of a pick.
pub record PicksResponse : Type 0 where
  pub picks : List Pick
  pub automatic_subs : List (ℕ × ℕ)
  pub active_chip : Option Chip
  pub points : ℤ

pub record SyncedPicks : Type 0 where
  pub picks : List Pick
  pub auto_subs : List AutoSub
  pub active_chip : Option Chip
  pub picks_points : ℤ

pub data PicksResult : Type 0 where
  picked : SyncedPicks → PicksResult
  schema_fail : List PickViolation → PicksResult

abbrev pub no_violations : List PickViolation → Bool
no_violations [] = true
no_violations (v ∷ vs) = false

unfoldable picks_of : PicksResponse → PicksResult
unfolding pick_violations sort_by
picks_of r =
    let picks = sort_by (λ a b. leb a.squad_position b.squad_position) r.picks in
    if no_violations (pick_violations picks)
    then picked (record {
      picks = picks;
      auto_subs =
          map (λ s. record { element_in = s.0; element_out = s.1; source = fpl }) r.automatic_subs;
      active_chip = r.active_chip;
      picks_points = r.points;
    })
    else schema_fail (pick_violations picks)
