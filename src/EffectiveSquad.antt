-- ===== src/EffectiveSquad.antt =====
-- server/src/analytics/effectiveSquad.js: the multipliers of a squad after substitutions and the
-- captain's armband. A `Map` that is only read by key is a function of the key.
pub mod Single
pub mod Laws
pub mod Boost
use Prim.Native.String.{String}
use fpl_radar.Prelude.{
  ℕ, zero, suc, ◌+◌, Bool, true, false, ◌&&◌, ◌||◌, not, Option, none, some, List, [], ◌∷◌, ◌++◌,
  map, if◌then◌else◌, ◌==◌, leb, ltb, any, find,
}
use fpl_radar.Prelude.Int.{ℤ, pos, ◌+ℤ◌, ◌*ℤ◌, eq_ℤ}
use fpl_radar.Prelude.Sort.{sort_by}
use fpl_radar.Winner.Inputs.{map_get}

pub record Pick : Type 0 where
  pub element_id : ℕ
  pub squad_position : ℕ
  pub is_captain : Bool
  pub is_vice_captain : Bool
  pub fpl_multiplier : ℕ

pub data Chip : Type 0 where
  bench_boost triple_captain wildcard free_hit : Chip
  unknown_chip : String → Chip

pub data SubSource : Type 0 where
  fpl simulated : SubSource

pub record AutoSub : Type 0 where
  pub element_in : ℕ
  pub element_out : ℕ
  pub source : SubSource

pub record LiveStat : Type 0 where
  pub minutes : ℕ
  pub total_points : ℤ
  pub fixtures_settled : Bool

pub record SquadInput : Type 0 where
  pub picks : List Pick
  pub active_chip : Option Chip
  pub auto_subs : List AutoSub
  pub live : List (ℕ × LiveStat)
  pub gross_gw_points : Option ℤ

pub data SubMark : Type 0 where
  went_out came_in : SubMark

pub data Via : Type 0 where
  by_captain by_vice pending nobody : Via

pub record EffectiveCaptain : Type 0 where
  pub element_id : Option ℕ
  pub via : Via

pub record EffectivePick : Type 0 where
  pub element_id : ℕ
  pub squad_position : ℕ
  pub picked_multiplier : ℕ
  pub effective_multiplier : ℕ
  pub auto_subbed : Option SubMark

pub data SquadWarning : Type 0 where
  unknown_chip_played fpl_multiplier_differs effective_points_mismatch : SquadWarning

pub record EffectiveSquad : Type 0 where
  pub picks : List EffectivePick
  pub picked_captain : Option ℕ
  pub picked_vice : Option ℕ
  pub cap_mult : ℕ
  pub effective_captain : EffectiveCaptain
  pub is_bench_boost : Bool
  pub auto_sub_source : Option SubSource
  pub reconstructed_points : ℤ
  pub captain_points : Option ℤ
  pub warnings : List SquadWarning

abbrev pub is_bench_boost : Option Chip → Bool
is_bench_boost (some bench_boost) = true
is_bench_boost _ = false

abbrev pub cap_mult_of : Option Chip → ℕ
cap_mult_of (some triple_captain) = 3
cap_mult_of _ = 2

abbrev is_unknown : Option Chip → Bool
is_unknown (some (unknown_chip s)) = true
is_unknown _ = false

abbrev pub by_position : Pick → Pick → Bool
by_position a b = leb a.squad_position b.squad_position

abbrev element_of : Option Pick → Option ℕ
element_of none = none
element_of (some p) = some p.element_id

-- `benchBoost || p.squadPosition <= 11 ? 1 : 0`
abbrev pub start_multiplier : Bool → Pick → ℕ
start_multiplier boost p = if boost || leb p.squad_position 11 then 1 else 0

-- `new Map(sorted.map(...))`, in which a later pick of the same element wins.
unfoldable pub base_of : Bool → List Pick → ℕ → Option ℕ
base_of boost [] id = none
base_of boost (p ∷ ps) id = elim (base_of boost ps id) [
  | some n ↦ some n
  | none ↦ if id == p.element_id then some (start_multiplier boost p) else none
]

abbrev pub set_at {ℓ} : {V : Type ℓ} → ℕ → V → (ℕ → Option V) → ℕ → Option V
set_at k v m id = if id == k then some v else m id

-- A `get` whose key is known to be there.
abbrev pub or_zero : Option ℕ → ℕ
or_zero none = 0
or_zero (some n) = n

abbrev pub is_there : Option ℕ → Bool
is_there none = false
is_there (some n) = true

-- `base` and `autoSubbed` in the loop over the substitutions.
pub record Subbed : Type 0 where
  pub base : ℕ → Option ℕ
  pub marks : ℕ → Option SubMark

abbrev pub move : ℕ → ℕ → SubMark → Subbed → Subbed
move id n mark s =
    if is_there (s.base id)
    then record { base = set_at id n s.base; marks = set_at id mark s.marks }
    else s

unfoldable pub substitute : List AutoSub → Subbed → Subbed
substitute [] s = s
substitute (a ∷ rest) s =
    substitute rest (move a.element_in 1 came_in (move a.element_out 0 went_out s))

abbrev pub stat : List (ℕ × LiveStat) → ℕ → LiveStat
stat live id = elim (map_get id live) [
  | some s ↦ s
  | none ↦ record { minutes = 0; total_points = pos 0; fixtures_settled = false }
]

abbrev pub played : List (ℕ × LiveStat) → Option ℕ → Bool
played live none = false
played live (some id) = ltb 0 (stat live id).minutes

abbrev pub settled : List (ℕ × LiveStat) → Option ℕ → Bool
settled live none = false
settled live (some id) = (stat live id).fixtures_settled || played live (some id)

abbrev pub is_positive : Option ℕ → Bool
is_positive none = false
is_positive (some n) = ltb 0 n

-- `base.get(id) > 0`; a captain of null is in no map.
abbrev pub fielded : (ℕ → Option ℕ) → Option ℕ → Bool
fielded base none = false
fielded base (some id) = is_positive (base id)

abbrev pub multiply : Option ℕ → ℕ → (ℕ → Option ℕ) → ℕ → Option ℕ
multiply none n base = base
multiply (some id) n base = set_at id n base

-- Captain resolution: the multipliers and who has the armband.
unfoldable pub resolve_captain :
    List (ℕ × LiveStat)
    → ℕ
    → Option ℕ
    → Option ℕ
    → (ℕ → Option ℕ)
    → (ℕ → Option ℕ) × EffectiveCaptain
resolve_captain live mult captain vice base =
    if played live captain && fielded base captain
    then (multiply captain mult base, record { element_id = captain; via = by_captain })
    else if not (settled live captain)
    then (
      if fielded base captain then multiply captain mult base else base,
      record { element_id = captain; via = pending },
    )
    else if played live vice && fielded base vice
    then (multiply vice mult base, record { element_id = vice; via = by_vice })
    else if not (settled live vice)
    then (base, record { element_id = none; via = pending })
    else (base, record { element_id = none; via = nobody })

-- `pickedMultiplier(p)`
abbrev picked_multiplier_of : Bool → ℕ → Pick → ℕ
picked_multiplier_of boost mult p = if p.is_captain then mult else start_multiplier boost p

abbrev pub effective_pick : Bool → ℕ → (ℕ → Option SubMark) → (ℕ → Option ℕ) → Pick → EffectivePick
effective_pick boost mult marks effective p = record {
  element_id = p.element_id;
  squad_position = p.squad_position;
  picked_multiplier = picked_multiplier_of boost mult p;
  effective_multiplier = or_zero (effective p.element_id);
  auto_subbed = marks p.element_id;
}

unfoldable points_of : List (ℕ × LiveStat) → List EffectivePick → ℤ
points_of live [] = pos 0
points_of live (p ∷ ps) =
    pos p.effective_multiplier *ℤ (stat live p.element_id).total_points +ℤ points_of live ps

abbrev pub is_pending : Via → Bool
is_pending pending = true
is_pending _ = false

abbrev warn_if : Bool → SquadWarning → List SquadWarning
warn_if true w = w ∷ []
warn_if false w = []

abbrev points_differ : ℤ → Option ℤ → Bool
points_differ n none = false
points_differ n (some g) = not (eq_ℤ n g)

-- The points of the effective captain with the multiplier.
unfoldable pub captain_points_of :
    List (ℕ × LiveStat) → (ℕ → Option ℕ) → EffectiveCaptain → Option ℤ
captain_points_of live effective c =
    let points : ℤ = elim c.element_id [
      | none ↦ pos 0
      | some id ↦ (stat live id).total_points *ℤ pos (or_zero (effective id))
    ] in
    if is_pending c.via then none else some points

-- `autoSubs[0].source`, if the substitutions count.
abbrev source_of : Bool → List AutoSub → Option SubSource
source_of true subs = none
source_of false [] = none
source_of false (a ∷ rest) = some a.source

abbrev no_marks : ℕ → Option SubMark
no_marks id = none

-- `base` and `autoSubbed` after the substitutions, which do not count under a bench boost.
unfoldable pub subbed_of : SquadInput → Subbed
unfolding base_of substitute
subbed_of i =
    let boost = is_bench_boost i.active_chip in
    let start : Subbed = record {
      base = base_of boost (sort_by by_position i.picks);
      marks = no_marks;
    } in
    if boost then start else substitute i.auto_subs start

abbrev pub captain_of : SquadInput → Option ℕ
captain_of i = element_of (find (λ p. p.is_captain) (sort_by by_position i.picks))

abbrev pub vice_of : SquadInput → Option ℕ
vice_of i = element_of (find (λ p. p.is_vice_captain) (sort_by by_position i.picks))

unfoldable pub armband : SquadInput → (ℕ → Option ℕ) × EffectiveCaptain
unfolding resolve_captain subbed_of
armband i =
    resolve_captain i.live (cap_mult_of i.active_chip) (captain_of i) (vice_of i) (subbed_of i).base

unfoldable pub derive_effective_squad : SquadInput → EffectiveSquad
unfolding armband points_of captain_points_of
derive_effective_squad i =
    let boost = is_bench_boost i.active_chip in
    let mult = cap_mult_of i.active_chip in
    let sorted = sort_by by_position i.picks in
    let subbed = subbed_of i in
    let (effective, captain) = armband i in
    let out = map (effective_pick boost mult subbed.marks effective) sorted in
    let points = points_of i.live out in
    let settled_now = not (is_pending captain.via) in
    record {
      picks = out;
      picked_captain = captain_of i;
      picked_vice = vice_of i;
      cap_mult = mult;
      effective_captain = captain;
      is_bench_boost = boost;
      auto_sub_source = source_of boost i.auto_subs;
      reconstructed_points = points;
      captain_points = captain_points_of i.live effective captain;
      warnings =
          warn_if (is_unknown i.active_chip) unknown_chip_played
          ++ warn_if
              (settled_now
                && any (λ p. not (p.fpl_multiplier == or_zero (effective p.element_id))) sorted)
              fpl_multiplier_differs
          ++ warn_if (settled_now && points_differ points i.gross_gw_points)
              effective_points_mismatch;
    }
