-- ===== src/Ownership.antt =====
-- server/src/analytics/ownership.js and the view of server/src/services/ownershipModel.js: how many of
-- the eligible managers own, field and captain each player. A share is its count and its denominator,
-- and an average its sum and its denominator: the division is left to the reader. Players stand for
-- their ids.
pub mod Scopes
pub mod Counts
pub mod Laws
use fpl_radar.Prelude.{
  ℕ, suc, ◌+◌, ◌*◌, Bool, true, false, ◌&&◌, ◌||◌, not, Option, none, some, List, [], ◌∷◌, ◌++◌,
  map, if◌then◌else◌, leb, ltb, ◌==◌, any, find, keep, length,
}
use fpl_radar.Prelude.Int.{ℤ, pos, ◌-ℤ◌}
use fpl_radar.Prelude.Sort.{sort_by}
use fpl_radar.Constants.{EventState, is_data_checked}
use fpl_radar.Eligibility.{Member, select_eligible}
use fpl_radar.Winner.Inputs.{map_get, map_has}
use fpl_radar.EffectiveSquad.{
  Pick, EffectivePick, EffectiveSquad, EffectiveCaptain, SquadInput, AutoSub, Chip, LiveStat,
  derive_effective_squad,
}
use fpl_radar.Normalize.Live.{PickViolation, pick_violations, no_violations}

pub record Share : Type 0 where
  pub count : ℕ
  pub of : ℕ

-- `s` of `scopeStats`
pub record Totals : Type 0 where
  pub squad : ℕ
  pub xi : ℕ
  pub captain : ℕ
  pub triple : ℕ
  pub eff_captain : ℕ
  pub picked_sum : ℕ
  pub eff_sum : ℕ

abbrev pub no_totals : Totals
no_totals = record {
  squad = 0;
  xi = 0;
  captain = 0;
  triple = 0;
  eff_captain = 0;
  picked_sum = 0;
  eff_sum = 0;
}

abbrev pub is_element : ℕ → Option ℕ → Bool
is_element element none = false
is_element element (some id) = id == element

abbrev pub one_if : Bool → ℕ
one_if true = 1
one_if false = 0

abbrev pub pick_of : ℕ → EffectiveSquad → Option EffectivePick
pick_of element s = find (λ p. p.element_id == element) s.picks

-- The body of the loop of `scopeStats`.
abbrev pub add_pick : ℕ → EffectiveSquad → Option EffectivePick → Totals → Totals
add_pick element s none t = t
add_pick element s (some p) t = record {
  squad = suc t.squad;
  xi = t.xi + one_if (leb p.squad_position 11);
  captain = t.captain + one_if (is_element element s.picked_captain);
  triple = t.triple + one_if (is_element element s.picked_captain && s.cap_mult == 3);
  eff_captain = t.eff_captain + one_if (is_element element s.effective_captain.element_id);
  picked_sum = t.picked_sum + p.picked_multiplier;
  eff_sum = t.eff_sum + p.effective_multiplier;
}

abbrev pub add_squad : ℕ → Option EffectiveSquad → Totals → Totals
add_squad element none t = t
add_squad element (some s) t = add_pick element s (pick_of element s) t

unfoldable pub scope_stats : List (ℕ × EffectiveSquad) → ℕ → List ℕ → Totals
unfolding map_get
scope_stats squads element [] = no_totals
scope_stats squads element (id ∷ ids) =
    add_squad element (map_get id squads) (scope_stats squads element ids)

pub record Both : Type 0 where
  pub rivals : Share
  pub all : Share

pub record OwnershipRow : Type 0 where
  pub element_id : ℕ
  pub picked_squad : Both
  pub picked_xi : Both
  pub picked_captain : Both
  pub picked_triple : Both
  pub effective_captain : Both
  pub picked_eo : Both
  pub effective_eo : Both
  pub my_picked_multiplier : Option ℕ
  pub my_effective_multiplier : Option ℕ
  pub owners : List ℕ

pub record Ownership : Type 0 where
  pub rivals : ℕ
  pub all : ℕ
  pub missing_entry_ids : List ℕ
  pub rows : List OwnershipRow

pub record OwnershipInput : Type 0 where
  pub squads : List (ℕ × EffectiveSquad)
  pub eligible : List ℕ
  pub my_entry_id : Option ℕ

unfoldable pub with_picks : OwnershipInput → List ℕ
unfolding map_get sort_by
with_picks i = sort_by leb (keep (map_has i.squads) i.eligible)

unfoldable pub missing : OwnershipInput → List ℕ
unfolding map_get sort_by
missing i = sort_by leb (keep (λ id. not (map_has i.squads id)) i.eligible)

-- `me`, where he counts.
unfoldable pub me_counted : OwnershipInput → Option ℕ
unfolding with_picks
me_counted i = elim i.my_entry_id [
  | none ↦ none
  | some me ↦ if any (λ id. id == me) (with_picks i) then some me else none
]

unfoldable pub rivals_of : OwnershipInput → List ℕ
unfolding with_picks me_counted
rivals_of i = keep (λ id. not (is_element id (me_counted i))) (with_picks i)

abbrev pub owns_squad : ℕ → Option EffectiveSquad → Bool
owns_squad element none = false
owns_squad element (some s) = any (λ p. p.element_id == element) s.picks

abbrev pub owns : List (ℕ × EffectiveSquad) → ℕ → ℕ → Bool
owns squads element id = owns_squad element (map_get id squads)

-- A multiplier of mine: none where I do not count, and 0 where I have not picked the player.
abbrev my_multiplier : (EffectivePick → ℕ) → Option EffectiveSquad → ℕ → Option ℕ
my_multiplier f none element = none
my_multiplier f (some s) element = elim (pick_of element s) [ none ↦ some 0 | some p ↦ some (f p) ]

abbrev my_squad : OwnershipInput → Option ℕ → Option EffectiveSquad
my_squad i none = none
my_squad i (some me) = map_get me i.squads

unfoldable pub ownership_row : OwnershipInput → ℕ → OwnershipRow
unfolding with_picks rivals_of scope_stats me_counted map_get
ownership_row i element =
    let r = scope_stats i.squads element (rivals_of i) in
    let a = scope_stats i.squads element (with_picks i) in
    let both : (Totals → ℕ) → Both = λ f. record {
      rivals = record { count = f r; of = length (rivals_of i) };
      all = record { count = f a; of = length (with_picks i) };
    } in
    record {
      element_id = element;
      picked_squad = both (λ t. t.squad);
      picked_xi = both (λ t. t.xi);
      picked_captain = both (λ t. t.captain);
      picked_triple = both (λ t. t.triple);
      effective_captain = both (λ t. t.eff_captain);
      picked_eo = both (λ t. t.picked_sum);
      effective_eo = both (λ t. t.eff_sum);
      my_picked_multiplier =
          my_multiplier (λ p. p.picked_multiplier) (my_squad i (me_counted i)) element;
      my_effective_multiplier =
          my_multiplier (λ p. p.effective_multiplier) (my_squad i (me_counted i)) element;
      owners = keep (owns i.squads element) (with_picks i);
    }

abbrev elements_of : Option EffectiveSquad → List ℕ
elements_of none = []
elements_of (some s) = map (λ p. p.element_id) s.picks

all_elements : List (ℕ × EffectiveSquad) → List ℕ → List ℕ
unfolding map_get
all_elements squads [] = []
all_elements squads (id ∷ ids) = elements_of (map_get id squads) ++ all_elements squads ids

distinct : List ℕ → List ℕ
distinct [] = []
distinct (x ∷ xs) = let rest = distinct xs in x ∷ keep (λ y. not (y == x)) rest

-- The averages of all have one denominator, so their sums are compared.
abbrev pub row_before : OwnershipRow → OwnershipRow → Bool
row_before x y =
    if x.effective_eo.all.count == y.effective_eo.all.count
    then leb x.element_id y.element_id
    else ltb y.effective_eo.all.count x.effective_eo.all.count

-- The players of the view, each once.
unfoldable pub picked_elements : OwnershipInput → List ℕ
unfolding all_elements distinct
picked_elements i = distinct (all_elements i.squads (with_picks i))

unfoldable pub compute_ownership : OwnershipInput → Ownership
unfolding ownership_row picked_elements missing sort_by
compute_ownership i = record {
  rivals = length (rivals_of i);
  all = length (with_picks i);
  missing_entry_ids = missing i;
  rows = sort_by row_before (map (ownership_row i) (picked_elements i));
}

-- A squad as it is stored.
pub record StoredSquad : Type 0 where
  pub entry_id : ℕ
  pub picks : List Pick
  pub active_chip : Option Chip
  pub auto_subs : List AutoSub
  pub gross_gw_points : Option ℤ

-- The loop of `buildOwnershipView`: the squads that are counted, and those with invalid picks.
unfoldable split_squads :
    List ℕ
    → List (ℕ × LiveStat)
    → List StoredSquad
    → List (ℕ × EffectiveSquad) × List (ℕ × List PickViolation)
unfolding pick_violations derive_effective_squad
split_squads eligible live [] = ([], [])
split_squads eligible live (s ∷ ss) =
    let (counted, invalid) = split_squads eligible live ss in
    let violations = pick_violations s.picks in
    if not (any (λ id. id == s.entry_id) eligible)
    then (counted, invalid)
    else if not (no_violations violations)
    then (counted, (s.entry_id, violations) ∷ invalid)
    else (
      (
        s.entry_id,
        derive_effective_squad (record {
          picks = s.picks;
          active_chip = s.active_chip;
          auto_subs = s.auto_subs;
          live = live;
          gross_gw_points = s.gross_gw_points;
        }),
      )
          ∷ counted,
      invalid,
    )
