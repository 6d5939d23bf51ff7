-- ===== src/Eligibility.antt =====
-- server/src/analytics/eligibility.js: who takes part in a gameweek, and why the others do not.
pub mod Laws
use fpl_radar.Prelude.{
  ℕ, Bool, true, false, ◌&&◌, not, Option, none, some, List, [], ◌∷◌, if◌then◌else◌, leb, ltb,
}
use fpl_radar.Prelude.Sort.{sort_by}

pub data IneligibleReason : Type 0 where
  excluded joined_later no_team : IneligibleReason

-- `isExcluded` and `synced` are false where the source has `undefined`.
pub record Member : Type 0 where
  pub entry_id : ℕ
  pub is_excluded : Bool
  pub joined_event : Option ℕ
  pub synced : Bool

abbrev joins_after : Option ℕ → ℕ → Bool
joins_after none event = false
joins_after (some j) event = ltb event j

-- The ladder of tests for one member; `has_row` is `gwRows.has`.
unfoldable pub reason_of : (ℕ → Bool) → ℕ → Member → Option IneligibleReason
reason_of has_row event m =
    if m.is_excluded
    then some excluded
    else if joins_after m.joined_event event
    then some joined_later
    else if m.synced && not (has_row m.entry_id)
    then some no_team
    else none

pub record Selection : Type 0 where
  pub eligible : List ℕ
  pub ineligible : List (ℕ × IneligibleReason)

abbrev add_member : Option IneligibleReason → ℕ → Selection → Selection
add_member (some r) id s = record s { ineligible = (id, r) ∷ s.ineligible }
add_member none id s = record s { eligible = id ∷ s.eligible }

select_members : (ℕ → Bool) → ℕ → List Member → Selection
unfolding reason_of
select_members has_row event [] = record { eligible = []; ineligible = [] }
select_members has_row event (m ∷ ms) =
    add_member (reason_of has_row event m) m.entry_id (select_members has_row event ms)

abbrev pub by_member_id : Member → Member → Bool
by_member_id a b = leb a.entry_id b.entry_id

unfoldable pub select_eligible : List Member → (ℕ → Bool) → ℕ → Selection
unfolding select_members
select_eligible members has_row event = select_members has_row event (sort_by by_member_id members)
