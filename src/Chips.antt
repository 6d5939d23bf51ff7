-- ===== src/Chips.antt =====
-- server/src/analytics/chips.js: the rules of the chips, checked as a whole, and what each manager has
-- left of them. The numbers of a rule are natural numbers where they are integers; a chip's name is a
-- text, and `none` where it is not one. localeCompare is a parameter.
pub mod Laws
use Prim.Native.Nat.{Ordering, lt, eq, gt}
use Prim.Native.String.{String}
use fpl_radar.Prelude.{
  ℕ, Bool, true, false, ◌&&◌, ◌||◌, not, Option, none, some, List, [], ◌∷◌, ◌++◌, map,
  if◌then◌else◌, ltb, leb, ◌==◌, any, keep, length,
}
use fpl_radar.Prelude.Sort.{sort_by}
use fpl_radar.Prelude.Texts.{same_text}

-- A rule as it came: `none` is a value that is no string, or no integer that is at least 0.
pub record RawRule : Type 0 where
  pub name : Option String
  pub number : Option ℕ
  pub start_event : Option ℕ
  pub stop_event : Option ℕ

pub record ChipRule : Type 0 where
  pub chip_name : String
  pub number : ℕ
  pub start_event : ℕ
  pub stop_event : ℕ

pub data Problem : Type 0 where
  chips_missing : Problem
  name_not_string : Problem
  number_invalid window_invalid : Option String → Problem
  overlapping_windows : String → Problem

abbrev pub problem_if : Bool → Problem → List Problem
problem_if true p = p ∷ []
problem_if false p = []

abbrev pub is_name : Option String → Bool
is_name none = false
is_name (some s) = not (same_text s "")

abbrev pub is_number : Option ℕ → Bool
is_number none = false
is_number (some n) = leb 1 n

abbrev pub is_window : Option ℕ → Option ℕ → Bool
is_window (some a) (some b) = leb 1 a && leb a b && leb b 38
is_window _ _ = false

unfoldable pub rule_problems : List RawRule → List Problem
rule_problems [] = []
rule_problems (r ∷ rs) =
    problem_if (not (is_name r.name)) name_not_string
    ++ problem_if (not (is_number r.number)) (number_invalid r.name)
    ++ problem_if (not (is_window r.start_event r.stop_event)) (window_invalid r.name)
    ++ rule_problems rs

abbrev pub raw_rule : RawRule → List ChipRule → List ChipRule
raw_rule r rules = elim r.name [
  | none ↦ rules
  | some name ↦ elim r.number [
    | none ↦ rules
    | some n ↦ elim r.start_event [
      | none ↦ rules
      | some a ↦ elim r.stop_event [
        | none ↦ rules
        | some b ↦ record { chip_name = name; number = n; start_event = a; stop_event = b } ∷ rules
      ]
    ]
  ]
]

-- The rules of a list without problems; all of it is read then.
unfoldable pub rules_of : List RawRule → List ChipRule
rules_of [] = []
rules_of (r ∷ rs) = let rest = rules_of rs in raw_rule r rest

abbrev pub has_name : String → ChipRule → Bool
has_name name r = same_text r.chip_name name

-- The keys of the groups, in the order of their first rule.
unfoldable pub names_of : List ChipRule → List String
names_of [] = []
names_of (r ∷ rs) =
    let rest = names_of rs in r.chip_name ∷ keep (λ n. not (same_text n r.chip_name)) rest

-- `sorted[i].startEvent <= sorted[i - 1].stopEvent`, for each neighbours.
unfoldable pub overlaps : String → List ChipRule → List Problem
overlaps name [] = []
overlaps name (a ∷ []) = []
overlaps name (a ∷ b ∷ rs) =
    let rest = overlaps name (b ∷ rs) in
    if leb b.start_event a.stop_event then overlapping_windows name ∷ rest else rest

abbrev pub by_start : ChipRule → ChipRule → Bool
by_start a b = leb a.start_event b.start_event

unfoldable pub window_problems : List ChipRule → List String → List Problem
unfolding overlaps sort_by
window_problems rules [] = []
window_problems rules (n ∷ ns) =
    overlaps n (sort_by by_start (keep (has_name n) rules)) ++ window_problems rules ns

abbrev pub no_problems : List Problem → Bool
no_problems [] = true
no_problems (p ∷ ps) = false

pub data Checked : Type 0 where
  valid : List ChipRule → Checked
  invalid : List Problem → Checked

abbrev checked : List Problem → List ChipRule → Checked
checked ps rules = if no_problems ps then valid rules else invalid ps

-- `validateChipRules`. Where a rule has a problem of its own, the source lists the overlaps too; they are
-- not modelled there, since the set is rejected anyway.
unfoldable pub validate_chip_rules : List RawRule → Checked
unfolding rule_problems rules_of window_problems names_of
validate_chip_rules [] = invalid (chips_missing ∷ [])
validate_chip_rules (r ∷ rs) =
    let rules = rules_of (r ∷ rs) in
    if no_problems (rule_problems (r ∷ rs))
    then checked (window_problems rules (names_of rules)) rules
    else invalid (rule_problems (r ∷ rs))

pub record Played : Type 0 where
  pub entry_id : ℕ
  pub chip_name : String
  pub event : ℕ

pub record ChipUse : Type 0 where
  pub chip_name : String
  pub window : ℕ × ℕ
  pub used : ℕ
  pub allowed : ℕ
  pub available : Bool
  pub current : Bool
  pub played_events : List ℕ

pub record ManagerChips : Type 0 where
  pub entry_id : ℕ
  pub chips : List ChipUse
  pub unmapped : List (String × ℕ)

abbrev pub in_window : ChipRule → ℕ → Bool
in_window r event = leb r.start_event event && leb event r.stop_event

abbrev is_use_of : ChipRule → Played → Bool
is_use_of r p = same_text p.chip_name r.chip_name && in_window r p.event

unfoldable chip_use : List Played → ℕ → ChipRule → ChipUse
unfolding sort_by
chip_use mine current_event r =
    let uses = keep (is_use_of r) mine in
    record {
      chip_name = r.chip_name;
      window = (r.start_event, r.stop_event);
      used = length uses;
      allowed = r.number;
      available = ltb (length uses) r.number;
      current = in_window r current_event;
      played_events = sort_by leb (map (λ p. p.event) uses);
    }

-- The source of the rules is not modelled.
module _ (locale_compare : String → String → Ordering) where
  abbrev rule_before : ChipRule → ChipRule → Bool
  rule_before a b = elim (locale_compare a.chip_name b.chip_name) [
    | Ordering.lt ↦ true
    | Ordering.gt ↦ false
    | Ordering.eq ↦ leb a.start_event b.start_event
  ]

  unfoldable pub chip_availability : List ChipRule → List Played → ℕ → List ℕ → List ManagerChips
  unfolding chip_use sort_by
  chip_availability rules played current_event entry_ids =
      map
        (λ id.
          let mine = keep (λ p. p.entry_id == id) played in
          record {
            entry_id = id;
            chips = map (chip_use mine current_event) (sort_by rule_before rules);
            unmapped =
                map (λ p. (p.chip_name, p.event))
                  (keep (λ p. not (any (λ r. same_text r.chip_name p.chip_name) rules)) mine);
          })
        (sort_by leb entry_ids)
