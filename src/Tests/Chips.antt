-- ===== src/Tests/Chips.antt =====
-- Runs of the rules of the chips (server/src/analytics/chips.js).
use Prim.Native.Nat.{compare}
use Prim.Native.String.{String, len}
use fpl_radar.Prelude.{
  ℕ, ◌≤◌, ◌≡◌, refl, ◌&&◌, true, false, some, List, [], ◌∷◌, map, keep, length, All, Memᴰ,
}
use fpl_radar.Prelude.Sort.{sort_by}
use fpl_radar.Chips.{
  RawRule, ChipRule, valid, invalid, overlapping_windows, validate_chip_rules, chip_availability,
  has_name, in_window,
}
use fpl_radar.Chips.Laws.{IsSound, as_raw, validate_chip_rules_lem}

abbrev raw : String → ℕ → ℕ → RawRule
raw name first last = record {
  name = some name;
  number = some 1;
  start_event = some first;
  stop_event = some last;
}

abbrev two_windows : List RawRule
two_windows = raw "wildcard" 20 38 ∷ raw "bboost" 1 38 ∷ raw "wildcard" 2 19 ∷ []

abbrev read : String → ℕ → ℕ → ChipRule
read name first last = record {
  chip_name = name;
  number = 1;
  start_event = first;
  stop_event = last;
}

abbrev read_windows : List ChipRule
read_windows = read "wildcard" 20 38 ∷ read "bboost" 1 38 ∷ read "wildcard" 2 19 ∷ []

accepted : validate_chip_rules two_windows ≡ valid read_windows
unfolding validate_chip_rules sort_by
accepted = refl

overlapping :
    validate_chip_rules (raw "wildcard" 2 20 ∷ raw "wildcard" 20 38 ∷ [])
    ≡ invalid (overlapping_windows "wildcard" ∷ [])
unfolding validate_chip_rules sort_by
overlapping = refl

-- One wildcard of the second window is played, and a chip that no rule names.
uses :
    chip_availability
      (λ s t. compare (len s) (len t))
      (read "wildcard" 20 38 ∷ [])
      (record { entry_id = 7; chip_name = "wildcard"; event = 22 }
        ∷ record { entry_id = 7; chip_name = "manager"; event = 24 }
        ∷ [])
      21
      (7 ∷ [])
    ≡ record {
      entry_id = 7;
      chips =
          record {
            chip_name = "wildcard";
            window = (20, 38);
            used = 1;
            allowed = 1;
            available = false;
            current = true;
            played_events = 22 ∷ [];
          }
          ∷ [];
      unmapped = ("manager", 24) ∷ [];
    }
      ∷ []
unfolding chip_availability sort_by
uses = refl

validate_chip_rules_lem_example :
    All IsSound read_windows
    × (map as_raw read_windows ≡ two_windows)
    × ((r : ChipRule) (e : ℕ)
        → Memᴰ r read_windows
        → length (keep (λ x. has_name r.chip_name x && in_window x e) read_windows) ≤ 1)
validate_chip_rules_lem_example = validate_chip_rules_lem two_windows read_windows accepted
