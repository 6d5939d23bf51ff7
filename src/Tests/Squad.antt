-- ===== src/Tests/Squad.antt =====
-- A run of the effective squad (server/src/analytics/effectiveSquad.js).
use fpl_radar.Prelude.{ℕ, ◌≤◌, ◌≡◌, ◌≢◌, refl, ◌⊎◌, Bool, true, false, none, some, [], ◌∷◌, Memᴰ}
use fpl_radar.Prelude.Int.{pos, ◌+ℤ◌, ◌*ℤ◌}
use fpl_radar.Prelude.Sort.{sort_by}
use fpl_radar.Winner.Inputs.{map_get}
use fpl_radar.EffectiveSquad.{
  Pick, LiveStat, bench_boost, SquadInput, fpl, came_in, EffectivePick, pending, or_zero, subbed_of,
  captain_of, vice_of, derive_effective_squad,
}
use fpl_radar.EffectiveSquad.Boost.{bench_boost_counts_all}
use fpl_radar.EffectiveSquad.Laws.{ArmbandCase, armband_only_multiplies}

abbrev pick : ℕ → ℕ → Bool → Bool → Pick
pick id position captain vice = record {
  element_id = id;
  squad_position = position;
  is_captain = captain;
  is_vice_captain = vice;
  fpl_multiplier = 1;
}

abbrev on_pitch : ℕ → ℕ → LiveStat
on_pitch minutes points = record {
  minutes = minutes;
  total_points = pos points;
  fixtures_settled = true;
}

-- The captain did not play, and the substitute 30 came in for him.
abbrev pub squad_input : SquadInput
squad_input = record {
  picks = pick 30 12 false false ∷ pick 10 1 true false ∷ pick 20 2 false true ∷ [];
  active_chip = none;
  auto_subs = record { element_in = 30; element_out = 10; source = fpl } ∷ [];
  live = (10, on_pitch 0 0) ∷ (20, on_pitch 90 6) ∷ (30, on_pitch 30 2) ∷ [];
  gross_gw_points = some (pos 14);
}

abbrev substitute_row : EffectivePick
substitute_row = record {
  element_id = 30;
  squad_position = 12;
  picked_multiplier = 0;
  effective_multiplier = 1;
  auto_subbed = some came_in;
}

squad_points : (derive_effective_squad squad_input).reconstructed_points ≡ pos 14
unfolding derive_effective_squad sort_by map_get ◌+ℤ◌ ◌*ℤ◌
squad_points = refl

substitute_made : Memᴰ substitute_row (derive_effective_squad squad_input).picks
unfolding derive_effective_squad sort_by map_get
substitute_made = Memᴰ.tail (Memᴰ.tail (Memᴰ.head refl))

armband_only_multiplies_example :
    ArmbandCase squad_input.live
      (subbed_of squad_input).base
      2
      (captain_of squad_input)
      (vice_of squad_input)
      (derive_effective_squad squad_input).captain_points
      (derive_effective_squad squad_input).effective_captain
    × ((p : EffectivePick)
        → Memᴰ p (derive_effective_squad squad_input).picks
        → (((derive_effective_squad squad_input).effective_captain.element_id ≢ some p.element_id)
            × (p.effective_multiplier ≡ or_zero ((subbed_of squad_input).base p.element_id))
            × (p.effective_multiplier ≤ 1))
          ⊎ (((derive_effective_squad squad_input).effective_captain.element_id ≡ some p.element_id)
              × ((p.effective_multiplier ≡ 2)
                  ⊎ (((derive_effective_squad squad_input).effective_captain.via ≡ pending)
                      × (p.effective_multiplier ≡ 0)))))
armband_only_multiplies_example = armband_only_multiplies squad_input

abbrev boosted_input : SquadInput
boosted_input = record squad_input { active_chip = some bench_boost }

abbrev bench_row : EffectivePick
bench_row = record substitute_row { picked_multiplier = 1; auto_subbed = none }

bench_made : Memᴰ bench_row (derive_effective_squad boosted_input).picks
unfolding derive_effective_squad sort_by map_get
bench_made = Memᴰ.tail (Memᴰ.tail (Memᴰ.head refl))

bench_boost_counts_all_example : 1 ≤ bench_row.effective_multiplier
bench_boost_counts_all_example = bench_boost_counts_all boosted_input bench_row refl bench_made
