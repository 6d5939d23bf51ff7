-- ===== src/Tests/Views.antt =====
-- Runs of the views (server/src/analytics/ownership.js and transfers.js).
use fpl_radar.Prelude.{
  ℕ, ◌+◌, ◌≡◌, ◌↔◌, refl, false, not, some, [], ◌∷◌, map, Memᴰ, leb, keep, length, All,
}
use fpl_radar.Prelude.Sort.{sort_by, sum_by}
use fpl_radar.EffectiveSquad.{derive_effective_squad}
use fpl_radar.Winner.Inputs.{map_get, map_has}
use fpl_radar.Ownership.{OwnershipInput, OwnershipRow, ownership_row, compute_ownership}
use fpl_radar.Ownership.Laws.{IsShared, has_squad, compute_ownership_lem}
use fpl_radar.Transfers.{Transfer, TransferInput, summarize_transfers}
use fpl_radar.Ownership.Scopes.{others_of}
use fpl_radar.Transfers.Tally.{counted_for}
use fpl_radar.Transfers.Laws.{has_list, IsMade, listed_with, summarize_transfers_lem}
use fpl_radar.Tests.Squad.{squad_input}

abbrev views : OwnershipInput
views = record {
  squads = (7, derive_effective_squad squad_input) ∷ (3, derive_effective_squad squad_input) ∷ [];
  eligible = 3 ∷ 9 ∷ 7 ∷ [];
  my_entry_id = some 7;
}

-- Both own the captain who did not play; one of them is my rival.
owned : (ownership_row views 10).picked_captain.rivals ≡ record { count = 1; of = 1 }
unfolding ownership_row derive_effective_squad sort_by map_get
owned = refl

compute_ownership_lem_example :
    ((compute_ownership views).all ≡ sum_by (has_squad views) (3 ∷ 9 ∷ 7 ∷ []))
    × ((compute_ownership views).rivals ≡ sum_by (has_squad views) (others_of views))
    × ((id : ℕ)
        → Memᴰ id (compute_ownership views).missing_entry_ids
          ↔ (Memᴰ id (3 ∷ 9 ∷ 7 ∷ []) × (map_has views.squads id ≡ false)))
    × ((compute_ownership views).all + length (compute_ownership views).missing_entry_ids ≡ 3)
    × ((row : OwnershipRow)
        → Memᴰ row (compute_ownership views).rows
        → IsShared views row (compute_ownership views).rivals (compute_ownership views).all)
compute_ownership_lem_example = compute_ownership_lem views

abbrev transfer : ℕ → ℕ → ℕ → Transfer
transfer came went event = record {
  element_in = came;
  element_in_cost_tenths = 55;
  element_out = went;
  element_out_cost_tenths = 60;
  event = event;
  time = 100;
}

abbrev window : TransferInput
window = record {
  event = 5;
  eligible = 7 ∷ 3 ∷ 9 ∷ [];
  transfers_by_entry =
      (3, transfer 10 20 5 ∷ transfer 11 21 4 ∷ []) ∷ (7, transfer 10 22 5 ∷ []) ∷ [];
  rows = [];
}

moved_twice :
    (summarize_transfers window).players_in
    ≡ record { element_id = 10; count = 2; entry_ids = 3 ∷ 7 ∷ [] } ∷ []
unfolding summarize_transfers sort_by map_get
moved_twice = refl

summarize_transfers_lem_example :
    (map (λ m. m.entry_id) (summarize_transfers window).members
      ≡ keep (has_list window) (sort_by leb (7 ∷ 3 ∷ 9 ∷ [])))
    × ((summarize_transfers window).missing_entry_ids
        ≡ keep (λ id. not (has_list window id)) (sort_by leb (7 ∷ 3 ∷ 9 ∷ [])))
    × All (IsMade window) (summarize_transfers window).members
    × ((element : ℕ)
        → (counted_for element (summarize_transfers window).players_in
            ≡ listed_with (λ t. t.element_in) element (summarize_transfers window).members)
          × (counted_for element (summarize_transfers window).players_out
              ≡ listed_with (λ t. t.element_out) element (summarize_transfers window).members))
    × (sum_by (λ x. x.count) (summarize_transfers window).players_in
        ≡ (summarize_transfers window).transfers)
    × (sum_by (λ x. x.count) (summarize_transfers window).players_out
        ≡ (summarize_transfers window).transfers)
summarize_transfers_lem_example = summarize_transfers_lem window
