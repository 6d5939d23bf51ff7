-- ===== src/Tests/Trade.antt =====
-- Runs of the price and the checks of a transfer (server/src/analytics/playerStats.js and transfer.js).
use fpl_radar.Prelude.{ℕ, ◌≤◌, ◌≡◌, refl, ◌↔◌, true, false, some, List, [], ◌∷◌, ◌==◌, keep, length}
use fpl_radar.Prelude.Int.{pos, ◌+ℤ◌, ◌≤ℤ◌}
use fpl_radar.Transfer.{selling_price, SquadPlayer, transfer_check}
use fpl_radar.Transfer.Laws.{swapped, transfer_check_lem}

sold_at_52 : selling_price (some 50) (some 55) ≡ some 52
unfolding selling_price
sold_at_52 = refl

abbrev of_club : ℕ → ℕ → SquadPlayer
of_club club id = record { element_id = id; team_id = club; position = 3 }

abbrev my_squad : List SquadPlayer
my_squad = of_club 1 11 ∷ of_club 1 12 ∷ of_club 1 13 ∷ of_club 2 21 ∷ []

fourth_of_a_club :
    (transfer_check my_squad
      (of_club 2 21)
      (some 52)
      (of_club 1 14)
      (some 60)
      (some (pos 7))).club_limit_broken
    ≡ true
unfolding transfer_check
fourth_of_a_club = refl

transfer_check_lem_example :
    let c =
      transfer_check my_squad (of_club 1 13) (some 52) (of_club 1 14) (some 60) (some (pos 8)) in
    ((c.club_limit_broken ≡ false)
      ↔ (length (keep (λ p. p.team_id == 1) (swapped my_squad (of_club 1 13) (of_club 1 14))) ≤ 3))
    × ((c.affordable ≡ some true) ↔ (pos 60 ≤ℤ pos 8 +ℤ pos 52))
transfer_check_lem_example = transfer_check_lem my_squad (of_club 1 13) (of_club 1 14) 52 60 (pos 8)
