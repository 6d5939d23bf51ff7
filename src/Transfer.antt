-- ===== src/Transfer.antt =====
-- The money and rule checks of a transfer: `sellingPrice` of server/src/analytics/playerStats.js and
-- `transferCheck` of server/src/analytics/transfer.js. Prices are in tenths of a million; the
-- projections of transfer.js use fractions and are not modelled.
pub mod Laws
use fpl_radar.Prelude.{
  ℕ, suc, ◌+◌, ◌-◌, ◌/◌, Bool, true, false, ◌&&◌, not, Option, none, some, List, [], ◌∷◌,
  if◌then◌else◌, ◌==◌, leb, ltb, any, keep, length,
}
use fpl_radar.Prelude.Int.{ℤ, pos, ◌+ℤ◌, ◌-ℤ◌, leb_ℤ}

unfoldable pub selling_price : Option ℕ → Option ℕ → Option ℕ
selling_price none now = none
selling_price (some purchase) none = none
selling_price (some purchase) (some now) =
    some (if leb now purchase then now else purchase + (now - purchase) / 2)

abbrev max_per_club : ℕ
max_per_club = 3

pub record SquadPlayer : Type 0 where
  pub element_id : ℕ
  pub team_id : ℕ
  pub position : ℕ

pub record Check : Type 0 where
  pub same_position : Bool
  pub already_owned : Bool
  pub club_count : ℕ
  pub club_limit_broken : Bool
  pub price_diff : Option ℤ
  pub bank_after : Option ℤ
  pub affordable : Option Bool

abbrev bank_after_of : Option ℤ → Option ℕ → Option ℕ → Option ℤ
bank_after_of (some bank) (some selling) (some price) = some (bank +ℤ pos selling -ℤ pos price)
bank_after_of _ _ _ = none

abbrev price_diff_of : Option ℕ → Option ℕ → Option ℤ
price_diff_of (some selling) (some price) = some (pos price -ℤ pos selling)
price_diff_of _ _ = none

abbrev affordable_of : Option ℤ → Option Bool
affordable_of none = none
affordable_of (some n) = some (leb_ℤ (pos 0) n)

-- `out` is sold at `selling`, `buy` is bought at `price`.
unfoldable pub transfer_check :
    List SquadPlayer → SquadPlayer → Option ℕ → SquadPlayer → Option ℕ → Option ℤ → Check
transfer_check squad out selling buy price bank =
    let count =
      length (keep (λ p. not (p.element_id == out.element_id) && p.team_id == buy.team_id) squad)
      + 1 in
    record {
      same_position = out.position == buy.position;
      already_owned = any (λ p. p.element_id == buy.element_id) squad;
      club_count = count;
      club_limit_broken = ltb max_per_club count;
      price_diff = price_diff_of selling price;
      bank_after = bank_after_of bank selling price;
      affordable = affordable_of (bank_after_of bank selling price);
    }
