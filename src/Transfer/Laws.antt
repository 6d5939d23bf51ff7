-- ===== src/Transfer/Laws.antt =====
-- Prices between purchase and sale, and the squad after a transfer.
use fpl_radar.Prelude.{
  ℕ, suc, ◌+◌, ◌-◌, ◌/◌, ◌≤◌, ◌<◌, ◌≡◌, ◌↔◌, refl, ap, Bool, true, false, ◌&&◌, inl, inr, not, some,
  List, [], ◌∷◌, if◌then◌else◌, ◌==◌, leb, keep, length, arith, Bool-cases,
}
use fpl_radar.Prelude.Int.{ℤ, pos, ◌+ℤ◌, ◌≤ℤ◌, +ℤ_parts, -ℤ_parts}
use fpl_radar.Transfer.{selling_price, SquadPlayer, transfer_check}

half_of : (d : ℕ) → (d / 2 + d / 2 ≤ d) × (d ≤ suc (d / 2 + d / 2))
half_of d = (omega arith, omega arith)

-- A price that fell is passed on in full; of a rise the manager keeps half, rounded down, so that the
-- selling price never exceeds the current one.
selling_price-bounds :
    (purchase now sold : ℕ)
    → selling_price (some purchase) (some now) ≡ some sold
    → (sold ≤ now)
      × (now ≤ purchase → sold ≡ now)
      × (purchase < now
          → (purchase ≤ sold)
            × ((sold - purchase) + (sold - purchase) ≤ now - purchase)
            × (now - purchase ≤ suc ((sold - purchase) + (sold - purchase))))
unfolding selling_price
selling_price-bounds purchase now sold h = elim (Bool-cases (leb now purchase)) [
  | inl e ↦
      let q : now ≡ sold =
        price (if leb now purchase then now else purchase + (now - purchase) / 2) now h
          (ap (λ b. if b then now else purchase + (now - purchase) / 2) e) in
      (omega arith, λ k. omega arith, λ k. absurd (ground arith))
  | inr e ↦
      let q : purchase + (now - purchase) / 2 ≡ sold =
        price (if leb now purchase then now else purchase + (now - purchase) / 2)
          (purchase + (now - purchase) / 2) h
          (ap (λ b. if b then now else purchase + (now - purchase) / 2) e) in
      let above : purchase < now = ground arith in
      (
        omega (arith, half_of (now - purchase)),
        λ k. absurd (omega arith),
        λ k. (
          omega arith,
          omega (arith, half_of (now - purchase)),
          omega (arith, half_of (now - purchase)),
        ),
      )
]
  where
    price : (v w : ℕ) → some v ≡ some sold → v ≡ w → w ≡ sold
    price v w a b = cc

-- The squad after the transfer.
abbrev pub swapped : List SquadPlayer → SquadPlayer → SquadPlayer → List SquadPlayer
swapped squad out buy = buy ∷ keep (λ p. not (p.element_id == out.element_id)) squad

length-keep_both :
    (f g : SquadPlayer → Bool) (ps : List SquadPlayer)
    → length (keep (λ p. f p && g p) ps) ≡ length (keep g (keep f ps))
length-keep_both f g [] = refl
length-keep_both f g (p ∷ ps) = ground (arith, length-keep_both f g ps)

-- With known prices, the limit of three is respected exactly if the squad after the transfer has at
-- most three players of the club of the one bought, and the transfer is affordable exactly if the bank
-- and the selling price cover the price.
pub transfer_check_lem :
    (squad : List SquadPlayer) (out buy : SquadPlayer) (selling price : ℕ) (bank : ℤ)
    → let c = transfer_check squad out (some selling) buy (some price) (some bank) in
      ((c.club_limit_broken ≡ false)
        ↔ (length (keep (λ p. p.team_id == buy.team_id) (swapped squad out buy)) ≤ 3))
      × ((c.affordable ≡ some true) ↔ (pos price ≤ℤ bank +ℤ pos selling))
unfolding transfer_check
transfer_check_lem squad out buy selling price bank =
    let e =
      length-keep_both (λ p. not (p.element_id == out.element_id)) (λ p. p.team_id == buy.team_id)
        squad in
    let sum = +ℤ_parts bank (pos selling) in
    let rest = -ℤ_parts (bank +ℤ pos selling) (pos price) in
    ((λ h. ground arith, λ h. ground arith), (λ h. ground arith, λ h. ground arith))
