-- ===== src/Ownership/Counts.antt =====
-- The counts of a scope against the number of its owners (server/src/analytics/ownership.js).
use fpl_radar.Prelude.{
  ℕ, suc, ◌+◌, ◌≤◌, ◌≡◌, refl, ap, subst, inl, inr, ◌⊎◌, Bool, true, false, ◌&&◌, not, Option, none,
  some, List, [], ◌∷◌, if◌then◌else◌, leb, ◌==◌, any, find, keep, length, arith, Bool-cases,
}
use fpl_radar.Winner.Inputs.{map_get}
use fpl_radar.EffectiveSquad.{EffectivePick, EffectiveSquad}
use fpl_radar.Ownership.{Totals, is_element, one_if, add_squad, scope_stats, owns_squad, owns}

-- The counts of a scope, against the number of its owners.
pub record IsCounted (t : Totals) (owners : ℕ) : Type 0 where
  pub squad : t.squad ≡ owners
  pub xi : t.xi ≤ t.squad
  pub captain : t.captain ≤ t.squad
  pub triple : t.triple ≤ t.captain
  pub eff_captain : t.eff_captain ≤ t.squad

found_any :
    (element : ℕ) (ps : List EffectivePick)
    → ((find (λ p. p.element_id == element) ps ≡ none)
        × (any (λ p. p.element_id == element) ps ≡ false))
      ⊎ ((p : EffectivePick) × (find (λ p. p.element_id == element) ps ≡ some p)
          × (any (λ p. p.element_id == element) ps ≡ true))
found_any element [] = inl (refl, refl)
found_any element (p ∷ ps) = elim (Bool-cases (p.element_id == element)) [
  | inl e ↦ inr (p, rw e refl, rw e refl)
  | inr e ↦ elim (found_any element ps) [
    | inl (a, b) ↦ inl (rw e a, rw e b)
    | inr (q, a, b) ↦ inr (q, rw e a, rw e b)
  ]
]

plus_one : {n m : ℕ} (b : Bool) → n ≤ m → n + one_if b ≤ suc m
plus_one true h = omega (arith, h)
plus_one false h = omega (arith, h)

plus_fewer : {n m : ℕ} (a b : Bool) → n ≤ m → n + one_if (a && b) ≤ m + one_if a
plus_fewer true true h = omega (arith, h)
plus_fewer true false h = omega (arith, h)
plus_fewer false b h = omega (arith, h)

-- One squad more.
add_squad-IsCounted :
    (element : ℕ) (o : Option EffectiveSquad) (t : Totals) (n : ℕ)
    → IsCounted t n
    → IsCounted (add_squad element o t) (if owns_squad element o then suc n else n)
add_squad-IsCounted element none t n c = c
add_squad-IsCounted element (some s) t n c = elim (found_any element s.picks) [
  | inl (a, b) ↦ rw (a, b) c
  | inr (p, a, b) ↦
      rw (a, b)
        (record {
          squad = ap suc c.squad;
          xi = plus_one (leb p.squad_position 11) c.xi;
          captain = plus_one (is_element element s.picked_captain) c.captain;
          triple = plus_fewer (is_element element s.picked_captain) (s.cap_mult == 3) c.triple;
          eff_captain = plus_one (is_element element s.effective_captain.element_id) c.eff_captain;
        })
]

length-if_kept :
    (b : Bool) (x : ℕ) (xs : List ℕ)
    → (if b then suc (length xs) else length xs) ≡ length (if b then x ∷ xs else xs)
length-if_kept true x xs = refl
length-if_kept false x xs = refl

pub scope_stats-IsCounted :
    (squads : List (ℕ × EffectiveSquad)) (element : ℕ) (ids : List ℕ)
    → IsCounted (scope_stats squads element ids) (length (keep (owns squads element) ids))
unfolding scope_stats
scope_stats-IsCounted squads element [] = record {
  squad = refl;
  xi = omega arith;
  captain = omega arith;
  triple = omega arith;
  eff_captain = omega arith;
}
scope_stats-IsCounted squads element (id ∷ ids) =
    subst (IsCounted (add_squad element (map_get id squads) (scope_stats squads element ids)))
      (length-if_kept (owns squads element id) id (keep (owns squads element) ids))
      (add_squad-IsCounted element (map_get id squads) (scope_stats squads element ids)
        (length (keep (owns squads element) ids)) (scope_stats-IsCounted squads element ids))

pub keep-keep_fewer :
    (p q : ℕ → Bool) (xs : List ℕ) → length (keep p (keep q xs)) ≤ length (keep p xs)
keep-keep_fewer p q [] = omega arith
keep-keep_fewer p q (x ∷ xs) = elim (Bool-cases (q x)) [
  | inl e ↦ rw e (ground (arith, keep-keep_fewer p q xs))
  | inr e ↦ rw e (ground (arith, keep-keep_fewer p q xs))
]

pub keep_split :
    (p : ℕ → Bool) (xs : List ℕ)
    → length (keep p xs) + length (keep (λ x. not (p x)) xs) ≡ length xs
keep_split p [] = refl
keep_split p (x ∷ xs) = ground (arith, keep_split p xs)
