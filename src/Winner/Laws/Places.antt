-- ===== src/Winner/Laws/Places.antt =====
-- Positions found by their entries (server/src/analytics/winner.js).
use mathlib.Core.List.{Mem, mem-cons_of_mem}
use fpl_radar.Prelude.{
  ℕ, suc, ◌≤◌, ◌≡◌, refl, sym, ap, ◌∙◌, none, some, List, [], ◌∷◌, map, Bool-cases, Option-cases,
  inl, inr, Memᴰ, ◌==◌, ==_iff, arith,
}
use fpl_radar.Ranking.{Position}
use fpl_radar.Ranking.Order.{CountsFrom}
use fpl_radar.Winner.Inputs.{map_get}

unfoldable pub keyed : List Position → List (ℕ × Position)
keyed ps = map (λ p. (p.entry_id, p)) ps

some_eq : {A : Type 0} {a b : A} → some a ≡ some b → a ≡ b
some_eq e = cc

-- A position that is found among those that count from `k` is greater.
keyed_after :
    (id k : ℕ) (ps : List Position) (q : Position)
    → CountsFrom k ps
    → map_get id (keyed ps) ≡ some q
    → suc k ≤ q.resolved_position
unfolding keyed map_get
keyed_after id k [] q c h = cc
keyed_after id k (p ∷ ps) q c h = elim (Option-cases (map_get id (keyed ps))) [
  | inr (w, e) ↦
      let same : w ≡ q = some_eq (rw e at h) in
      let later = keyed_after id (suc k) ps q c.1 (e ∙ ap some same) in omega (arith, later)
  | inl e ↦ elim (Bool-cases (p.entry_id == id)) [
    | inr f ↦ absurd (cc (rw (e, f) at h))
    | inl f ↦
        let same : p ≡ q = some_eq (rw (e, f) at h) in
        let at : p.resolved_position ≡ q.resolved_position = ap (λ x. x.resolved_position) same in
        omega (arith, at, c.0)
  ]
]

keyed_absent :
    (id : ℕ) (ps : List Position)
    → ¬ Mem id (map (λ p. p.entry_id) ps)
    → map_get id (keyed ps) ≡ none
unfolding keyed map_get
keyed_absent id [] n = refl
keyed_absent id (p ∷ ps) n = elim (Bool-cases (p.entry_id == id)) [
  | inl e ↦ absurd (n ∣ Memᴰ.head (sym ((==_iff p.entry_id id).0 e)) ∣₁)
  | inr e ↦ rw (keyed_absent id ps (λ m. n (mem-cons_of_mem p.entry_id m))) (rw e refl)
]

-- With one position for each entry, an entry at the first place is that of the first position.
pub keyed_first :
    (id : ℕ) (p : Position) (rest : List Position) (q : Position)
    → CountsFrom 0 (p ∷ rest)
    → map_get id (keyed (p ∷ rest)) ≡ some q
    → q.resolved_position ≤ 1
    → p.entry_id ≡ id
unfolding keyed map_get
keyed_first id p rest q c h first = elim (Option-cases (map_get id (keyed rest))) [
  | inr (w, e) ↦
      let same : w ≡ q = some_eq (rw e at h) in
      let later = keyed_after id 1 rest q c.1 (e ∙ ap some same) in
      absurd (omega (arith, later, first))
  | inl e ↦ elim (Bool-cases (p.entry_id == id)) [
    | inr f ↦ absurd (cc (rw (e, f) at h))
    | inl f ↦ (==_iff p.entry_id id).0 f
  ]
]

pub keyed_head :
    (p : Position) (rest : List Position)
    → ¬ Mem p.entry_id (map (λ x. x.entry_id) rest)
    → map_get p.entry_id (keyed (p ∷ rest)) ≡ some p
unfolding keyed map_get
keyed_head p rest n =
    rw (keyed_absent p.entry_id rest n) (rw ((==_iff p.entry_id p.entry_id).1 refl) refl)
