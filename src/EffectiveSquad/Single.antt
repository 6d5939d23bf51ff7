-- ===== src/EffectiveSquad/Single.antt =====
-- Before the armband nobody counts more than once (server/src/analytics/effectiveSquad.js).
use fpl_radar.Prelude.{
  ℕ, ◌≤◌, inl, inr, Bool, true, false, Option, none, some, List, [], ◌∷◌, if◌then◌else◌, ◌==◌,
  arith, Bool-cases,
}
use fpl_radar.Prelude.Sort.{sort_by}
use fpl_radar.EffectiveSquad.{
  Pick, AutoSub, SquadInput, SubMark, went_out, came_in, by_position, is_bench_boost,
  start_multiplier, base_of, set_at, or_zero, is_there, Subbed, move, substitute, subbed_of,
}

-- Before the armband nobody counts more than once.
abbrev pub IsSingle : (ℕ → Option ℕ) → Type 0
IsSingle base = (id : ℕ) → or_zero (base id) ≤ 1

base_of-IsSingle : (boost : Bool) (ps : List Pick) → IsSingle (base_of boost ps)
unfolding base_of
base_of-IsSingle boost [] id = omega arith
base_of-IsSingle boost (p ∷ ps) id = go (base_of boost ps id) (base_of-IsSingle boost ps id)
  where
    go :
        (o : Option ℕ)
        → or_zero o ≤ 1
        → or_zero (elim o [
          | some n ↦ some n
          | none ↦ if id == p.element_id then some (start_multiplier boost p) else none
        ])
          ≤ 1
    go (some n) h = h
    go none h = ground arith

set_at-IsSingle :
    (k n : ℕ) (base : ℕ → Option ℕ) → n ≤ 1 → IsSingle base → IsSingle (set_at k n base)
set_at-IsSingle k n base h s id = elim (Bool-cases (id == k)) [
  | inl e ↦ rw e h
  | inr e ↦ rw e (s id)
]

move-IsSingle :
    (id n : ℕ) (mark : SubMark) (s : Subbed)
    → n ≤ 1
    → IsSingle s.base
    → IsSingle (move id n mark s).base
move-IsSingle id n mark s h k = elim (Bool-cases (is_there (s.base id))) [
  | inl e ↦ rw e (set_at-IsSingle id n s.base h k)
  | inr e ↦ rw e k
]

substitute-IsSingle :
    (subs : List AutoSub) (s : Subbed) → IsSingle s.base → IsSingle (substitute subs s).base
unfolding substitute
substitute-IsSingle [] s k = k
substitute-IsSingle (a ∷ rest) s k =
    substitute-IsSingle rest (move a.element_in 1 came_in (move a.element_out 0 went_out s)) (
      move-IsSingle a.element_in 1 came_in (move a.element_out 0 went_out s) (omega arith)
        (move-IsSingle a.element_out 0 went_out s (omega arith) k))

pub subbed_of-IsSingle : (i : SquadInput) → IsSingle (subbed_of i).base
unfolding subbed_of
subbed_of-IsSingle i = elim (Bool-cases (is_bench_boost i.active_chip)) [
  | inl e ↦ rw e (base_of-IsSingle true (sort_by by_position i.picks))
  | inr e ↦
      rw e
        (substitute-IsSingle i.auto_subs _ (base_of-IsSingle false (sort_by by_position i.picks)))
]
