-- ===== src/EffectiveSquad/Boost.antt =====
-- The bench boost.
use mathlib.Core.List.Memᴰ
use fpl_radar.Prelude.{
  ℕ, ◌≤◌, ◌≡◌, ◌≢◌, refl, sym, ap, subst, ◌∙◌, ◌⊎◌, inl, inr, Bool, true, false, ◌&&◌, not, Option,
  none, some, List, [], ◌∷◌, Memᴰ, if◌then◌else◌, ◌==◌, ==_iff, arith, Bool-cases,
}
use fpl_radar.Prelude.Sort.{sort_by}
use fpl_radar.EffectiveSquad.{
  Pick, Chip, LiveStat, SquadInput, by_captain, by_vice, pending, nobody, EffectiveCaptain,
  EffectivePick, by_position, is_bench_boost, cap_mult_of, start_multiplier, base_of, or_zero,
  played, settled, fielded, multiply, resolve_captain, effective_pick, subbed_of, captain_of,
  vice_of, armband, derive_effective_squad,
}

-- A pick counts at least once.
abbrev Counts : (ℕ → Option ℕ) → ℕ → Type 0
Counts base id = 1 ≤ or_zero (base id)

base_of_boost :
    (ps : List Pick) (id : ℕ)
    → Counts (base_of true ps) id
      ⊎ ((base_of true ps id ≡ none) × ((p : Pick) → Memᴰ p ps → p.element_id ≢ id))
unfolding base_of
base_of_boost [] id = inr (refl, λ p m. elim m [ ])
base_of_boost (x ∷ ps) id = elim (base_of_boost ps id) [
  | inl c ↦ inl (found (base_of true ps id) c)
  | inr (e, others) ↦ elim (Bool-cases (id == x.element_id)) [
    | inl q ↦ inl (rw e (rw q (omega arith)))
    | inr q ↦ inr (rw e (rw q refl), absent others q)
  ]
]
  where
    found :
        (o : Option ℕ)
        → 1 ≤ or_zero o
        → 1
          ≤ or_zero (elim o [
            | some n ↦ some n
            | none ↦ if id == x.element_id then some (start_multiplier true x) else none
          ])
    found (some n) c = c
    found none c = absurd (omega arith)

    absent :
        ((p : Pick) → Memᴰ p ps → p.element_id ≢ id)
        → (id == x.element_id) ≡ false
        → (p : Pick) → Memᴰ p (x ∷ ps)
        → p.element_id ≢ id
    absent others q p (Memᴰ.head e) r =
        cc (q, (==_iff id x.element_id).1 (sym r ∙ ap (λ y. y.element_id) (same e)))
      where
        same : p ≡ x → p ≡ x
        same z = z
    absent others q p (Memᴰ.tail m) r = others p m r

base_of-Counts : (ps : List Pick) (p : Pick) → Memᴰ p ps → Counts (base_of true ps) p.element_id
base_of-Counts ps p m = elim (base_of_boost ps p.element_id) [
  | inl c ↦ c
  | inr (_, others) ↦ absurd (others p m refl)
]

multiply-Counts :
    (mult : ℕ) (wearer : Option ℕ) (base : ℕ → Option ℕ) (id : ℕ)
    → 1 ≤ mult
    → Counts base id
    → Counts (multiply wearer mult base) id
multiply-Counts mult none base id h c = c
multiply-Counts mult (some w) base id h c = elim (Bool-cases (id == w)) [
  | inl e ↦ rw e h
  | inr e ↦ rw e c
]

resolve_captain-Counts :
    (live : List (ℕ × LiveStat)) (mult : ℕ) (captain vice : Option ℕ) (base : ℕ → Option ℕ) (id : ℕ)
    → 1 ≤ mult
    → Counts base id
    → Counts (resolve_captain live mult captain vice base).0 id
unfolding resolve_captain
resolve_captain-Counts live mult captain vice base id h c =
    go (played live captain && fielded base captain) (not (settled live captain))
      (fielded base captain) (played live vice && fielded base vice) (not (settled live vice))
  where
    go :
        (on open_still starts vice_on vice_open : Bool)
        → let r : (ℕ → Option ℕ) × EffectiveCaptain =
            if on
            then (multiply captain mult base, record { element_id = captain; via = by_captain })
            else if open_still
            then (
              if starts then multiply captain mult base else base,
              record { element_id = captain; via = pending },
            )
            else if vice_on
            then (multiply vice mult base, record { element_id = vice; via = by_vice })
            else if vice_open
            then (base, record { element_id = none; via = pending })
            else (base, record { element_id = none; via = nobody }) in
          Counts r.0 id
    go true b d v e = multiply-Counts mult captain base id h c
    go false true true v e = multiply-Counts mult captain base id h c
    go false true false v e = c
    go false false d true e = multiply-Counts mult vice base id h c
    go false false d false true = c
    go false false d false false = c

boosted_base :
    (i : SquadInput)
    → is_bench_boost i.active_chip ≡ true
    → (subbed_of i).base ≡ base_of true (sort_by by_position i.picks)
unfolding subbed_of
boosted_base i h = rw h refl

-- Under a bench boost every pick counts at least once, on the bench as on the pitch.
pub bench_boost_counts_all :
    (i : SquadInput) (p : EffectivePick)
    → is_bench_boost i.active_chip ≡ true
    → Memᴰ p (derive_effective_squad i).picks
    → 1 ≤ p.effective_multiplier
unfolding derive_effective_squad armband
bench_boost_counts_all i p boost m =
    let mult = cap_mult_of i.active_chip in
    let (q, mq, e) =
      Memᴰ.of_map
        (effective_pick (is_bench_boost i.active_chip) mult (subbed_of i).marks (armband i).0)
        (sort_by by_position i.picks) m in
    subst (λ x. 1 ≤ x.effective_multiplier) e
      (resolve_captain-Counts i.live mult (captain_of i) (vice_of i) (subbed_of i).base q.element_id
        (at_least_two i.active_chip)
        (subst (λ b. Counts b q.element_id) (sym (boosted_base i boost))
          (base_of-Counts (sort_by by_position i.picks) q mq)))
  where
    at_least_two : (c : Option Chip) → 1 ≤ cap_mult_of c
    at_least_two c = ground arith
