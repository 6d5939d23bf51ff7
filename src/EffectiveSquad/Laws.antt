-- ===== src/EffectiveSquad/Laws.antt =====
-- Who is multiplied, and what the captain scored.
use mathlib.Core.List.Memᴰ
use fpl_radar.Prelude.{
  ℕ, ◌≤◌, ◌<◌, ◌≡◌, ◌≢◌, refl, sym, ap, subst, ◌⊎◌, inl, inr, Bool, true, false, ◌&&◌, Option, none,
  some, List, Memᴰ, ◌==◌, ==_iff, arith, Bool-cases,
}
use fpl_radar.Prelude.Int.{ℤ, pos, ◌*ℤ◌}
use fpl_radar.EffectiveSquad.{
  LiveStat, SquadInput, by_captain, by_vice, pending, nobody, EffectiveCaptain, EffectivePick, Via,
  is_bench_boost, cap_mult_of, or_zero, stat, played, settled, fielded, multiply, is_positive,
  resolve_captain, effective_pick, is_pending, captain_points_of, subbed_of, captain_of, vice_of,
  armband, derive_effective_squad,
}
use fpl_radar.EffectiveSquad.Single.{IsSingle, subbed_of-IsSingle}

-- The multiplier of one element after the armband: that of before, but for the wearer. He counts as
-- often as the chip says; if his matches are not settled yet, he may be a captain who does not count.
abbrev pub IsArmed : ℕ → (ℕ → Option ℕ) → (ℕ → Option ℕ) → EffectiveCaptain → ℕ → Type 0
IsArmed mult base effective c id =
    ((c.element_id ≢ some id)
      × (or_zero (effective id) ≡ or_zero (base id))
      × (or_zero (effective id) ≤ 1))
    ⊎ ((c.element_id ≡ some id)
        × ((or_zero (effective id) ≡ mult) ⊎ ((c.via ≡ pending) × (or_zero (effective id) ≡ 0))))

multiply-IsArmed :
    (mult : ℕ) (wearer : Option ℕ) (via : Via) (base : ℕ → Option ℕ) (id : ℕ)
    → IsSingle base
    → IsArmed mult base (multiply wearer mult base) (record { element_id = wearer; via = via }) id
multiply-IsArmed mult none via base id s = inl (λ e. cc, refl, s id)
multiply-IsArmed mult (some w) via base id s = elim (Bool-cases (id == w)) [
  | inl e ↦ inr (ap some (sym ((==_iff id w).0 e)), inl (rw e refl))
  | inr e ↦
      let other : ¬ (some w ≡ some id) = λ q. cc ((==_iff id w).1 (sym (some_eq q)), e) in
      inl (other, rw e refl, rw e (s id))
]
  where
    some_eq : {a b : ℕ} → some a ≡ some b → a ≡ b
    some_eq q = cc

nobody-IsArmed :
    (mult : ℕ) (via : Via) (base : ℕ → Option ℕ) (id : ℕ)
    → IsSingle base
    → IsArmed mult base base (record { element_id = none; via = via }) id
nobody-IsArmed mult via base id s = inl (λ e. cc, refl, s id)

-- A captain who does not count yet.
benched-IsArmed :
    (mult : ℕ) (captain : Option ℕ) (base : ℕ → Option ℕ) (id : ℕ)
    → IsSingle base
    → fielded base captain ≡ false
    → IsArmed mult base base (record { element_id = captain; via = pending }) id
benched-IsArmed mult none base id s f = inl (λ e. cc, refl, s id)
benched-IsArmed mult (some w) base id s f = elim (Bool-cases (id == w)) [
  | inl e ↦
      let same : w ≡ id = sym ((==_iff id w).0 e) in
      inr
        (ap some same, inr (refl, subst (λ x. or_zero (base x) ≡ 0) same (not_positive (base w) f)))
  | inr e ↦
      let other : ¬ (some w ≡ some id) = λ q. cc ((==_iff id w).1 (sym (some_eq q)), e) in
      inl (other, refl, s id)
]
  where
    some_eq : {a b : ℕ} → some a ≡ some b → a ≡ b
    some_eq q = cc

    not_positive : (o : Option ℕ) → is_positive o ≡ false → or_zero o ≡ 0
    not_positive none h = refl
    not_positive (some n) h = ground arith

resolve_captain-IsArmed :
    (live : List (ℕ × LiveStat)) (mult : ℕ) (captain vice : Option ℕ) (base : ℕ → Option ℕ) (id : ℕ)
    → IsSingle base
    → let r = resolve_captain live mult captain vice base in IsArmed mult base r.0 r.1 id
unfolding resolve_captain
resolve_captain-IsArmed live mult captain vice base id s =
    elim (Bool-cases (played live captain && fielded base captain)) [
      | inl a ↦ rw a (multiply-IsArmed mult captain by_captain base id s)
      | inr a ↦ rw a (elim (Bool-cases (settled live captain)) [
        | inr b ↦ rw b (elim (Bool-cases (fielded base captain)) [
          | inl f ↦ rw f (multiply-IsArmed mult captain pending base id s)
          | inr f ↦ rw f (benched-IsArmed mult captain base id s f)
        ])
        | inl b ↦ rw b (elim (Bool-cases (played live vice && fielded base vice)) [
          | inl c ↦ rw c (multiply-IsArmed mult vice by_vice base id s)
          | inr c ↦ rw c (elim (Bool-cases (settled live vice)) [
            | inr d ↦ rw d (nobody-IsArmed mult pending base id s)
            | inl d ↦ rw d (nobody-IsArmed mult nobody base id s)
          ])
        ])
      ])
    ]

-- He has played, and counts.
abbrev pub on_pitch : List (ℕ × LiveStat) → (ℕ → Option ℕ) → Option ℕ → Bool
on_pitch live base o = played live o && fielded base o

-- What the armband came to.
abbrev pub ArmbandCase :
    List (ℕ × LiveStat)
    → (ℕ → Option ℕ)
    → ℕ
    → Option ℕ
    → Option ℕ
    → Option ℤ
    → EffectiveCaptain
    → Type 0
ArmbandCase live base mult captain vice points c =
    ((c.via ≡ by_captain)
      × (id : ℕ) × (captain ≡ some id)
      × (c.element_id ≡ some id)
      × (0 < (stat live id).minutes)
      × (fielded base captain ≡ true)
      × (points ≡ some ((stat live id).total_points *ℤ pos mult)))
    ⊎ ((c.via ≡ by_vice)
        × (id : ℕ) × (vice ≡ some id)
        × (c.element_id ≡ some id)
        × (0 < (stat live id).minutes)
        × (fielded base vice ≡ true)
        × (on_pitch live base captain ≡ false)
        × (settled live captain ≡ true)
        × (points ≡ some ((stat live id).total_points *ℤ pos mult)))
    ⊎ ((c.via ≡ nobody)
        × (settled live captain ≡ true)
        × (settled live vice ≡ true)
        × (on_pitch live base captain ≡ false)
        × (on_pitch live base vice ≡ false)
        × (c.element_id ≡ none)
        × (points ≡ some (pos 0)))
    ⊎ ((c.via ≡ pending)
        × (on_pitch live base captain ≡ false)
        × (((settled live captain ≡ false) × (c.element_id ≡ captain))
            ⊎ ((settled live vice ≡ false)
                × (on_pitch live base vice ≡ false)
                × (c.element_id ≡ none)))
        × (points ≡ none))

wearer :
    (live : List (ℕ × LiveStat)) (base : ℕ → Option ℕ) (o : Option ℕ)
    → (played live o && fielded base o) ≡ true
    → (id : ℕ) × (o ≡ some id) × (0 < (stat live id).minutes) × (fielded base o ≡ true)
wearer live base none h = cc
wearer live base (some id) h = (id, refl, ground arith, ground arith)

worn_points :
    (live : List (ℕ × LiveStat)) (mult : ℕ) (base : ℕ → Option ℕ) (o : Option ℕ) (id : ℕ) (v : Via)
    → o ≡ some id
    → is_pending v ≡ false
    → captain_points_of live (multiply o mult base) (record { element_id = o; via = v })
      ≡ some ((stat live id).total_points *ℤ pos mult)
unfolding captain_points_of
worn_points live mult base none id v e h = cc
worn_points live mult base (some w) id v e h =
    subst
      (λ x.
        captain_points_of live (multiply (some w) mult base)
          (record { element_id = some w; via = v })
        ≡ some ((stat live x).total_points *ℤ pos mult))
      (some_eq e) (rw h (rw ((==_iff w w).1 refl) refl))
  where
    some_eq : {a b : ℕ} → some a ≡ some b → a ≡ b
    some_eq q = cc

resolve_captain-cases :
    (live : List (ℕ × LiveStat)) (mult : ℕ) (captain vice : Option ℕ) (base : ℕ → Option ℕ)
    → let r = resolve_captain live mult captain vice base in
      ArmbandCase live base mult captain vice (captain_points_of live r.0 r.1) r.1
unfolding resolve_captain
resolve_captain-cases live mult captain vice base =
    elim (Bool-cases (played live captain && fielded base captain)) [
      | inl a ↦
          let (id, e, k, f) = wearer live base captain a in
          rw a (inl (refl, id, e, e, k, f, worn_points live mult base captain id by_captain e refl))
      | inr a ↦ rw a (elim (Bool-cases (settled live captain)) [
        | inr b ↦
            rw b (inr (inr (inr (refl, refl, inl (refl, refl), unfold captain_points_of in refl))))
        | inl b ↦ rw b (elim (Bool-cases (played live vice && fielded base vice)) [
          | inl c ↦
              let (id, e, k, f) = wearer live base vice c in
              rw c (
                inr (
                  inl (
                    refl,
                    id,
                    e,
                    e,
                    k,
                    f,
                    refl,
                    refl,
                    worn_points live mult base vice id by_vice e refl,
                  )))
          | inr c ↦ rw c (elim (Bool-cases (settled live vice)) [
            | inr d ↦ rw d (
                inr (
                  inr (inr (refl, refl, inr (refl, refl, refl), unfold captain_points_of in refl))))
            | inl d ↦ rw d (
                inr (
                  inr (inl (refl, refl, refl, refl, refl, refl, unfold captain_points_of in refl))))
          ])
        ])
      ])
    ]

-- The picked captain wears the armband if he has played and counts after the substitutions; else the vice
-- captain does, if he has and the captain's matches are settled. The points of the one who wears it then
-- count as often as the chip says. If both are settled and neither can wear it, nobody does and the
-- captain's points are 0; in all other cases one of them is not settled, and they are unknown. A pick who does not
-- wear the armband counts as he does after the substitutions, at most once. The wearer counts as
-- often as the chip says, unless he is a captain whose matches are not settled and who was taken out:
-- then he does not count.
pub armband_only_multiplies :
    (i : SquadInput)
    → let captain = (derive_effective_squad i).effective_captain in
      ArmbandCase i.live
        (subbed_of i).base
        (cap_mult_of i.active_chip)
        (captain_of i)
        (vice_of i)
        (derive_effective_squad i).captain_points
        captain
      × ((p : EffectivePick)
          → Memᴰ p (derive_effective_squad i).picks
          → ((captain.element_id ≢ some p.element_id)
              × (p.effective_multiplier ≡ or_zero ((subbed_of i).base p.element_id))
              × (p.effective_multiplier ≤ 1))
            ⊎ ((captain.element_id ≡ some p.element_id)
                × ((p.effective_multiplier ≡ cap_mult_of i.active_chip)
                    ⊎ ((captain.via ≡ pending) × (p.effective_multiplier ≡ 0)))))
unfolding derive_effective_squad armband
armband_only_multiplies i = (
  resolve_captain-cases i.live (cap_mult_of i.active_chip) (captain_of i) (vice_of i)
      (subbed_of i).base,
  λ p m.
      let mult = cap_mult_of i.active_chip in
      let effective = (armband i).0 in
      let (q, _, e) =
        Memᴰ.of_map
          (effective_pick (is_bench_boost i.active_chip) mult (subbed_of i).marks effective) _ m in
      subst
        (λ x.
          (((armband i).1.element_id ≢ some x.element_id)
            × (x.effective_multiplier ≡ or_zero ((subbed_of i).base x.element_id))
            × (x.effective_multiplier ≤ 1))
          ⊎ (((armband i).1.element_id ≡ some x.element_id)
              × ((x.effective_multiplier ≡ mult)
                  ⊎ (((armband i).1.via ≡ pending) × (x.effective_multiplier ≡ 0)))))
        e
        (resolve_captain-IsArmed i.live mult (captain_of i) (vice_of i) (subbed_of i).base
          q.element_id (subbed_of-IsSingle i)),
)
