-- ===== src/Ownership/Scopes.antt =====
-- The loops of an ownership view as sums over the eligible managers (server/src/analytics/ownership.js).
use fpl_radar.Prelude.{
  ℕ, ◌+◌, ◌≡◌, refl, sym, ap, ◌∙◌, inl, inr, Bool, true, false, not, Option, none, some, List, [],
  ◌∷◌, Memᴰ, if◌then◌else◌, leb, ◌==◌, any, any_none, keep, keep-mem, mem-keep, length, arith,
  Bool-cases,
}
use fpl_radar.Prelude.Sort.{sort_by-mem, mem-sort_by, sum_by, sum-sort_by}
use fpl_radar.Winner.Inputs.{map_get, map_has}
use fpl_radar.EffectiveSquad.{EffectivePick, EffectiveSquad}
use fpl_radar.Ownership.{
  Totals, no_totals, OwnershipInput, is_element, pick_of, add_pick, add_squad, scope_stats,
  with_picks, rivals_of, me_counted,
}

abbrev pub pick_share :
    (EffectiveSquad → EffectivePick → ℕ) → EffectiveSquad → Option EffectivePick → ℕ
pick_share h s none = 0
pick_share h s (some p) = h s p

-- What a squad adds to a total of a player: nothing if it is not there, or does not have the player.
abbrev pub squad_share : (EffectiveSquad → EffectivePick → ℕ) → ℕ → Option EffectiveSquad → ℕ
squad_share h element none = 0
squad_share h element (some s) = pick_share h s (pick_of element s)

abbrev pub share_of : (EffectiveSquad → EffectivePick → ℕ) → List (ℕ × EffectiveSquad) → ℕ → ℕ → ℕ
share_of h squads element id = squad_share h element (map_get id squads)

add_squad-share :
    (g : Totals → ℕ) (h : EffectiveSquad → EffectivePick → ℕ) (element : ℕ)
    (o : Option EffectiveSquad) (t : Totals)
    → ((s : EffectiveSquad) (p : EffectivePick) (t : Totals)
        → g (add_pick element s (some p) t) ≡ h s p + g t)
    → g (add_squad element o t) ≡ squad_share h element o + g t
add_squad-share g h element none t a = omega arith
add_squad-share g h element (some s) t a = go (pick_of element s)
  where
    go : (o : Option EffectivePick) → g (add_pick element s o t) ≡ pick_share h s o + g t
    go none = omega arith
    go (some p) = a s p t

-- A total of a scope is the sum of what the squads of its managers add.
pub scope_stats-sum :
    (g : Totals → ℕ) (h : EffectiveSquad → EffectivePick → ℕ) (squads : List (ℕ × EffectiveSquad))
    (element : ℕ)
    → g no_totals ≡ 0
    → ((s : EffectiveSquad) (p : EffectivePick) (t : Totals)
        → g (add_pick element s (some p) t) ≡ h s p + g t)
    → (ids : List ℕ) → g (scope_stats squads element ids) ≡ sum_by (share_of h squads element) ids
unfolding scope_stats
scope_stats-sum g h squads element z a [] = z
scope_stats-sum g h squads element z a (id ∷ ids) =
    add_squad-share g h element (map_get id squads) (scope_stats squads element ids) a
    ∙ ap (λ n. share_of h squads element id + n) (scope_stats-sum g h squads element z a ids)

sum-keep :
    (f : ℕ → ℕ) (p : ℕ → Bool) (xs : List ℕ)
    → sum_by f (keep p xs) ≡ sum_by (λ x. if p x then f x else 0) xs
sum-keep f p [] = refl
sum-keep f p (x ∷ xs) = elim (Bool-cases (p x)) [
  | inl e ↦ rw e (ap (λ n. f x + n) (sum-keep f p xs))
  | inr e ↦ rw e (omega (arith, sum-keep f p xs))
]

sum_congr :
    (f g : ℕ → ℕ) (xs : List ℕ) → ((x : ℕ) → Memᴰ x xs → f x ≡ g x) → sum_by f xs ≡ sum_by g xs
sum_congr f g [] h = refl
sum_congr f g (x ∷ xs) h =
    let here = h x (Memᴰ.head refl) in
    let rest = sum_congr f g xs (λ y m. h y (Memᴰ.tail m)) in omega (arith, here, rest)

pub length-sum :
    (f : ℕ → ℕ) (xs : List ℕ) → ((x : ℕ) → Memᴰ x xs → f x ≡ 1) → length xs ≡ sum_by f xs
length-sum f [] h = refl
length-sum f (x ∷ xs) h =
    let here = h x (Memᴰ.head refl) in
    let rest = length-sum f xs (λ y m. h y (Memᴰ.tail m)) in omega (arith, here, rest)

-- The eligible managers but me.
abbrev pub others_of : OwnershipInput → List ℕ
others_of i = keep (λ id. not (is_element id i.my_entry_id)) i.eligible

-- Only a manager with a squad can add something.
abbrev pub IsZeroWithout : (ℕ → ℕ) → OwnershipInput → Type 0
IsZeroWithout f i = (id : ℕ) → map_has i.squads id ≡ false → f id ≡ 0

pub sum-with_picks :
    (f : ℕ → ℕ) (i : OwnershipInput)
    → IsZeroWithout f i
    → sum_by f (with_picks i) ≡ sum_by f i.eligible
unfolding with_picks
sum-with_picks f i z =
    sum-sort_by leb f (keep (map_has i.squads) i.eligible)
    ∙ sum-keep f (map_has i.squads) i.eligible
    ∙ sum_congr _ f i.eligible (λ x m. elim (Bool-cases (map_has i.squads x)) [
      | inl e ↦ rw e refl
      | inr e ↦ rw e (sym (z x e))
    ])

-- Among those who are counted, I am the one who is left out.
me_counted-eq :
    (i : OwnershipInput) (id : ℕ)
    → Memᴰ id (with_picks i)
    → is_element id (me_counted i) ≡ is_element id i.my_entry_id
unfolding me_counted
me_counted-eq i id m = go i.my_entry_id
  where
    go :
        (mine : Option ℕ)
        → is_element id (elim mine [
          | none ↦ none
          | some me ↦ if any (λ x. x == me) (with_picks i) then some me else none
        ])
          ≡ is_element id mine
    go none = refl
    go (some me) = elim (Bool-cases (any (λ x. x == me) (with_picks i))) [
      | inl e ↦ rw e refl
      | inr e ↦ let never = any_none (λ x. x == me) (with_picks i) e m in rw e (sym (other never))
    ]
      where
        other : (id == me) ≡ false → (me == id) ≡ false
        other differ = ground arith

pub sum-rivals_of :
    (f : ℕ → ℕ) (i : OwnershipInput)
    → IsZeroWithout f i
    → sum_by f (rivals_of i) ≡ sum_by f (others_of i)
unfolding rivals_of
sum-rivals_of f i z =
    let counted = λ (id : ℕ). not (is_element id (me_counted i)) in
    let other = λ (id : ℕ). not (is_element id i.my_entry_id) in
    sum-keep f counted (with_picks i)
    ∙ sum_congr _ (λ x. if other x then f x else 0) (with_picks i)
        (λ x m. ap (λ b. if not b then f x else 0) (me_counted-eq i x m))
    ∙ sum-with_picks (λ x. if other x then f x else 0) i
        (λ id e. elim (Bool-cases (other id)) [ inl o ↦ rw o (z id e) | inr o ↦ rw o refl ])
    ∙ sym (sum-keep f other i.eligible)

pub mem-with_picks :
    (i : OwnershipInput) (id : ℕ)
    → Memᴰ id (with_picks i)
    → Memᴰ id i.eligible × (map_has i.squads id ≡ true)
unfolding with_picks
mem-with_picks i id m =
    mem-keep (map_has i.squads) i.eligible (sort_by-mem leb (keep (map_has i.squads) i.eligible) m)

pub with_picks-mem :
    (i : OwnershipInput) (id : ℕ)
    → Memᴰ id i.eligible
    → map_has i.squads id ≡ true
    → Memᴰ id (with_picks i)
unfolding with_picks
with_picks-mem i id m h =
    mem-sort_by leb (keep (map_has i.squads) i.eligible) (keep-mem (map_has i.squads) m h)
