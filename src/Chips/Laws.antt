-- ===== src/Chips/Laws.antt =====
-- What a set of chip rules that was accepted guarantees (server/src/analytics/chips.js).
use Prim.Native.String.{String}
use mathlib.Core.List.Memᴰ
use fpl_radar.Prelude.{
  ℕ, ◌≤◌, ◌<◌, ◌≡◌, refl, sym, ap, subst, inl, inr, Bool, true, false, ◌&&◌, not, Option, none,
  some, List, [], ◌∷◌, ◌++◌, map, Memᴰ, leb, keep, keep-mem, mem-keep, length, All, All-mem,
  All-of_mem, arith, Bool-cases,
}
use fpl_radar.Prelude.Sort.{sort_by, length-keep-sort_by, sort_by-mem}
use fpl_radar.Prelude.Texts.{same_text, same_text_iff}
use fpl_radar.Chips.{
  RawRule, ChipRule, Problem, name_not_string, number_invalid, window_invalid, is_name, is_number,
  is_window, problem_if, raw_rule, rule_problems, rules_of, has_name, names_of, overlaps, by_start,
  window_problems, no_problems, valid, validate_chip_rules, in_window,
}

-- A rule by itself: at least one use, in a window within the season.
pub record IsSound (r : ChipRule) : Type 0 where
  pub some_uses : 1 ≤ r.number
  pub first : 1 ≤ r.start_event
  pub ordered : r.start_event ≤ r.stop_event
  pub last : r.stop_event ≤ 38

no_problems_split :
    (ps qs : List Problem)
    → no_problems (ps ++ qs) ≡ true
    → (no_problems ps ≡ true) × (no_problems qs ≡ true)
no_problems_split [] qs h = (refl, h)
no_problems_split (p ∷ ps) qs h = cc

-- Neighbours do not overlap, so the windows that come later start after the first one ends.
later_windows :
    (name : String) (a : ChipRule) (rs : List ChipRule)
    → no_problems (overlaps name (a ∷ rs)) ≡ true
    → All (λ r. r.start_event ≤ r.stop_event) (a ∷ rs)
    → All (λ r. a.stop_event < r.start_event) rs
unfolding overlaps
later_windows name a [] h s = tt
later_windows name a (b ∷ rs) h (sa, (sb, ss)) =
    elim (Bool-cases (leb b.start_event a.stop_event)) [
      | inl e ↦ absurd (cc (rw e at h))
      | inr e ↦
          let lt : a.stop_event < b.start_event = ground arith in
          let rest = later_windows name b rs (rw e at h) (sb, ss) in
          (
            lt,
            All-of_mem rs (λ r m.
                let k = All-mem (λ x. b.stop_event < x.start_event) rs rest m in
                omega (arith, lt, k, sb)),
          )
    ]

none_at :
    (e : ℕ) (rs : List ChipRule)
    → All (λ r. e < r.start_event) rs
    → keep (λ r. in_window r e) rs ≡ []
none_at e [] h = refl
none_at e (r ∷ rs) (h, hs) = let f : in_window r e ≡ false = ground arith in rw f (none_at e rs hs)

one_at :
    (name : String) (e : ℕ) (rs : List ChipRule)
    → no_problems (overlaps name rs) ≡ true
    → All (λ r. r.start_event ≤ r.stop_event) rs
    → length (keep (λ r. in_window r e) rs) ≤ 1
unfolding overlaps
one_at name e [] h s = omega arith
one_at name e (a ∷ []) h s = ground arith
one_at name e (a ∷ b ∷ rs) h (sa, ss) = elim (Bool-cases (in_window a e)) [
  | inl t ↦
      let later = later_windows name a (b ∷ rs) h (sa, ss) in
      let none_later = none_at e (b ∷ rs) (
        All-of_mem (b ∷ rs) (λ r m.
          let k = All-mem (λ x. a.stop_event < x.start_event) (b ∷ rs) later m in ground arith)) in
      rw (t, none_later) (omega arith)
  | inr t ↦ elim (Bool-cases (leb b.start_event a.stop_event)) [
    | inl o ↦ absurd (cc (rw o at h))
    | inr o ↦ rw t (one_at name e (b ∷ rs) (rw o at h) ss)
  ]
]

keep-keep :
    (p q : ChipRule → Bool) (rs : List ChipRule) → keep p (keep q rs) ≡ keep (λ r. q r && p r) rs
keep-keep p q [] = refl
keep-keep p q (r ∷ rs) = elim (Bool-cases (q r)) [
  | inl e ↦ rw e (elim (Bool-cases (p r)) [
    | inl f ↦ rw f (ap (λ x. r ∷ x) (keep-keep p q rs))
    | inr f ↦ rw f (keep-keep p q rs)
  ])
  | inr e ↦ rw e (keep-keep p q rs)
]

mem-names_of : (r : ChipRule) (rs : List ChipRule) → Memᴰ r rs → Memᴰ r.chip_name (names_of rs)
unfolding names_of
mem-names_of r [] m = absurd (Memᴰ.not-nil m)
mem-names_of r (x ∷ rs) (Memᴰ.head q) = Memᴰ.head (ap (λ y. y.chip_name) q)
mem-names_of r (x ∷ rs) (Memᴰ.tail m) = elim (Bool-cases (same_text r.chip_name x.chip_name)) [
  | inl e ↦ Memᴰ.head ((same_text_iff r.chip_name x.chip_name).0 e)
  | inr e ↦
      Memᴰ.tail (keep-mem (λ n. not (same_text n x.chip_name)) (mem-names_of r rs m) (rw e refl))
]

no_window_problems :
    (rules : List ChipRule) (ns : List String) (n : String)
    → no_problems (window_problems rules ns) ≡ true
    → Memᴰ n ns
    → no_problems (overlaps n (sort_by by_start (keep (has_name n) rules))) ≡ true
unfolding window_problems
no_window_problems rules [] n h m = absurd (Memᴰ.not-nil m)
no_window_problems rules (x ∷ ns) n h (Memᴰ.head q) =
    subst (λ y. no_problems (overlaps y (sort_by by_start (keep (has_name y) rules))) ≡ true)
      (sym q)
      (no_problems_split (overlaps x (sort_by by_start (keep (has_name x) rules)))
        (window_problems rules ns) h).0
no_window_problems rules (x ∷ ns) n h (Memᴰ.tail m) =
    no_window_problems rules ns n
      (no_problems_split (overlaps x (sort_by by_start (keep (has_name x) rules)))
        (window_problems rules ns) h).1
      m

no_problem_if : (b : Bool) (p : Problem) → no_problems (problem_if b p) ≡ true → b ≡ false
no_problem_if true p h = cc
no_problem_if false p h = refl

-- The rule as it came.
unfoldable pub as_raw : ChipRule → RawRule
as_raw c = record {
  name = some c.chip_name;
  number = some c.number;
  start_event = some c.start_event;
  stop_event = some c.stop_event;
}

-- A raw rule without problems is read as a sound one, with its own name, number and window.
read_rule :
    (name : Option String) (number start stop : Option ℕ)
    → is_name name ≡ true
    → is_number number ≡ true
    → is_window start stop ≡ true
    → (c : ChipRule) × IsSound c
      × (as_raw c ≡ record { name = name; number = number; start_event = start; stop_event = stop })
      × ((rules : List ChipRule)
          → raw_rule
              (record { name = name; number = number; start_event = start; stop_event = stop })
              rules
            ≡ c ∷ rules)
unfolding as_raw
read_rule none number start stop h k l = cc
read_rule (some s) none start stop h k l = cc
read_rule (some s) (some n) none stop h k l = cc
read_rule (some s) (some n) (some a) none h k l = cc
read_rule (some s) (some n) (some a) (some b) h k l = (
  record { chip_name = s; number = n; start_event = a; stop_event = b },
  record {
    some_uses = ground arith;
    first = ground arith;
    ordered = ground arith;
    last = ground arith;
  },
  refl,
  λ rules. refl,
)

rules_of-IsSound :
    (raws : List RawRule)
    → no_problems (rule_problems raws) ≡ true
    → All IsSound (rules_of raws) × (map as_raw (rules_of raws) ≡ raws)
unfolding rules_of rule_problems
rules_of-IsSound [] h = (tt, refl)
rules_of-IsSound (r ∷ raws) h =
    let a = problem_if (not (is_name r.name)) name_not_string in
    let b = problem_if (not (is_number r.number)) (number_invalid r.name) in
    let c = problem_if (not (is_window r.start_event r.stop_event)) (window_invalid r.name) in
    let (abc, rest) = no_problems_split ((a ++ b) ++ c) (rule_problems raws) h in
    let (ab, pc) = no_problems_split (a ++ b) c abc in
    let (pa, pb) = no_problems_split a b ab in
    let na = no_problem_if (not (is_name r.name)) name_not_string pa in
    let nb = no_problem_if (not (is_number r.number)) (number_invalid r.name) pb in
    let nc =
      no_problem_if (not (is_window r.start_event r.stop_event)) (window_invalid r.name) pc in
    let (rule, sound, raw, e) =
      read_rule r.name r.number r.start_event r.stop_event (ground arith) (ground arith)
        (ground arith) in
    let (s, l) = rules_of-IsSound raws rest in
    subst (λ z. All IsSound z × (map as_raw z ≡ r ∷ raws)) (sym (e (rules_of raws)))
      ((sound, s), cons_eq raw l)
  where
    cons_eq : {x y : RawRule} {xs ys : List RawRule} → x ≡ y → xs ≡ ys → x ∷ xs ≡ y ∷ ys
    cons_eq p q = cc

one_window :
    (rules : List ChipRule) (n : String) (e : ℕ)
    → All IsSound rules
    → no_problems (overlaps n (sort_by by_start (keep (has_name n) rules))) ≡ true
    → length (keep (λ x. has_name n x && in_window x e) rules) ≤ 1
one_window rules n e s h =
    let mine = keep (has_name n) rules in
    let sorted = sort_by by_start mine in
    let ordered = All-of_mem sorted (λ r m.
      (All-mem IsSound rules s
        (mem-keep (has_name n) rules (sort_by-mem by_start mine m)).0).ordered) in
    let one = one_at n e sorted h ordered in
    let same = length-keep-sort_by by_start (λ r. in_window r e) mine in
    subst (λ z. length z ≤ 1) (keep-keep (λ r. in_window r e) (has_name n) rules)
      (omega (arith, one, same))

-- A set of chip rules that is accepted is the rules that came, in their order, each with its own name,
-- number of uses and window; each has at least one use and a window within the season; and in no gameweek do two windows of one chip lie, so what a manager has
-- left of a chip is counted by one rule at most.
pub validate_chip_rules_lem :
    (raws : List RawRule) (rules : List ChipRule)
    → validate_chip_rules raws ≡ valid rules
    → All IsSound rules
      × (map as_raw rules ≡ raws)
      × ((r : ChipRule) (e : ℕ)
          → Memᴰ r rules
          → length (keep (λ x. has_name r.chip_name x && in_window x e) rules) ≤ 1)
unfolding validate_chip_rules
validate_chip_rules_lem [] rules h = cc
validate_chip_rules_lem (x ∷ raws) rules h =
    let all = rules_of (x ∷ raws) in
    elim (Bool-cases (no_problems (rule_problems (x ∷ raws)))) [
      | inr a ↦ absurd (cc (rw a at h))
      | inl a ↦ elim (Bool-cases (no_problems (window_problems all (names_of all)))) [
        | inr b ↦ absurd (cc (rw (a, b) at h))
        | inl b ↦
            let k = rw (a, b) at h in
            let same : all ≡ rules = cc in
            let (s, l) = rules_of-IsSound (x ∷ raws) a in
            subst
              (λ z.
                All IsSound z
                × (map as_raw z ≡ x ∷ raws)
                × ((r : ChipRule) (e : ℕ)
                    → Memᴰ r z
                    → length (keep (λ y. has_name r.chip_name y && in_window y e) z) ≤ 1))
              same
              (
                s,
                l,
                λ r e m.
                    one_window all r.chip_name e s
                      (no_window_problems all (names_of all) r.chip_name b (mem-names_of r all m)),
              )
      ]
    ]
