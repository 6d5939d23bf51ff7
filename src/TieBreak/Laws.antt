-- ===== src/TieBreak/Laws.antt =====
-- What a tie-break rule leaves: the candidates with the best value, and never nobody.
use mathlib.Core.List.Memᴰ
use fpl_radar.Prelude.{
  ◌≡◌, refl, sym, ap, ◌∙◌, subst, true, ◌↔◌, ◌⊎◌, inl, inr, List, [], ◌∷◌, if◌then◌else◌,
  Bool-cases, Memᴰ, keep, mem-keep, keep-mem, arith, All, All-mem, length, length-keep, ◌≤◌, ◌++◌,
}
use fpl_radar.Prelude.Int.{ℤ, eq_ℤ, eq_ℤ→eq, eq_ℤ_refl, ltb_ℤ, ◌≤ℤ◌, ≤ℤ_antisymm}
use fpl_radar.TieBreak.{
  TieBreakRow, Key, Rule, shared, rule_number, has_data, max_from, rule_numbers, best_number,
  tie_breakers, is_valid_rule_chain, each_allowed,
}

max_from_bounds : (m : ℤ) (ns : List ℤ) → (m ≤ℤ max_from m ns) × All (λ n. n ≤ℤ max_from m ns) ns
unfolding max_from
max_from_bounds m [] = (omega arith, tt)
max_from_bounds m (n ∷ ns) =
    let h = max_from_bounds (if ltb_ℤ m n then n else m) ns in
    (ground (arith, h.0), (ground (arith, h.0), h.1))

max_from_mem : (m : ℤ) (ns : List ℤ) → (max_from m ns ≡ m) ⊎ Memᴰ (max_from m ns) ns
unfolding max_from
max_from_mem m [] = inl refl
max_from_mem m (n ∷ ns) = elim (Bool-cases (ltb_ℤ m n)) [
  | inl e ↦
      rw (e, max_from)
        (elim (max_from_mem n ns) [ inl q ↦ inr (Memᴰ.head q) | inr k ↦ inr (Memᴰ.tail k) ])
  | inr e ↦
      rw (e, max_from) (elim (max_from_mem m ns) [ inl q ↦ inl q | inr k ↦ inr (Memᴰ.tail k) ])
]

mem-rule_numbers :
    (k : Key) {c : TieBreakRow} {cs : List TieBreakRow}
    → Memᴰ c cs
    → Memᴰ (rule_number k c) (rule_numbers k cs)
unfolding rule_numbers
mem-rule_numbers k (Memᴰ.head q) = Memᴰ.head (ap (rule_number k) q)
mem-rule_numbers k (Memᴰ.tail m) = Memᴰ.tail (mem-rule_numbers k m)

rule_numbers-mem :
    (k : Key) {n : ℤ} (cs : List TieBreakRow)
    → Memᴰ n (rule_numbers k cs)
    → (c : TieBreakRow) × Memᴰ c cs × (rule_number k c ≡ n)
unfolding rule_numbers
rule_numbers-mem k [] m = absurd (Memᴰ.not-nil m)
rule_numbers-mem k (c ∷ cs) (Memᴰ.head q) = (c, Memᴰ.head refl, sym q)
rule_numbers-mem k (c ∷ cs) (Memᴰ.tail m) =
    let h = rule_numbers-mem k cs m in (h.0, Memᴰ.tail h.1, h.2)

pub rule_number-le-best_number :
    (k : Key) {c : TieBreakRow} (cs : List TieBreakRow)
    → Memᴰ c cs
    → rule_number k c ≤ℤ best_number k cs
unfolding best_number
rule_number-le-best_number k [] m = absurd (Memᴰ.not-nil m)
rule_number-le-best_number k (d ∷ cs) (Memᴰ.head q) =
    subst (λ e. rule_number k e ≤ℤ max_from (rule_number k d) (rule_numbers k cs)) (sym q)
      (max_from_bounds (rule_number k d) (rule_numbers k cs)).0
rule_number-le-best_number k (d ∷ cs) (Memᴰ.tail m) =
    All-mem (λ n. n ≤ℤ max_from (rule_number k d) (rule_numbers k cs)) (rule_numbers k cs)
      (max_from_bounds (rule_number k d) (rule_numbers k cs)).1 (mem-rule_numbers k m)

pub best_number-mem :
    (k : Key) (c : TieBreakRow) (cs : List TieBreakRow)
    → (d : TieBreakRow) × Memᴰ d (c ∷ cs) × (rule_number k d ≡ best_number k (c ∷ cs))
unfolding best_number
best_number-mem k c cs = elim (max_from_mem (rule_number k c) (rule_numbers k cs)) [
  | inl q ↦ (c, Memᴰ.head refl, sym q)
  | inr m ↦ let h = rule_numbers-mem k cs m in (h.0, Memᴰ.tail h.1, h.2)
]

-- A rule never leaves a candidate that was not there.
pub tie_breakers-subset :
    (k : Key) {c : TieBreakRow} (cs : List TieBreakRow) → Memᴰ c (tie_breakers k cs) → Memᴰ c cs
unfolding tie_breakers
tie_breakers-subset k cs m = elim (Bool-cases (has_data k cs)) [
  | inl e ↦
      (mem-keep (λ c. eq_ℤ (rule_number k c) (best_number k cs)) cs (rw (e, tie_breakers) at m)).0
  | inr e ↦ rw (e, tie_breakers) at m
]

pub tie_breakers_kept :
    (k : Key) (cs : List TieBreakRow)
    → has_data k cs ≡ true
    → tie_breakers k cs ≡ keep (λ c. eq_ℤ (rule_number k c) (best_number k cs)) cs
unfolding tie_breakers
tie_breakers_kept k cs h = rw h

-- With data for every candidate, a rule leaves exactly the candidates whose value no other
-- candidate exceeds.
pub tie_breakers_best :
    (k : Key) (c : TieBreakRow) (cs : List TieBreakRow)
    → has_data k cs ≡ true
    → Memᴰ c (tie_breakers k cs)
      ↔ (Memᴰ c cs × ((d : TieBreakRow) → Memᴰ d cs → rule_number k d ≤ℤ rule_number k c))
tie_breakers_best k c [] h =
    (λ m. absurd (Memᴰ.not-nil (tie_breakers-subset k [] m)), λ p. absurd (Memᴰ.not-nil p.0))
tie_breakers_best k c (b ∷ bs) h =
    let cs = b ∷ bs in
    let test = λ (x : TieBreakRow). eq_ℤ (rule_number k x) (best_number k cs) in
    (
      λ m.
          let p = mem-keep test cs (rw (tie_breakers_kept k cs h) at m) in
          let e = eq_ℤ→eq _ _ p.1 in (p.0, λ d md. rw e (rule_number-le-best_number k cs md)),
      λ p.
          let (d, md, q) = best_number-mem k b bs in
          let same =
            ≤ℤ_antisymm (rule_number k c) (best_number k cs) (rule_number-le-best_number k cs p.0)
              (subst (λ n. n ≤ℤ rule_number k c) q (p.1 d md)) in
          rw (tie_breakers_kept k cs h) (
            keep-mem test p.0
              (ap (λ n. eq_ℤ n (best_number k cs)) same ∙ eq_ℤ_refl (best_number k cs))),
    )

-- A rule applied to some candidates leaves some.
pub tie_breakers_some :
    (k : Key) (c : TieBreakRow) (cs : List TieBreakRow)
    → (d : TieBreakRow) × Memᴰ d (tie_breakers k (c ∷ cs))
unfolding tie_breakers
tie_breakers_some k c cs = elim (Bool-cases (has_data k (c ∷ cs))) [
  | inl e ↦
      let (d, md, q) = best_number-mem k c cs in
      (
        d,
        rw (tie_breakers_kept k (c ∷ cs) e) (
            keep-mem (λ x. eq_ℤ (rule_number k x) (best_number k (c ∷ cs))) md
              (ap (λ n. eq_ℤ n (best_number k (c ∷ cs))) q ∙ eq_ℤ_refl (best_number k (c ∷ cs)))),
      )
  | inr e ↦ (c, rw (e, tie_breakers) (Memᴰ.head refl))
]

length-tie_breakers : (k : Key) (cs : List TieBreakRow) → length (tie_breakers k cs) ≤ length cs
unfolding tie_breakers
length-tie_breakers k cs =
    ground (arith, length-keep (λ c. eq_ℤ (rule_number k c) (best_number k cs)) cs)

each_allowed_ends :
    (before after allowed : List Rule)
    → each_allowed allowed (before ++ shared ∷ after) ≡ true
    → after ≡ []
each_allowed_ends [] [] allowed h = refl
each_allowed_ends [] (r ∷ after) allowed h = absurd (ground arith)
each_allowed_ends (r ∷ before) after allowed h =
    each_allowed_ends before after allowed (ground arith)

-- Where SHARED stands in an accepted chain, nothing follows it.
valid_chain_ends :
    (before after allowed : List Rule)
    → is_valid_rule_chain (before ++ shared ∷ after) allowed ≡ true
    → after ≡ []
unfolding is_valid_rule_chain
valid_chain_ends before after allowed h = each_allowed_ends before after allowed (ground arith)
