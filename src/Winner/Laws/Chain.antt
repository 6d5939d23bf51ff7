-- ===== src/Winner/Laws/Chain.antt =====
-- The loop over the tie-break chain narrows the candidates and never loses the last one.
use mathlib.Core.List.Memᴰ
use fpl_radar.Prelude.{
  ◌<◌, ◌≡◌, refl, ◌≢◌, ◌↔◌, true, false, Option, none, some, List, [], ◌∷◌, Bool-cases, inl, inr,
  Memᴰ, length, ◌==◌, ltb, arith,
}
use fpl_radar.TieBreak.{TieBreakRow, Key, Rule, by, shared, tie_breakers}
use fpl_radar.TieBreak.Laws.{tie_breakers-subset, tie_breakers_some}
use fpl_radar.Winner.Decide.{decide, applied_at_end, applied_after}

pub decide_one :
    (rules : List Rule) (cs : List TieBreakRow) (applied : Option Rule)
    → (length cs == 1) ≡ true
    → ((decide rules cs applied).candidates ≡ cs) × ((decide rules cs applied).applied ≡ applied)
unfolding decide
decide_one [] cs applied h = (refl, refl)
decide_one (by k ∷ rules) cs applied h = (rw h, rw h)
decide_one (shared ∷ rules) cs applied h = (rw h, rw h)

pub decide_shared :
    (rules : List Rule) (cs : List TieBreakRow) (applied : Option Rule)
    → (decide (shared ∷ rules) cs applied).candidates ≡ cs
unfolding decide
decide_shared rules cs applied = ground arith

pub decide_by :
    (k : Key) (rules : List Rule) (cs : List TieBreakRow) (applied : Option Rule)
    → (length cs == 1) ≡ false
    → ((decide (by k ∷ rules) cs applied).candidates
        ≡ (decide rules
            (tie_breakers k cs)
            (applied_after k (tie_breakers k cs) cs applied)).candidates)
      × ((decide (by k ∷ rules) cs applied).applied
          ≡ (decide rules
              (tie_breakers k cs)
              (applied_after k (tie_breakers k cs) cs applied)).applied)
unfolding decide
decide_by k rules cs applied h = (rw h, rw h)

-- A winner was a candidate.
pub decide_subset :
    (rules : List Rule) (cs : List TieBreakRow) (applied : Option Rule) {c : TieBreakRow}
    → Memᴰ c (decide rules cs applied).candidates
    → Memᴰ c cs
unfolding decide
decide_subset [] cs applied m = m
decide_subset (shared ∷ rules) cs applied m = rw (decide_shared rules cs applied) at m
decide_subset (by k ∷ rules) cs applied m = elim (Bool-cases (length cs == 1)) [
  | inl e ↦ rw (decide_one (by k ∷ rules) cs applied e).0 at m
  | inr e ↦ tie_breakers-subset k cs (
      decide_subset rules (tie_breakers k cs) (applied_after k (tie_breakers k cs) cs applied)
        (rw (decide_by k rules cs applied e).0 at m))
]

-- Somebody wins.
pub decide_some :
    (rules : List Rule) (cs : List TieBreakRow) (applied : Option Rule) {c : TieBreakRow}
    → Memᴰ c cs
    → (w : TieBreakRow) × Memᴰ w (decide rules cs applied).candidates
unfolding decide
decide_some [] cs applied {c} m = (c, m)
decide_some (shared ∷ rules) cs applied {c} m = (c, rw (decide_shared rules cs applied) m)
decide_some (by k ∷ rules) [] applied {c} m = absurd (Memᴰ.not-nil m)
decide_some (by k ∷ rules) (b ∷ bs) applied {c} m = elim (Bool-cases (length (b ∷ bs) == 1)) [
  | inl e ↦ (c, rw (decide_one (by k ∷ rules) (b ∷ bs) applied e).0 m)
  | inr e ↦
      let next = tie_breakers k (b ∷ bs) in
      let left = tie_breakers_some k b bs in
      let (w, mw) = decide_some rules next (applied_after k next (b ∷ bs) applied) left.1 in
      (w, rw (decide_by k rules (b ∷ bs) applied e).0 mw)
]

many :
    (cs : List TieBreakRow) {c : TieBreakRow} → Memᴰ c cs → (length cs == 1) ≡ false → 1 < length cs
many [] m e = absurd (Memᴰ.not-nil m)
many (b ∷ bs) m e = ground arith

applied_after_ne :
    (k : Key) (next cs : List TieBreakRow) (applied : Option Rule)
    → applied ≢ some shared
    → applied_after k next cs applied ≢ some shared
applied_after_ne k next cs applied h = elim (Bool-cases (ltb (length next) (length cs))) [
  | inl e ↦ rw e (λ q. cc)
  | inr e ↦ rw e h
]

-- SHARED is recorded only where several candidates are left.
decide_shared_many :
    (rules : List Rule) (cs : List TieBreakRow) (applied : Option Rule) {c : TieBreakRow}
    → Memᴰ c cs
    → applied ≢ some shared
    → (decide rules cs applied).applied ≡ some shared
    → 1 < length (decide rules cs applied).candidates
unfolding decide
decide_shared_many [] cs applied m h e = absurd (h e)
decide_shared_many (shared ∷ rules) cs applied m h e = elim (Bool-cases (length cs == 1)) [
  | inl d ↦ absurd (h (rw (decide_one (shared ∷ rules) cs applied d).1 at e))
  | inr d ↦ rw (decide_shared rules cs applied) (many cs m d)
]
decide_shared_many (by k ∷ rules) [] applied m h e = absurd (Memᴰ.not-nil m)
decide_shared_many (by k ∷ rules) (b ∷ bs) applied m h e =
    elim (Bool-cases (length (b ∷ bs) == 1)) [
      | inl d ↦ absurd (h (rw (decide_one (by k ∷ rules) (b ∷ bs) applied d).1 at e))
      | inr d ↦
          let next = tie_breakers k (b ∷ bs) in
          rw (decide_by k rules (b ∷ bs) applied d).0 (
            decide_shared_many rules next (applied_after k next (b ∷ bs) applied)
              (tie_breakers_some k b bs).1 (applied_after_ne k next (b ∷ bs) applied h)
              (rw (decide_by k rules (b ∷ bs) applied d).1 at e))
    ]

-- The rule named as decisive is SHARED exactly when several candidates win.
pub applied_at_end-shared :
    (rules : List Rule) (cs : List TieBreakRow) {c : TieBreakRow}
    → Memᴰ c cs
    → (applied_at_end (decide rules cs none) ≡ some shared)
      ↔ (1 < length (decide rules cs none).candidates)
unfolding applied_at_end
applied_at_end-shared rules cs m = (
  λ e. elim (Bool-cases (ltb 1 (length (decide rules cs none).candidates))) [
    | inl d ↦ ground arith
    | inr d ↦ decide_shared_many rules cs none m (λ q. cc) (rw d at e)
  ],
  λ h. ground arith,
)
