-- ===== src/Eligibility/Laws.antt =====
-- Every member is eligible or has one reason not to be, and both lists ascend.
use mathlib.Core.List.{Perm, perm_middle}
use mathlib.Core.List.Perm
use mathlib.Core.List.Memᴰ
use fpl_radar.Prelude.{
  ℕ, ◌≤◌, ◌≡◌, refl, sym, ap, ◌∙◌, Bool, true, false, Option, none, some, List, [], ◌∷◌, ◌++◌, map,
  Memᴰ, ◌⊎◌, Option-cases, inl, inr, arith,
}
use fpl_radar.Prelude.Sort.{sort_by, sort_by-perm, sort_by-mem, mem-sort_by}
use fpl_radar.Eligibility.{Member, reason_of, select_members, by_member_id, select_eligible}

select_members-perm :
    (has_row : ℕ → Bool) (event : ℕ) (ms : List Member)
    → Perm
        ((select_members has_row event ms).eligible
          ++ map (λ p. p.0) (select_members has_row event ms).ineligible)
        (map (λ m. m.entry_id) ms)
unfolding select_members
select_members-perm has_row event [] = Perm.rfl
select_members-perm has_row event (m ∷ ms) = elim (Option-cases (reason_of has_row event m)) [
  | inl e ↦ rw (e, select_members) (Perm.cons m.entry_id (select_members-perm has_row event ms))
  | inr (r, e) ↦
      rw (e, select_members)
        (Perm.trans
          (perm_middle (select_members has_row event ms).eligible
            (map (λ p. p.0) (select_members has_row event ms).ineligible))
          (Perm.cons m.entry_id (select_members-perm has_row event ms)))
]

-- Every member is counted once: eligible, or ineligible with one reason.
pub select_eligible-perm :
    (members : List Member) (has_row : ℕ → Bool) (event : ℕ)
    → Perm
        ((select_eligible members has_row event).eligible
          ++ map (λ p. p.0) (select_eligible members has_row event).ineligible)
        (map (λ m. m.entry_id) members)
unfolding select_eligible
select_eligible-perm members has_row event =
    Perm.trans (select_members-perm has_row event (sort_by by_member_id members))
      (Perm.map (λ m. m.entry_id) (sort_by-perm by_member_id members))

select_members-mem :
    (has_row : ℕ → Bool) (event : ℕ) {id : ℕ} (ms : List Member)
    → Memᴰ id (select_members has_row event ms).eligible
    → (m : Member) × Memᴰ m ms × (m.entry_id ≡ id) × (reason_of has_row event m ≡ none)
unfolding select_members
select_members-mem has_row event [] k = absurd (Memᴰ.not-nil k)
select_members-mem has_row event (m ∷ ms) k = elim (Option-cases (reason_of has_row event m)) [
  | inl e ↦ elim (Memᴰ.cases_cons (rw (e, select_members) at k)) [
    | inl q ↦ (m, Memᴰ.head refl, sym q, e)
    | inr k' ↦ let (n, mn, q, d) = select_members-mem has_row event ms k' in (n, Memᴰ.tail mn, q, d)
  ]
  | inr (r, e) ↦
      let (n, mn, q, d) = select_members-mem has_row event ms (rw (e, select_members) at k) in
      (n, Memᴰ.tail mn, q, d)
]

mem-select_members :
    (has_row : ℕ → Bool) (event : ℕ) {m : Member} (ms : List Member)
    → Memᴰ m ms
    → reason_of has_row event m ≡ none
    → Memᴰ m.entry_id (select_members has_row event ms).eligible
unfolding select_members
mem-select_members has_row event [] k e = absurd (Memᴰ.not-nil k)
mem-select_members has_row event (n ∷ ms) (Memᴰ.head q) e =
    rw (sym (ap (reason_of has_row event) q) ∙ e, select_members)
      (Memᴰ.head (ap (λ x. x.entry_id) q))
mem-select_members has_row event (n ∷ ms) (Memᴰ.tail k) e =
    elim (Option-cases (reason_of has_row event n)) [
      | inl d ↦ rw (d, select_members) (Memᴰ.tail (mem-select_members has_row event ms k e))
      | inr (r, d) ↦ rw (d, select_members) (mem-select_members has_row event ms k e)
    ]

pub eligible_member :
    (members : List Member) (has_row : ℕ → Bool) (event : ℕ) {id : ℕ}
    → Memᴰ id (select_eligible members has_row event).eligible
    → (m : Member) × Memᴰ m members × (m.entry_id ≡ id) × (reason_of has_row event m ≡ none)
unfolding select_eligible
eligible_member members has_row event k =
    let (m, mm, q, e) = select_members-mem has_row event (sort_by by_member_id members) k in
    (m, sort_by-mem by_member_id members mm, q, e)

-- A member stays eligible if he is not excluded, has joined by the gameweek, and has a row in it or
-- failed to sync: a missing row alone never drops a member whose history was not fetched.
pub eligible_unless_proved :
    (members : List Member) (has_row : ℕ → Bool) (event : ℕ) (m : Member)
    → Memᴰ m members
    → m.is_excluded ≡ false
    → ((j : ℕ) → m.joined_event ≡ some j → j ≤ event)
    → (m.synced ≡ false) ⊎ (has_row m.entry_id ≡ true)
    → Memᴰ m.entry_id (select_eligible members has_row event).eligible
unfolding select_eligible reason_of
eligible_unless_proved members has_row event m k x j s =
    mem-select_members has_row event (sort_by by_member_id members)
      (mem-sort_by by_member_id members k) (no_reason m.joined_event refl j)
  where
    no_reason :
        (joined : Option ℕ)
        → m.joined_event ≡ joined
        → ((i : ℕ) → m.joined_event ≡ some i → i ≤ event)
        → reason_of has_row event m ≡ none
    no_reason none e h = ground arith
    no_reason (some i) e h = ground (arith, h i e)
