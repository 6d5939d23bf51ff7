-- ===== src/HashChain/Laws.antt =====
-- Two chains under one head.
use Prim.Native.String.{String}
use mathlib.Core.List.{Perm}
use mathlib.Core.List.Perm
use fpl_radar.Prelude.{
  Bool, ℕ, ◌+◌, ◌≡◌, refl, sym, ap, subst, ◌∙◌, Option, none, some, List, [], ◌∷◌, ==_iff, length,
  Memᴰ, arith, Option-cases, inl, inr,
}
use fpl_radar.Prelude.Sort.{sort_by, sort_by-perm, sort_by-mem}
use fpl_radar.Prelude.Texts.{same_text_iff}
use fpl_radar.Winner.Inputs.{map_get}
use fpl_radar.HashChain.{
  genesis, Body, Action, Snapshot, Pointer, Verification, valid, invalid, by_seq, last_action,
  no_snapshots, check_pointer, check_snapshot, check_action, walk, verify_with, verify_chain,
}

-- The hash that the next action has to carry.
abbrev pub end_hash : {F : Type 0} → String → List (Action F) → String
end_hash prev [] = prev
end_hash prev (a ∷ rest) = end_hash a.hash rest

module _ {F S : Type 0} (action_hash : Body F → String) (snapshot_hash : S → String) where
  -- An action that the loop lets pass at index `i` after `prev`.
  pub record IsLinked (i : ℕ) (prev : String) (a : Action F) : Type 0 where
    pub numbered : a.body.seq ≡ i + 1
    pub follows : a.body.prev_hash ≡ prev
    pub sealed : action_hash a.body ≡ a.hash

  pub check_action-IsLinked :
      (given_none : Bool) (snaps : List (ℕ × Snapshot S)) (i : ℕ) (prev : String) (a : Action F)
      → check_action action_hash snapshot_hash given_none snaps i prev a ≡ valid
      → IsLinked i prev a
        × (check_snapshot action_hash snapshot_hash given_none
              (map_get a.body.new_snapshot_id snaps)
              a.body
            ≡ valid)
  unfolding check_action
  check_action-IsLinked given_none snaps i prev a h = (
    record {
      numbered = (==_iff a.body.seq (i + 1)).0 (ground arith);
      follows = (same_text_iff a.body.prev_hash prev).0 (ground arith);
      sealed = (same_text_iff (action_hash a.body) a.hash).0 (ground arith);
    },
    ground arith,
  )

  abbrev pub Linked : ℕ → String → List (Action F) → Type 0
  Linked i prev [] = Unit
  Linked i prev (a ∷ rest) = IsLinked i prev a × Linked (i + 1) a.hash rest

  pub step_valid :
      (c after : Verification)
      → elim c [ valid ↦ after | invalid n r ↦ invalid n r ] ≡ valid
      → (c ≡ valid) × (after ≡ valid)
  step_valid valid after h = (refl, h)
  step_valid (invalid n r) after h = cc

  pub walk-Linked :
      (given_none : Bool) (snaps : List (ℕ × Snapshot S)) (i : ℕ) (prev : String)
      (actions : List (Action F))
      → walk action_hash snapshot_hash given_none snaps i prev actions ≡ valid
      → Linked i prev actions
  unfolding walk
  walk-Linked given_none snaps i prev [] h = tt
  walk-Linked given_none snaps i prev (a ∷ rest) h =
      let (c, k) =
        step_valid (check_action action_hash snapshot_hash given_none snaps i prev a) _ h in
      (
        (check_action-IsLinked given_none snaps i prev a c).0,
        walk-Linked given_none snaps (i + 1) a.hash rest k,
      )

  -- The same number of linked actions up to the same hash, where the hashes of two of them agree only
  -- if they are hashes of the same.
  Linked-unique :
      (i : ℕ) (p q : String) (xs ys : List (Action F))
      → ((x y : Action F)
          → Memᴰ x xs
          → Memᴰ y ys
          → action_hash x.body ≡ action_hash y.body
          → x.body ≡ y.body)
      → length xs ≡ length ys
      → Linked i p xs
      → Linked i q ys
      → end_hash p xs ≡ end_hash q ys
      → (xs ≡ ys) × (p ≡ q)
  Linked-unique i p q [] [] inj n lx ly e = (refl, e)
  Linked-unique i p q [] (y ∷ ys) inj n lx ly e = absurd (omega arith)
  Linked-unique i p q (x ∷ xs) [] inj n lx ly e = absurd (omega arith)
  Linked-unique i p q (x ∷ xs) (y ∷ ys) inj n (hx, lx) (hy, ly) e =
      let (tails, hashes) =
        Linked-unique (i + 1) x.hash y.hash xs ys (λ a b m k. inj a b (Memᴰ.tail m) (Memᴰ.tail k))
          (omega arith) lx ly e in
      let bodies = inj x y (Memᴰ.head refl) (Memᴰ.head refl) (hx.sealed ∙ hashes ∙ sym hy.sealed) in
      (
        cc (tails, action_eq x y bodies hashes),
        sym hx.follows ∙ ap (λ b. b.prev_hash) bodies ∙ hy.follows,
      )
    where
      action_eq : (a b : Action F) → a.body ≡ b.body → a.hash ≡ b.hash → a ≡ b
      action_eq a b p q = λ j. record { body = p j; hash = q j }

  pub last_action-end_hash :
      (prev : String) (actions : List (Action F)) (z : Action F)
      → last_action actions ≡ some z
      → end_hash prev actions ≡ z.hash
  last_action-end_hash prev [] z h = cc
  last_action-end_hash prev (a ∷ []) z h = ap (λ o. elim o [ none ↦ a.hash | some w ↦ w.hash ]) h
  last_action-end_hash prev (a ∷ b ∷ rest) z h =
      last_action-end_hash a.hash (b ∷ rest) z (ground arith)

  pub check_pointer_head :
      (actions : List (Action F)) (p : Pointer) (prev : String)
      → check_pointer (length actions) (last_action actions) (some p) ≡ valid
      → (p.head_seq ≡ length actions) × (p.head_hash ≡ end_hash prev actions)
  unfolding check_pointer
  check_pointer_head actions p prev h = elim (Option-cases (last_action actions)) [
    | inl e ↦ absurd (ground arith)
    | inr (z, e) ↦
        let k = subst (λ o. check_pointer (length actions) o (some p) ≡ valid) e h in
        (
          ground arith,
          (same_text_iff p.head_hash z.hash).0 (ground arith)
              ∙ sym (last_action-end_hash prev actions z e),
        )
  ]

  pub verified :
      (given_none : Bool) (actions : List (Action F)) (snaps : List (ℕ × Snapshot S))
      (p : Option Pointer)
      → verify_with action_hash snapshot_hash given_none actions snaps p ≡ valid
      → (walk action_hash snapshot_hash given_none snaps 0 genesis (sort_by by_seq actions) ≡ valid)
        × (check_pointer (length (sort_by by_seq actions)) (last_action (sort_by by_seq actions)) p
            ≡ valid)
  unfolding verify_with
  verified given_none actions snaps p h =
      step_valid
        (walk action_hash snapshot_hash given_none snaps 0 genesis (sort_by by_seq actions)) _ h

  -- Two logs that verify against the same pointer hold the same actions, in any order, if no two
  -- different actions of them have the same content hash.
  pub verified_chain_unique :
      (xs ys : List (Action F)) (snaps snaps' : List (ℕ × Snapshot S)) (p : Pointer)
      → ((x y : Action F)
          → Memᴰ x xs
          → Memᴰ y ys
          → action_hash x.body ≡ action_hash y.body
          → x.body ≡ y.body)
      → verify_chain action_hash snapshot_hash xs snaps (some p) ≡ valid
      → verify_chain action_hash snapshot_hash ys snaps' (some p) ≡ valid
      → Perm xs ys
  unfolding verify_chain
  verified_chain_unique xs ys snaps snaps' p inj hx hy =
      let (wx, px) = verified (no_snapshots snaps) xs snaps (some p) hx in
      let (wy, py) = verified (no_snapshots snaps') ys snaps' (some p) hy in
      let (nx, ex) = check_pointer_head (sort_by by_seq xs) p genesis px in
      let (ny, ey) = check_pointer_head (sort_by by_seq ys) p genesis py in
      let (same, _) =
        Linked-unique 0 genesis genesis (sort_by by_seq xs) (sort_by by_seq ys)
          (λ x y m k. inj x y (sort_by-mem by_seq xs m) (sort_by-mem by_seq ys k)) (sym nx ∙ ny)
          (walk-Linked (no_snapshots snaps) snaps 0 genesis (sort_by by_seq xs) wx)
          (walk-Linked (no_snapshots snaps') snaps' 0 genesis (sort_by by_seq ys) wy)
          (sym ex ∙ ey) in
      Perm.trans (Perm.symm (sort_by-perm by_seq xs))
        (subst (λ l. Perm l ys) (sym same) (sort_by-perm by_seq ys))
