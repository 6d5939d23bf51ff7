-- ===== src/HashChain/Append.antt =====
-- Appending to a chain that verifies.
use Prim.Native.String.{String}
use fpl_radar.Prelude.{
  Bool, ℕ, ◌+◌, ◌≤◌, ◌≡◌, refl, sym, ap, subst, Option, none, some, List, [], ◌∷◌, ◌++◌, ==_iff,
  length, length-append, All, All-of_mem, All-mem, arith,
}
use fpl_radar.Prelude.Sort.{sort_by, sort_by-append, mem-sort_by}
use fpl_radar.Prelude.Texts.{same_text_iff}
use fpl_radar.Winner.Inputs.{map_get}
use fpl_radar.HashChain.{
  genesis, Body, Action, Snapshot, Pointer, Fields, seq_after, hash_after, next_body, valid,
  invalid, by_seq, last_action, check_pointer, check_snapshot, check_action, walk, no_snapshots,
  verify_with, verify_chain, next_action,
}
use fpl_radar.HashChain.Laws.{
  end_hash, Linked, walk-Linked, step_valid, verified, check_pointer_head,
}

-- The pointer that is stored with an action.
abbrev pub pointer_to : {F : Type 0} → Action F → Pointer
pointer_to a = record {
  head_seq = a.body.seq;
  head_hash = a.hash;
  current_snapshot_id = a.body.new_snapshot_id;
}

last_action-append :
    {F : Type 0} → (xs : List (Action F)) (a : Action F) → last_action (xs ++ a ∷ []) ≡ some a
last_action-append [] a = refl
last_action-append (x ∷ xs) a =
    ap (λ o. elim o [ none ↦ some x | some z ↦ some z ]) (last_action-append xs a)

module _ {F S : Type 0} (action_hash : Body F → String) (snapshot_hash : S → String) where
  pub Linked-below :
      (i : ℕ) (prev : String) (xs : List (Action F))
      → Linked action_hash snapshot_hash i prev xs
      → All (λ x. x.body.seq ≤ i + length xs) xs
  Linked-below i prev [] l = tt
  Linked-below i prev (x ∷ xs) (h, l) = (
    omega (arith, h.numbered),
    All-of_mem xs (λ y m.
        let b =
          All-mem (λ z. z.body.seq ≤ i + 1 + length xs) xs (Linked-below (i + 1) x.hash xs l) m in
        omega arith),
  )

  walk-append :
      (given_none : Bool) (snaps : List (ℕ × Snapshot S)) (i : ℕ) (prev : String)
      (xs : List (Action F)) (a : Action F)
      → walk action_hash snapshot_hash given_none snaps i prev xs ≡ valid
      → check_action action_hash snapshot_hash given_none snaps (i + length xs) (end_hash prev xs) a
        ≡ valid
      → walk action_hash snapshot_hash given_none snaps i prev (xs ++ a ∷ []) ≡ valid
  unfolding walk
  walk-append given_none snaps i prev [] a h c =
      ap (λ v. elim v [ valid ↦ valid | invalid n r ↦ invalid n r ])
        (subst (λ n. check_action action_hash snapshot_hash given_none snaps n prev a ≡ valid)
          (omega arith) c)
  walk-append given_none snaps i prev (x ∷ xs) a h c =
      let (d, k) =
        step_valid action_hash snapshot_hash
          (check_action action_hash snapshot_hash given_none snaps i prev x) _ h in
      rw (d, walk)
        (walk-append given_none snaps (i + 1) x.hash xs a k (
          subst
            (λ n.
              check_action action_hash snapshot_hash given_none snaps n (end_hash x.hash xs) a
              ≡ valid)
            (omega arith) c))

  next-checked :
      (given_none : Bool) (snaps : List (ℕ × Snapshot S)) (i : ℕ) (prev : String)
      (head : Option Pointer) (f : Fields F) (s : Snapshot S)
      → seq_after head ≡ i
      → hash_after head ≡ prev
      → map_get f.snapshot_id snaps ≡ some s
      → s.content_hash ≡ snapshot_hash s.content
      → f.snapshot_hash ≡ s.content_hash
      → check_action action_hash snapshot_hash given_none snaps i prev
          (next_action action_hash snapshot_hash head f)
        ≡ valid
  unfolding check_action next_action
  next-checked given_none snaps i prev head f s n p g c k =
      rw (g, check_snapshot)
        (ground (
          arith,
          same_text_iff (hash_after head) prev,
          ==_iff (seq_after head + 1) (i + 1),
          same_text_iff (action_hash (next_body head f)) (action_hash (next_body head f)),
          same_text_iff s.content_hash (snapshot_hash s.content),
          same_text_iff f.snapshot_hash (snapshot_hash s.content),
        ))

  pub head_state :
      (xs : List (Action F)) (head : Option Pointer)
      → (head ≡ none → xs ≡ [])
      → check_pointer (length xs) (last_action xs) head ≡ valid
      → (seq_after head ≡ length xs) × (hash_after head ≡ end_hash genesis xs)
  head_state xs none e h = let q = e refl in (sym (ap length q), sym (ap (end_hash genesis) q))
  head_state xs (some p) e h = check_pointer_head action_hash snapshot_hash xs p genesis h

  appended_pointer :
      (xs : List (Action F)) (a : Action F)
      → a.body.seq ≡ length xs + 1
      → check_pointer (length (xs ++ a ∷ [])) (last_action (xs ++ a ∷ [])) (some (pointer_to a))
        ≡ valid
  unfolding check_pointer
  appended_pointer xs a n = rw (last_action-append xs a) (
      ground (
        arith,
        length-append xs (a ∷ []),
        same_text_iff a.hash a.hash,
        ==_iff a.body.seq (length (xs ++ a ∷ [])),
        ==_iff a.body.new_snapshot_id a.body.new_snapshot_id,
      ))

  pub next_verifies :
      (given_none : Bool) (actions : List (Action F)) (snaps : List (ℕ × Snapshot S))
      (head : Option Pointer) (f : Fields F) (s : Snapshot S)
      → (head ≡ none → actions ≡ [])
      → map_get f.snapshot_id snaps ≡ some s
      → s.content_hash ≡ snapshot_hash s.content
      → f.snapshot_hash ≡ s.content_hash
      → verify_with action_hash snapshot_hash given_none actions snaps head ≡ valid
      → let a = next_action action_hash snapshot_hash head f in
        verify_with action_hash snapshot_hash given_none
          (actions ++ a ∷ [])
          snaps
          (some (pointer_to a))
        ≡ valid
  unfolding verify_with next_action
  next_verifies given_none actions snaps head f s none_empty g c k h =
      let sorted = sort_by by_seq actions in
      let a = next_action action_hash snapshot_hash head f in
      let (w, p) = verified action_hash snapshot_hash given_none actions snaps head h in
      let (n, e) = head_state sorted head (λ q. ap (sort_by by_seq) (none_empty q)) p in
      let below =
        Linked-below 0 genesis sorted
          (walk-Linked action_hash snapshot_hash given_none snaps 0 genesis sorted w) in
      let last : sort_by by_seq (actions ++ a ∷ []) ≡ sorted ++ a ∷ [] =
        sort_by-append by_seq actions a (
          All-of_mem actions (λ x m.
            let b =
              All-mem (λ z. z.body.seq ≤ 0 + length sorted) sorted below
                (mem-sort_by by_seq actions m) in
            ground arith)) in
      let walked = walk-append given_none snaps 0 genesis sorted a w (
        next-checked given_none snaps (0 + length sorted) (end_hash genesis sorted) head f s
          (omega arith) e g c k) in
      joined (pointer_to a) (sort_by by_seq (actions ++ a ∷ []))
        (subst (λ l. walk action_hash snapshot_hash given_none snaps 0 genesis l ≡ valid) (sym last)
          walked)
        (subst (λ l. check_pointer (length l) (last_action l) (some (pointer_to a)) ≡ valid)
          (sym last) (appended_pointer sorted a (omega arith)))
    where
      joined :
          (p : Pointer) (xs : List (Action F))
          → walk action_hash snapshot_hash given_none snaps 0 genesis xs ≡ valid
          → check_pointer (length xs) (last_action xs) (some p) ≡ valid
          → elim (walk action_hash snapshot_hash given_none snaps 0 genesis xs) [
            | valid ↦ check_pointer (length xs) (last_action xs) (some p)
            | invalid n r ↦ invalid n r
          ]
            ≡ valid
      joined p xs w h = rw w h

  -- Appending the action that `nextAction` builds on the head of a log that verifies, with a stored
  -- snapshot whose content hash is right and is the one named, gives a log that verifies against the
  -- new head; an empty log has no head.
  pub next_action_verifies :
      (actions : List (Action F)) (snaps : List (ℕ × Snapshot S)) (head : Option Pointer)
      (f : Fields F) (s : Snapshot S)
      → (head ≡ none → actions ≡ [])
      → map_get f.snapshot_id snaps ≡ some s
      → s.content_hash ≡ snapshot_hash s.content
      → f.snapshot_hash ≡ s.content_hash
      → verify_chain action_hash snapshot_hash actions snaps head ≡ valid
      → let a = next_action action_hash snapshot_hash head f in
        verify_chain action_hash snapshot_hash (actions ++ a ∷ []) snaps (some (pointer_to a))
        ≡ valid
  unfolding verify_chain
  next_action_verifies actions snaps head f s none_empty g c k h =
      next_verifies (no_snapshots snaps) actions snaps head f s none_empty g c k h
