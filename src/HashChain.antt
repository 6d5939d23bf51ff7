-- ===== src/HashChain.antt =====
-- server/src/audit/hashChain.js: the chain of decisions of one gameweek. The content hashes
-- (server/src/utils/canonical.js) are parameters: of an action without its `_id` and `hash`, and of a
-- snapshot without its `_id` and `contentHash`.
pub mod Laws
pub mod Append
use Prim.Native.String.{String}
use fpl_radar.Prelude.{
  ℕ, zero, suc, ◌+◌, Bool, true, false, ◌&&◌, ◌||◌, not, Option, none, some, List, [], ◌∷◌,
  if◌then◌else◌, ◌==◌, leb, length,
}
use fpl_radar.Prelude.Sort.{sort_by}
use fpl_radar.Prelude.Texts.{same_text}
use fpl_radar.Winner.Inputs.{map_get}

abbrev pub genesis : String
genesis = "GENESIS"

-- What is hashed of an action: `F` holds the fields that the chain does not read.
pub record Body (F : Type 0) : Type 0 where
  pub seq : ℕ
  pub prev_hash : String
  pub new_snapshot_id : ℕ
  pub new_snapshot_hash : String
  pub other : F

pub record Action (F : Type 0) : Type 0 where
  pub body : Body F
  pub hash : String

pub record Snapshot (S : Type 0) : Type 0 where
  pub content : S
  pub content_hash : String

-- The document of `gwResults`: the head of the chain and the current snapshot.
pub record Pointer : Type 0 where
  pub head_seq : ℕ
  pub head_hash : String
  pub current_snapshot_id : ℕ

-- The `fields` of `nextAction`.
pub record Fields (F : Type 0) : Type 0 where
  pub snapshot_id : ℕ
  pub snapshot_hash : String
  pub rest : F

pub data Reason : Type 0 where
  seq_gap : (expected found : ℕ) → Reason
  prev_hash_mismatch action_hash_mismatch snapshot_missing snapshot_hash_mismatch : Reason
  pointer_without_actions pointer_head_mismatch pointer_snapshot_mismatch : Reason

pub data Verification : Type 0 where
  valid : Verification
  invalid : (broken_at_seq : ℕ) (reason : Reason) → Verification

abbrev pub seq_after : Option Pointer → ℕ
seq_after none = 0
seq_after (some h) = h.head_seq

abbrev pub hash_after : Option Pointer → String
hash_after none = genesis
hash_after (some h) = h.head_hash

abbrev pub next_body : {F : Type 0} → Option Pointer → Fields F → Body F
next_body head f = record {
  seq = seq_after head + 1;
  prev_hash = hash_after head;
  new_snapshot_id = f.snapshot_id;
  new_snapshot_hash = f.snapshot_hash;
  other = f.rest;
}

abbrev pub by_seq : {F : Type 0} → Action F → Action F → Bool
by_seq a b = leb a.body.seq b.body.seq

-- `sorted.at(-1)`
abbrev pub last_action : {F : Type 0} → List (Action F) → Option (Action F)
last_action [] = none
last_action (a ∷ rest) = elim (last_action rest) [ none ↦ some a | some z ↦ some z ]

abbrev pub no_snapshots : {S : Type 0} → List (ℕ × Snapshot S) → Bool
no_snapshots [] = true
no_snapshots (s ∷ ss) = false

-- The check of the pointer against the last of `n` sorted actions.
unfoldable pub check_pointer : {F : Type 0} → ℕ → Option (Action F) → Option Pointer → Verification
check_pointer n last none = valid
check_pointer n none (some p) = invalid 0 pointer_without_actions
check_pointer n (some a) (some p) =
    if not (p.head_seq == n) || not (same_text p.head_hash a.hash)
    then invalid n pointer_head_mismatch
    else if not (p.current_snapshot_id == a.body.new_snapshot_id)
    then invalid n pointer_snapshot_mismatch
    else valid

module _ {F S : Type 0} (action_hash : Body F → String) (snapshot_hash : S → String) where
  unfoldable pub next_action : Option Pointer → Fields F → Action F
  next_action head f = record { body = next_body head f; hash = action_hash (next_body head f) }

  -- `if (snap) ...`; a missing snapshot is an error when the caller gave any.
  unfoldable pub check_snapshot : Bool → Option (Snapshot S) → Body F → Verification
  check_snapshot given_none none b = if given_none then valid else invalid b.seq snapshot_missing
  check_snapshot given_none (some s) b =
      if not (same_text s.content_hash (snapshot_hash s.content))
        || not (same_text b.new_snapshot_hash (snapshot_hash s.content))
      then invalid b.seq snapshot_hash_mismatch
      else valid

  -- The body of the loop, at index `i` after the hash `prev`. `given_none` is that the map of the
  -- snapshots is empty.
  unfoldable pub check_action : Bool → List (ℕ × Snapshot S) → ℕ → String → Action F → Verification
  unfolding check_snapshot
  check_action given_none snaps i prev a =
      let after = check_snapshot given_none (map_get a.body.new_snapshot_id snaps) a.body in
      if not (a.body.seq == i + 1)
      then invalid (i + 1) (seq_gap (i + 1) a.body.seq)
      else if not (same_text a.body.prev_hash prev)
      then invalid a.body.seq prev_hash_mismatch
      else if not (same_text (action_hash a.body) a.hash)
      then invalid a.body.seq action_hash_mismatch
      else after

  -- The loop, from index `i` on.
  unfoldable pub walk : Bool → List (ℕ × Snapshot S) → ℕ → String → List (Action F) → Verification
  unfolding check_action
  walk given_none snaps i prev [] = valid
  walk given_none snaps i prev (a ∷ rest) =
      let after = walk given_none snaps (i + 1) a.hash rest in
      elim (check_action given_none snaps i prev a) [ valid ↦ after | invalid n r ↦ invalid n r ]

  unfoldable pub verify_with :
      Bool → List (Action F) → List (ℕ × Snapshot S) → Option Pointer → Verification
  unfolding walk check_pointer sort_by
  verify_with given_none actions snaps pointer =
      let sorted = sort_by by_seq actions in
      elim (walk given_none snaps 0 genesis sorted) [
        | valid ↦ check_pointer (length sorted) (last_action sorted) pointer
        | invalid n r ↦ invalid n r
      ]

  unfoldable pub verify_chain :
      List (Action F) → List (ℕ × Snapshot S) → Option Pointer → Verification
  unfolding verify_with
  verify_chain actions snaps pointer = verify_with (no_snapshots snaps) actions snaps pointer
