-- ===== src/Tests/Chain.antt =====
-- Runs of the chain of decisions (server/src/audit/hashChain.js).
use Prim.Native.String.{String}
use mathlib.Core.List.{Perm}
use fpl_radar.Prelude.{ℕ, ◌≡◌, refl, some, List, [], ◌∷◌, ◌++◌, Memᴰ, ◌==◌, if◌then◌else◌}
use fpl_radar.Winner.Inputs.{map_get}
use fpl_radar.HashChain.{
  Body, Action, Snapshot, Pointer, Fields, valid, invalid, action_hash_mismatch, verify_chain,
  next_action, check_pointer,
}
use fpl_radar.HashChain.Laws.{verified_chain_unique}
use fpl_radar.HashChain.Append.{pointer_to, next_action_verifies}

-- Stand-ins for the content hashes.
abbrev body_hash : Body String → String
body_hash b = if b.seq == 1 then "first" else b.other

abbrev snap_hash : String → String
snap_hash s = s

abbrev first_action : Action String
first_action = record {
  body = record {
    seq = 1;
    prev_hash = "GENESIS";
    new_snapshot_id = 41;
    new_snapshot_hash = "week five";
    other = "finalize";
  };
  hash = "first";
}

abbrev second_action : Action String
second_action = record {
  body = record {
    seq = 2;
    prev_hash = "first";
    new_snapshot_id = 41;
    new_snapshot_hash = "week five";
    other = "override";
  };
  hash = "override";
}

abbrev stored : List (ℕ × Snapshot String)
stored = (41, record { content = "week five"; content_hash = "week five" }) ∷ []

abbrev head_two : Pointer
head_two = pointer_to second_action

log_valid :
    verify_chain body_hash snap_hash (second_action ∷ first_action ∷ []) stored (some head_two)
    ≡ valid
unfolding verify_chain check_pointer map_get
log_valid = refl

log_in_order :
    verify_chain body_hash snap_hash (first_action ∷ second_action ∷ []) stored (some head_two)
    ≡ valid
unfolding verify_chain check_pointer map_get
log_in_order = refl

altered_log :
    verify_chain body_hash snap_hash
      (first_action ∷ record second_action { hash = "forged" } ∷ [])
      stored
      (some head_two)
    ≡ invalid 2 action_hash_mismatch
unfolding verify_chain check_pointer map_get
altered_log = refl

no_collision :
    (x y : Action String)
    → Memᴰ x (second_action ∷ first_action ∷ [])
    → Memᴰ y (first_action ∷ second_action ∷ [])
    → body_hash x.body ≡ body_hash y.body
    → x.body ≡ y.body
no_collision x y (Memᴰ.head p) (Memᴰ.head q) e = cc
no_collision x y (Memᴰ.head p) (Memᴰ.tail (Memᴰ.head q)) e = cc
no_collision x y (Memᴰ.head p) (Memᴰ.tail (Memᴰ.tail m)) e = elim m [ ]
no_collision x y (Memᴰ.tail (Memᴰ.head p)) (Memᴰ.head q) e = cc
no_collision x y (Memᴰ.tail (Memᴰ.head p)) (Memᴰ.tail (Memᴰ.head q)) e = cc
no_collision x y (Memᴰ.tail (Memᴰ.head p)) (Memᴰ.tail (Memᴰ.tail m)) e = elim m [ ]
no_collision x y (Memᴰ.tail (Memᴰ.tail m)) k e = elim m [ ]

verified_chain_unique_example :
    Perm (second_action ∷ first_action ∷ []) (first_action ∷ second_action ∷ [])
verified_chain_unique_example =
    verified_chain_unique body_hash snap_hash (second_action ∷ first_action ∷ [])
      (first_action ∷ second_action ∷ []) stored stored head_two no_collision log_valid log_in_order

abbrev third_fields : Fields String
third_fields = record { snapshot_id = 41; snapshot_hash = "week five"; rest = "revert" }

stored_41 : map_get 41 stored ≡ some (record { content = "week five"; content_hash = "week five" })
unfolding map_get
stored_41 = refl

next_action_verifies_example :
    let a = next_action body_hash snap_hash (some head_two) third_fields in
    verify_chain body_hash snap_hash
      ((second_action ∷ first_action ∷ []) ++ a ∷ [])
      stored
      (some (pointer_to a))
    ≡ valid
next_action_verifies_example =
    next_action_verifies body_hash snap_hash (second_action ∷ first_action ∷ []) stored
      (some head_two) third_fields (record { content = "week five"; content_hash = "week five" })
      (λ e. cc) stored_41 refl refl log_valid
