-- ===== src/Upsert.antt =====
-- server/src/repositories/internal/snapshotUpsert.js: writes that are repeated without effect. A
-- document is its id and its data, whose content hash is a parameter; the batch of updates is one step.
-- The validation by the model is not modelled, and the requests are not read.
pub mod Laws
use Prim.Native.String.{String}
use fpl_radar.Prelude.{
  ℕ, Bool, true, false, not, ◌&&◌, Option, none, some, List, [], ◌∷◌, ◌++◌, map, if◌then◌else◌, ltb,
  ◌==◌, any,
}
use fpl_radar.Prelude.Texts.{same_text}

-- `settledFor`
abbrev settled_for : Option ℕ → Option ℕ → Bool
settled_for started none = false
settled_for none (some observed) = false
settled_for (some started) (some observed) = ltb observed started

-- `runContext`
pub record RunContext : Type 0 where
  pub run_id : ℕ
  pub at : ℕ

pub record Item (D : Type 0) : Type 0 where
  pub id : ℕ
  pub content : D
  pub settled : Bool

pub record Provenance : Type 0 where
  pub last_confirmed_by : ℕ
  pub last_confirmed_at : ℕ
  pub last_changed_by : ℕ
  pub last_changed_at : ℕ
  pub content_hash : String
  pub settled : Bool

pub record Stored (D : Type 0) : Type 0 where
  pub id : ℕ
  pub content : D
  pub provenance : Provenance

pub record SettledChange : Type 0 where
  pub id : ℕ
  pub old_hash : String
  pub new_hash : String

pub record Upserted : Type 0 where
  pub inserted : List ℕ
  pub changed : List ℕ
  pub unchanged : List ℕ
  pub settled_row_changes : List SettledChange

module _ {D : Type 0} where
  unfoldable pub find_stored : ℕ → List (Stored D) → Option (Stored D)
  find_stored id [] = none
  find_stored id (d ∷ ds) = let rest = find_stored id ds in if d.id == id then some d else rest

  -- `seen.has(key)`, for some item after an equal one.
  unfoldable pub has_duplicate : List (Item D) → Bool
  has_duplicate [] = false
  has_duplicate (i ∷ is) =
      let rest = has_duplicate is in if any (λ j. j.id == i.id) is then true else rest

module _ {D : Type 0} (content_hash : D → String) where
  abbrev pub fresh : RunContext → Item D → Stored D
  fresh run i = record {
    id = i.id;
    content = i.content;
    provenance = record {
      last_confirmed_by = run.run_id;
      last_confirmed_at = run.at;
      last_changed_by = run.run_id;
      last_changed_at = run.at;
      content_hash = content_hash i.content;
      settled = i.settled;
    };
  }

  -- `hashDiffers`, of a document that has a hash.
  abbrev pub hash_differs : Stored D → Item D → Bool
  hash_differs d i = not (same_text d.provenance.content_hash (content_hash i.content))

  -- The pipeline of an update, on a document that is there.
  abbrev pub refreshed : RunContext → Item D → Stored D → Stored D
  refreshed run i d = record {
    id = d.id;
    content = if hash_differs d i then i.content else d.content;
    provenance = record {
      last_confirmed_by = run.run_id;
      last_confirmed_at = run.at;
      last_changed_by = if hash_differs d i then run.run_id else d.provenance.last_changed_by;
      last_changed_at = if hash_differs d i then run.at else d.provenance.last_changed_at;
      content_hash = content_hash i.content;
      settled = i.settled;
    };
  }

  unfoldable pub update_one : RunContext → Item D → List (Stored D) → List (Stored D)
  update_one run i [] = fresh run i ∷ []
  update_one run i (d ∷ ds) =
      let rest = update_one run i ds in if d.id == i.id then refreshed run i d ∷ ds else d ∷ rest

  unfoldable pub bulk_write : RunContext → List (Item D) → List (Stored D) → List (Stored D)
  unfolding update_one
  bulk_write run [] store = store
  bulk_write run (i ∷ is) store = bulk_write run is (update_one run i store)

  abbrev note_settled : Stored D → Item D → List SettledChange → List SettledChange
  note_settled before i cs =
      if before.provenance.settled
      then record {
        id = i.id;
        old_hash = before.provenance.content_hash;
        new_hash = content_hash i.content;
      }
        ∷ cs
      else cs

  abbrev pub report_item : Option (Stored D) → Item D → Upserted → Upserted
  report_item none i u = record u { inserted = i.id ∷ u.inserted }
  report_item (some before) i u =
      if same_text before.provenance.content_hash (content_hash i.content)
      then record u { unchanged = i.id ∷ u.unchanged }
      else record u {
        changed = i.id ∷ u.changed;
        settled_row_changes = note_settled before i u.settled_row_changes;
      }

  abbrev nothing_done : Upserted
  nothing_done = record { inserted = []; changed = []; unchanged = []; settled_row_changes = [] }

  unfoldable pub report : List (Item D) → List (Stored D) → Upserted
  unfolding find_stored
  report [] store = nothing_done
  report (i ∷ is) store = report_item (find_stored i.id store) i (report is store)

  -- `none` where two items have one id, and an error is thrown.
  unfoldable pub upsert_snapshots :
      RunContext → List (Item D) → List (Stored D) → Option (Upserted × List (Stored D))
  unfolding has_duplicate report bulk_write
  upsert_snapshots run items store =
      if has_duplicate items then none else some (report items store, bulk_write run items store)
