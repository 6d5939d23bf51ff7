-- ===== src/Upsert/Laws.antt =====
-- A repeated upsert confirms and changes nothing (server/src/repositories/internal/snapshotUpsert.js).
use Prim.Native.String.{String}
use fpl_radar.Prelude.{
  ℕ, ◌≡◌, refl, sym, ap, subst, ◌∙◌, inl, inr, false, some, List, [], ◌∷◌, map, if◌then◌else◌, ◌==◌,
  ==_iff, any, All, arith, Bool-cases,
}
use fpl_radar.Prelude.Texts.{same_text_iff}
use fpl_radar.Upsert.{
  RunContext, Item, Stored, Upserted, find_stored, has_duplicate, fresh, refreshed, update_one,
  bulk_write, report, upsert_snapshots,
}

-- What a document holds, without its confirmation.
pub record Kept (D : Type 0) : Type 0 where
  pub id : ℕ
  pub content : D
  pub last_changed_by : ℕ
  pub last_changed_at : ℕ
  pub content_hash : String

abbrev pub kept_of : {D : Type 0} → Stored D → Kept D
kept_of d = record {
  id = d.id;
  content = d.content;
  last_changed_by = d.provenance.last_changed_by;
  last_changed_at = d.provenance.last_changed_at;
  content_hash = d.provenance.content_hash;
}

module _ {D : Type 0} (content_hash : D → String) where
  -- The stored document of an item has its hash.
  IsCurrent : List (Stored D) → Item D → Type 0
  IsCurrent store i =
      (d : Stored D) × (find_stored i.id store ≡ some d)
      × (d.provenance.content_hash ≡ content_hash i.content)

  update_one-IsCurrent :
      (run : RunContext) (i : Item D) (store : List (Stored D))
      → IsCurrent (update_one content_hash run i store) i
  unfolding IsCurrent update_one find_stored
  update_one-IsCurrent run i [] =
      (fresh content_hash run i, rw ((==_iff i.id i.id).1 refl) refl, refl)
  update_one-IsCurrent run i (d ∷ ds) = elim (Bool-cases (d.id == i.id)) [
    | inl e ↦ rw e (refreshed content_hash run i d, rw e refl, refl)
    | inr e ↦ rw e (let (x, f, h) = update_one-IsCurrent run i ds in (x, rw e f, h))
  ]

  update_one-other :
      (run : RunContext) (i j : Item D) (store : List (Stored D))
      → (i.id == j.id) ≡ false
      → find_stored j.id (update_one content_hash run i store) ≡ find_stored j.id store
  unfolding update_one find_stored
  update_one-other run i j [] n = rw n refl
  update_one-other run i j (d ∷ ds) n = elim (Bool-cases (d.id == i.id)) [
    | inl e ↦ let f : (d.id == j.id) ≡ false = ground arith in rw e (rw f refl)
    | inr e ↦ rw e (ap (λ r. if d.id == j.id then some d else r) (update_one-other run i j ds n))
  ]

  bulk_write-other :
      (run : RunContext) (is : List (Item D)) (j : Item D) (store : List (Stored D))
      → any (λ i. i.id == j.id) is ≡ false
      → IsCurrent store j
      → IsCurrent (bulk_write content_hash run is store) j
  unfolding IsCurrent bulk_write
  bulk_write-other run [] j store n c = c
  bulk_write-other run (i ∷ is) j store n (d, f, h) =
      bulk_write-other run is j (update_one content_hash run i store) (ground arith)
        (d, update_one-other run i j store (ground arith) ∙ f, h)

  -- After a batch every item is current.
  bulk_write-IsCurrent :
      (run : RunContext) (is : List (Item D)) (store : List (Stored D))
      → has_duplicate is ≡ false
      → All (IsCurrent (bulk_write content_hash run is store)) is
  unfolding bulk_write has_duplicate
  bulk_write-IsCurrent run [] store h = tt
  bulk_write-IsCurrent run (i ∷ is) store h = elim (Bool-cases (any (λ j. j.id == i.id) is)) [
    | inl e ↦ absurd (ground arith)
    | inr e ↦ (
      bulk_write-other run is i (update_one content_hash run i store) e
          (update_one-IsCurrent run i store),
      bulk_write-IsCurrent run is (update_one content_hash run i store) (ground arith),
    )
  ]

  -- A current item leaves what is kept, and is current afterwards.
  update_one-kept :
      (run : RunContext) (i : Item D) (store : List (Stored D))
      → IsCurrent store i
      → map kept_of (update_one content_hash run i store) ≡ map kept_of store
  unfolding IsCurrent update_one find_stored
  update_one-kept run i [] (d, f, h) = cc
  update_one-kept run i (x ∷ ds) (d, f, h) = elim (Bool-cases (x.id == i.id)) [
    | inl e ↦
        let k = rw e at f in
        let same : x.provenance.content_hash ≡ content_hash i.content = cc in
        let t = (same_text_iff x.provenance.content_hash (content_hash i.content)).1 same in
        rw e (rw t (ap (λ z. record (kept_of x) { content_hash = z } ∷ map kept_of ds) (sym same)))
    | inr e ↦
        let k = rw e at f in rw e (ap (λ z. kept_of x ∷ z) (update_one-kept run i ds (d, k, h)))
  ]

  still-IsCurrent :
      (run : RunContext) (i : Item D) (is : List (Item D)) (store : List (Stored D))
      → any (λ j. j.id == i.id) is ≡ false
      → All (IsCurrent store) is
      → All (IsCurrent (update_one content_hash run i store)) is
  unfolding IsCurrent
  still-IsCurrent run i [] store n c = tt
  still-IsCurrent run i (j ∷ is) store n ((d, f, h), rest) =
      let apart : (i.id == j.id) ≡ false = ground arith in
      (
        (d, update_one-other run i j store apart ∙ f, h),
        still-IsCurrent run i is store (ground arith) rest,
      )

  bulk_write-kept :
      (run : RunContext) (is : List (Item D)) (store : List (Stored D))
      → has_duplicate is ≡ false
      → All (IsCurrent store) is
      → map kept_of (bulk_write content_hash run is store) ≡ map kept_of store
  unfolding bulk_write has_duplicate
  bulk_write-kept run [] store n c = refl
  bulk_write-kept run (i ∷ is) store n (c, cs) = elim (Bool-cases (any (λ j. j.id == i.id) is)) [
    | inl e ↦ absurd (ground arith)
    | inr e ↦
        bulk_write-kept run is (update_one content_hash run i store) (ground arith)
          (still-IsCurrent run i is store e cs)
        ∙ update_one-kept run i store c
  ]

  abbrev pub only_unchanged : List (Item D) → Upserted
  only_unchanged is = record {
    inserted = [];
    changed = [];
    unchanged = map (λ i. i.id) is;
    settled_row_changes = [];
  }

  report-current :
      (is : List (Item D)) (store : List (Stored D))
      → All (IsCurrent store) is
      → report content_hash is store ≡ only_unchanged is
  unfolding report IsCurrent
  report-current [] store c = refl
  report-current (i ∷ is) store ((d, f, h), cs) =
      let t = (same_text_iff d.provenance.content_hash (content_hash i.content)).1 h in
      rw (f, report-current is store cs) (rw t refl)

  -- A batch that was written is written again without effect, by whatever run and at whatever time:
  -- every item is reported as unchanged, none as inserted or changed, and each document keeps its
  -- content, its hash, and the run and the time of its last change.
  pub upsert_repeated :
      (run again : RunContext) (items : List (Item D)) (store : List (Stored D)) (out : Upserted)
      (store' : List (Stored D))
      → upsert_snapshots content_hash run items store ≡ some (out, store')
      → (store'' : List (Stored D)) × (upsert_snapshots content_hash again items store'
          ≡ some (only_unchanged items, store''))
        × (map kept_of store'' ≡ map kept_of store')
  unfolding upsert_snapshots
  upsert_repeated run again items store out store' h = elim (Bool-cases (has_duplicate items)) [
    | inl e ↦ absurd (cc (rw e at h))
    | inr e ↦
        let k = rw e at h in
        let written : bulk_write content_hash run items store ≡ store' = cc in
        let c =
          subst (λ s. All (IsCurrent s) items) written (bulk_write-IsCurrent run items store e) in
        (
          bulk_write content_hash again items store',
          rw (e, report-current items store' c) refl,
          bulk_write-kept again items store' e c,
        )
  ]
