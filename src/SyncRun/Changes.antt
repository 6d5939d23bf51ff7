-- ===== src/SyncRun/Changes.antt =====
-- The statements on the runs (server/src/repositories/syncRunRepo.js) as steps, and what each changes.
use fpl_radar.Prelude.{
  ℕ, ◌≤◌, ◌<◌, ◌≡◌, refl, ap, subst, ◌∙◌, inl, inr, Bool, true, false, some, List, [], ◌∷◌, ◌++◌,
  map, ◌==◌, any, length, length-append, arith, Bool-cases,
}
use fpl_radar.EventState.{SyncRunStatus}
use fpl_radar.SyncRun.{
  SyncRun, RunWarning, max_requests_per_run, is_running, find_run, matches, when, insert_run,
  add_request, note_truncation, has_room, lacks_note, push_request, finished, finish_run, is_older,
  abandon, mark_abandoned, is_listed, retain, unset_expiry,
}

pub data Step : List SyncRun → List SyncRun → Type 0 where
  insert :
      (id lock_id token at : ℕ) (runs runs' : List SyncRun)
      → insert_run id lock_id token at runs ≡ some runs'
      → Step runs runs'
  push : (id x : ℕ) (runs : List SyncRun) → Step runs (push_request id x runs).0
  finish :
      (id : ℕ) (status : SyncRunStatus) (warnings : List RunWarning) (failures : List ℕ) (at : ℕ)
      (runs : List SyncRun)
      → Step runs (finish_run id status warnings failures at runs).0
  give_up :
      (lock_id token at : ℕ) (runs : List SyncRun)
      → Step runs (mark_abandoned lock_id token at runs).0
  keep_forever : (ids : List ℕ) (runs : List SyncRun) → Step runs (unset_expiry ids runs).0

pub data Reach : List SyncRun → List SyncRun → Type 0 where
  here : (runs : List SyncRun) → Reach runs runs
  next : {a b c : List SyncRun} → Step a b → Reach b c → Reach a c

-- What every update of a document does.
pub record IsUpdate (f : SyncRun → SyncRun) : Type 0 where
  pub same_id : (r : SyncRun) → (f r).id ≡ r.id
  pub stopped : (r : SyncRun) → is_running r.status ≡ false → (f r).status ≡ r.status
  pub bounded :
      (r : SyncRun)
      → length r.requests ≤ max_requests_per_run
      → length (f r).requests ≤ max_requests_per_run

pub find_run-map :
    (f : SyncRun → SyncRun) (id : ℕ) (runs : List SyncRun) (r : SyncRun)
    → ((r : SyncRun) → (f r).id ≡ r.id)
    → find_run id runs ≡ some r
    → find_run id (map f runs) ≡ some (f r)
unfolding find_run
find_run-map f id [] r s h = cc
find_run-map f id (x ∷ runs) r s h = elim (Bool-cases (x.id == id)) [
  | inl e ↦
      let k = rw e at h in
      let e' : ((f x).id == id) ≡ true = ap (λ z. z == id) (s x) ∙ e in
      let same : x ≡ r = cc in rw e' (ap (λ y. some (f y)) same)
  | inr e ↦
      let k = rw e at h in
      let e' : ((f x).id == id) ≡ false = ap (λ z. z == id) (s x) ∙ e in
      rw e' (find_run-map f id runs r s k)
]

when-IsUpdate :
    (p : SyncRun → Bool) (f : SyncRun → SyncRun)
    → ((r : SyncRun) → (f r).id ≡ r.id)
    → ((r : SyncRun) → p r ≡ true → is_running r.status ≡ false → (f r).status ≡ r.status)
    → ((r : SyncRun)
        → p r ≡ true
        → length r.requests ≤ max_requests_per_run
        → length (f r).requests ≤ max_requests_per_run)
    → IsUpdate (when p f)
when-IsUpdate p f s t b = record {
  same_id = λ r. elim (Bool-cases (p r)) [ inl e ↦ rw e (s r) | inr e ↦ rw e refl ];
  stopped = λ r h. elim (Bool-cases (p r)) [ inl e ↦ rw e (t r e h) | inr e ↦ rw e refl ];
  bounded = λ r h. elim (Bool-cases (p r)) [ inl e ↦ rw e (b r e h) | inr e ↦ rw e h ];
}

-- How a statement changes the collection: an update of some documents, or a new one.
pub data Change : List SyncRun → List SyncRun → Type 0 where
  updated : (f : SyncRun → SyncRun) (runs : List SyncRun) → IsUpdate f → Change runs (map f runs)
  added :
      (r : SyncRun) (runs : List SyncRun)
      → r.requests ≡ []
      → any (λ x. x.id == r.id) runs ≡ false
      → Change runs (runs ++ r ∷ [])

pub some_eq : {A : Type 0} {a b : A} → some a ≡ some b → a ≡ b
some_eq e = cc

add_request-bounded :
    (id x : ℕ) (r : SyncRun)
    → has_room id r ≡ true
    → length (add_request x r).requests ≤ max_requests_per_run
add_request-bounded id x r p =
    let room : length r.requests < max_requests_per_run = ground arith in
    omega (arith, length-append r.requests (x ∷ []), room)

pub step-Change : {a b : List SyncRun} → Step a b → Change a b
unfolding insert_run push_request finish_run mark_abandoned unset_expiry
step-Change (insert id lock_id token at runs runs' e) =
    elim (Bool-cases (any (λ r. r.id == id) runs)) [
      | inl t ↦ absurd (cc (rw t at e))
      | inr t ↦ let k = rw t at e in subst (λ x. Change runs x) (some_eq k) (added _ runs refl t)
    ]
step-Change (push id x runs) = elim (Bool-cases (any (has_room id) runs)) [
  | inl t ↦ rw t (
      updated (when (has_room id) (add_request x)) runs (
        when-IsUpdate (has_room id) (add_request x) (λ r. refl) (λ r p h. refl)
          (λ r p h. add_request-bounded id x r p)))
  | inr t ↦ rw t (
      updated (when (lacks_note id) note_truncation) runs
        (when-IsUpdate (lacks_note id) note_truncation (λ r. refl) (λ r p h. refl) (λ r p h. h)))
]
step-Change (finish id status warnings failures at runs) =
    updated (when (matches id) (finished status warnings failures at)) runs (
      when-IsUpdate (matches id) (finished status warnings failures at) (λ r. refl)
        (λ r p h. absurd (ground arith)) (λ r p h. h))
step-Change (give_up lock_id token at runs) =
    updated (when (is_older lock_id token) (abandon at)) runs (
      when-IsUpdate (is_older lock_id token) (abandon at) (λ r. refl)
        (λ r p h. absurd (ground arith)) (λ r p h. h))
step-Change (keep_forever ids runs) =
    updated (when (is_listed ids) retain) runs
      (when-IsUpdate (is_listed ids) retain (λ r. refl) (λ r p h. refl) (λ r p h. h))

pub find_run-append :
    (id : ℕ) (runs : List SyncRun) (x r : SyncRun)
    → find_run id runs ≡ some r
    → find_run id (runs ++ x ∷ []) ≡ some r
unfolding find_run
find_run-append id [] x r h = cc
find_run-append id (y ∷ runs) x r h = elim (Bool-cases (y.id == id)) [
  | inl e ↦ let k = rw e at h in rw e k
  | inr e ↦ let k = rw e at h in rw e (find_run-append id runs x r k)
]

pub Change-stopped :
    {a b : List SyncRun} (id : ℕ) (r : SyncRun)
    → Change a b
    → find_run id a ≡ some r
    → is_running r.status ≡ false
    → (r' : SyncRun) × (find_run id b ≡ some r') × (r'.status ≡ r.status)
Change-stopped id r (updated f runs u) h s =
    (f r, find_run-map f id runs r u.same_id h, u.stopped r s)
Change-stopped id r (added x runs e n) h s = (r, find_run-append id runs x r h, refl)
