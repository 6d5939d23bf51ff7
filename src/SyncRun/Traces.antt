-- ===== src/SyncRun/Traces.antt =====
-- Any sequence of statements on the runs (server/src/repositories/syncRunRepo.js). The removal of
-- expired documents is not a step.
use mathlib.Core.List.Memᴰ
use fpl_radar.Prelude.{
  ℕ, ◌≤◌, ◌≡◌, refl, sym, ap, none_any, ◌⊎◌, subst, ◌∙◌, inl, inr, Bool, false, some, List, [], ◌∷◌,
  ◌++◌, map, Memᴰ, ◌==◌, ==_iff, any, All, All-append, length, arith, Bool-cases,
}
use fpl_radar.EventState.{abandoned}
use fpl_radar.SyncRun.{
  SyncRun, Collected, max_requests_per_run, is_running, find_run, matches, when, finished,
  finish_run, earned, end_job,
}
use fpl_radar.SyncRun.Changes.{
  Reach, here, next, IsUpdate, Change, updated, added, some_eq, step-Change, find_run-map,
  find_run-append, Change-stopped,
}

-- A run that is not running keeps its status for ever: whatever statements follow, in whatever order
-- and by whomever, a run that succeeded, failed or was abandoned stays that.
pub stopped_stays :
    {a b : List SyncRun} (id : ℕ) (r : SyncRun)
    → Reach a b
    → find_run id a ≡ some r
    → is_running r.status ≡ false
    → (r' : SyncRun) × (find_run id b ≡ some r') × (r'.status ≡ r.status)
stopped_stays id r (here runs) h s = (r, h, refl)
stopped_stays id r (next step rest) h s =
    let (r1, h1, e1) = Change-stopped id r (step-Change step) h s in
    let (r2, h2, e2) = stopped_stays id r1 rest h1 (ap is_running e1 ∙ s) in (r2, h2, e2 ∙ e1)

abbrev pub IsBounded : SyncRun → Type 0
IsBounded r = length r.requests ≤ max_requests_per_run

All-map-IsBounded :
    (f : SyncRun → SyncRun) (runs : List SyncRun)
    → IsUpdate f
    → All IsBounded runs
    → All IsBounded (map f runs)
All-map-IsBounded f [] u h = tt
All-map-IsBounded f (r ∷ runs) u h = (u.bounded r h.0, All-map-IsBounded f runs u h.1)

Change-IsBounded : {a b : List SyncRun} → Change a b → All IsBounded a → All IsBounded b
Change-IsBounded (updated f runs u) h = All-map-IsBounded f runs u h
Change-IsBounded (added r runs e n) h =
    All-append IsBounded runs (r ∷ []) h (rw e (omega arith), tt)

-- The log of no run ever has more than 300 requests.
requests-IsBounded : {a b : List SyncRun} → Reach a b → All IsBounded a → All IsBounded b
requests-IsBounded (here runs) h = h
requests-IsBounded (next step rest) h =
    requests-IsBounded rest (Change-IsBounded (step-Change step) h)

-- No two documents share an id.
abbrev pub IdsUnique : List SyncRun → Type 0
IdsUnique runs = (x : SyncRun) → Memᴰ x runs → find_run x.id runs ≡ some x

pub find_run-added :
    (runs : List SyncRun) (x : SyncRun)
    → any (λ r. r.id == x.id) runs ≡ false
    → find_run x.id (runs ++ x ∷ []) ≡ some x
unfolding find_run
find_run-added [] x h = rw ((==_iff x.id x.id).1 refl) refl
find_run-added (y ∷ runs) x h = elim (Bool-cases (y.id == x.id)) [
  | inl e ↦ absurd (ground arith)
  | inr e ↦ rw e (find_run-added runs x (ground arith))
]

pub mem-of_append :
    {A : Type 0} {a x : A} (xs : List A) → Memᴰ a (xs ++ x ∷ []) → Memᴰ a xs ⊎ (a ≡ x)
mem-of_append [] (Memᴰ.head e) = inr e
mem-of_append [] (Memᴰ.tail m) = absurd (Memᴰ.not-nil m)
mem-of_append (y ∷ xs) (Memᴰ.head e) = inl (Memᴰ.head e)
mem-of_append (y ∷ xs) (Memᴰ.tail m) = elim (mem-of_append xs m) [
  | inl k ↦ inl (Memᴰ.tail k)
  | inr e ↦ inr e
]

Change-unique : {a b : List SyncRun} → Change a b → IdsUnique a → IdsUnique b
Change-unique (updated f runs u) h x m =
    let (y, my, e) = Memᴰ.of_map f runs m in
    subst (λ z. find_run z.id (map f runs) ≡ some z) e
      (subst (λ i. find_run i (map f runs) ≡ some (f y)) (sym (u.same_id y))
        (find_run-map f y.id runs y u.same_id (h y my)))
Change-unique (added r runs e new) h x m = elim (mem-of_append runs m) [
  | inl k ↦ find_run-append x.id runs r x (h x k)
  | inr q ↦ subst (λ z. find_run z.id (runs ++ r ∷ []) ≡ some z) (sym q) (find_run-added runs r new)
]

Reach-unique : {a b : List SyncRun} → Reach a b → IdsUnique a → IdsUnique b
Reach-unique (here runs) h = h
Reach-unique (next step rest) h = Reach-unique rest (Change-unique (step-Change step) h)

not_matched :
    (id : ℕ) (runs : List SyncRun) (r : SyncRun)
    → IdsUnique runs
    → find_run id runs ≡ some r
    → is_running r.status ≡ false
    → any (matches id) runs ≡ false
not_matched id runs r u h s = none_any (matches id) runs (λ x m. elim (Bool-cases (x.id == id)) [
  | inr e ↦ rw e refl
  | inl e ↦
      let same : x ≡ r =
        some_eq (sym (u x m) ∙ ap (λ i. find_run i runs) ((==_iff x.id id).0 e) ∙ h) in
      let stopped : is_running x.status ≡ false = ap (λ y. is_running y.status) same ∙ s in
      rw (e, stopped) refl
])

none_changed :
    (p : SyncRun → Bool) (f : SyncRun → SyncRun) (runs : List SyncRun)
    → any p runs ≡ false
    → map (when p f) runs ≡ runs
none_changed p f [] h = refl
none_changed p f (r ∷ runs) h =
    let t : p r ≡ false = ground arith in
    let k = none_changed p f runs (ground arith) in rw t (ap (λ z. r ∷ z) k)

-- A run that was abandoned, by the next holder of its lock or by a shutdown, is reported as abandoned
-- and not as a success when its body ends, whatever the body collected and whatever statements came
-- between; and the end of the job changes no document.
pub abandoned_reported :
    {a b : List SyncRun} (id at : ℕ) (r : SyncRun) (c : Collected)
    → IdsUnique a
    → Reach a b
    → find_run id a ≡ some r
    → r.status ≡ abandoned
    → ((end_job id at c b).1 ≡ abandoned) × ((end_job id at c b).0 ≡ b)
unfolding end_job finish_run
abandoned_reported {a} {b} id at r c u t h e =
    let s : is_running r.status ≡ false = ap is_running e in
    let (r', h', e') = stopped_stays id r t h s in
    let n = not_matched id b r' (Reach-unique t u) h' (ap is_running e' ∙ s) in
    rw (n, none_changed (matches id) (finished (earned c).0 c.warnings (earned c).1 at) b n)
      (rw h' (e' ∙ e, refl))
