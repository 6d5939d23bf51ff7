-- ===== src/SyncRun/Job.antt =====
-- The beginning of `runJob` and `withGroupLease` of server/src/sync/syncService.js: the lease, the runs
-- that are given up, and the new run. The lock is that of the job; the owner of a new lease is fresh.
use mathlib.Core.List.Memᴰ
use fpl_radar.Prelude.{
  ℕ, ◌+◌, ◌≤◌, ◌≡◌, refl, sym, ap, subst, ◌∙◌, inl, inr, Bool, true, false, Option, none, some,
  List, [], ◌∷◌, ◌++◌, map, Memᴰ, if◌then◌else◌, ◌==◌, ==_iff, any, arith, Bool-cases, Option-cases,
}
use fpl_radar.EventState.{running}
use fpl_radar.Lock.{LockDoc, acquire}
use fpl_radar.Lock.Laws.{acquire_lem}
use fpl_radar.Lock.Lease.{Lease, try_acquire_lease, let_go}
use fpl_radar.SyncRun.{
  SyncRun, is_running, find_run, when, insert_run, is_older, abandon, mark_abandoned,
  run_retention_ms,
}
use fpl_radar.SyncRun.Changes.{some_eq}
use fpl_radar.SyncRun.Traces.{mem-of_append, find_run-added}

pub record JobWorld : Type 0 where
  pub lock : Option LockDoc
  pub runs : List SyncRun

-- How the beginning of a job ends: with an error, or with a lease and the number of runs given up.
pub data JobStart : Type 0 where
  shutting_down lock_busy insert_failed : JobStart
  started : Lease → ℕ → JobStart

-- The insertion of the run, which lets the lease go where it throws.
abbrev pub inserted :
    Option LockDoc
    → Option LockDoc
    → Lease
    → ℕ
    → List SyncRun
    → Option (List SyncRun)
    → JobStart × JobWorld
inserted lock released lease count runs none =
    (insert_failed, record { lock = released; runs = runs })
inserted lock released lease count runs (some all) =
    (started lease count, record { lock = lock; runs = all })

-- The part under the lease. `closing` is read again there.
unfoldable open_run : Bool → ℕ → ℕ → ℕ → Lease → JobWorld → JobStart × JobWorld
unfolding let_go mark_abandoned insert_run
open_run closing lock_id owner now lease w =
    let released = (let_go now w.lock lease).store in
    let (runs, count) = mark_abandoned lock_id lease.fencing_token now w.runs in
    if closing
    then (shutting_down, record w { lock = released })
    else inserted w.lock released lease count runs
        (insert_run owner lock_id lease.fencing_token now runs)

abbrev under_lease : Bool → ℕ → ℕ → ℕ → JobWorld → Option Lease → JobStart × JobWorld
unfolding open_run
under_lease closing lock_id owner now w none = (lock_busy, w)
under_lease closing lock_id owner now w (some l) = open_run closing lock_id owner now l w

unfoldable pub start_job : Bool → Bool → ℕ → ℕ → ℕ → ℕ → JobWorld → JobStart × JobWorld
unfolding try_acquire_lease under_lease
start_job closing closing_later lock_id owner ttl now w =
    let (lock, lease) = try_acquire_lease owner ttl now w.lock in
    if closing
    then (shutting_down, w)
    else under_lease closing_later lock_id owner now (record w { lock = lock }) lease

-- What the start of a job leaves among the runs of its lock.
pub record IsOpened (lock_id owner : ℕ) (l : Lease) (runs : List SyncRun) : Type 0 where
  pub run : SyncRun
  pub found : find_run owner runs ≡ some run
  pub is_on : run.status ≡ running
  pub token : run.fencing_token ≡ l.fencing_token
  pub newest :
      (x : SyncRun)
      → Memᴰ x runs
      → x.lock_id ≡ lock_id
      → is_running x.status ≡ true
      → l.fencing_token ≤ x.fencing_token

abbrev new_run : ℕ → ℕ → ℕ → ℕ → SyncRun
new_run id lock_id token at = record {
  id = id;
  lock_id = lock_id;
  fencing_token = token;
  status = running;
  requests = [];
  failures = [];
  warnings = [];
  started_at = at;
  finished_at = none;
  expire_at = some (at + run_retention_ms);
}

insert_run-some :
    (id lock_id token at : ℕ) (runs all : List SyncRun)
    → insert_run id lock_id token at runs ≡ some all
    → (any (λ r. r.id == id) runs ≡ false) × (runs ++ new_run id lock_id token at ∷ [] ≡ all)
unfolding insert_run
insert_run-some id lock_id token at runs all h = elim (Bool-cases (any (λ r. r.id == id) runs)) [
  | inl e ↦ absurd (cc (rw e at h))
  | inr e ↦ (e, some_eq (rw e at h))
]

-- A run that is still on after the older ones were given up is not older.
not_older :
    (lock_id token at : ℕ) (runs : List SyncRun) (x : SyncRun)
    → Memᴰ x (map (when (is_older lock_id token) (abandon at)) runs)
    → x.lock_id ≡ lock_id
    → is_running x.status ≡ true
    → token ≤ x.fencing_token
not_older lock_id token at runs x m k on =
    let (y, _, q) = Memᴰ.of_map (when (is_older lock_id token) (abandon at)) runs m in
    elim (Bool-cases (is_older lock_id token y)) [
      | inl o ↦
          let p : abandon at y ≡ x = rw o at q in
          let off : false ≡ true = ap (λ z. is_running z.status) p ∙ on in absurd (cc off)
      | inr o ↦
          let p : y ≡ x = rw o at q in
          let o' : is_older lock_id token x ≡ false = ap (is_older lock_id token) (sym p) ∙ o in
          let same = (==_iff x.lock_id lock_id).1 k in ground arith
    ]

new_run-IsOpened :
    (lock_id owner now : ℕ) (lease : Lease) (before : List SyncRun)
    → any
        (λ r. r.id == owner)
        (map (when (is_older lock_id lease.fencing_token) (abandon now)) before)
      ≡ false
    → IsOpened lock_id owner lease (
        map (when (is_older lock_id lease.fencing_token) (abandon now)) before
        ++ new_run owner lock_id lease.fencing_token now ∷ [])
new_run-IsOpened lock_id owner now lease before free =
    let runs = map (when (is_older lock_id lease.fencing_token) (abandon now)) before in
    record {
      run = new_run owner lock_id lease.fencing_token now;
      found = find_run-added runs (new_run owner lock_id lease.fencing_token now) free;
      is_on = refl;
      token = refl;
      newest = λ x m k on. elim (mem-of_append runs m) [
        | inl n ↦ not_older lock_id lease.fencing_token now before x n k on
        | inr q ↦ let t = ap (λ z. z.fencing_token) q in omega (arith, t)
      ];
    }

open_run-lease :
    (closing : Bool) (lock_id owner now : ℕ) (lease l : Lease) (count : ℕ) (w : JobWorld)
    → (open_run closing lock_id owner now lease w).0 ≡ started l count
    → lease ≡ l
unfolding open_run
open_run-lease true lock_id owner now lease l count w h = cc
open_run-lease false lock_id owner now lease l count w h =
    elim (Option-cases (
      insert_run owner lock_id lease.fencing_token now
        (mark_abandoned lock_id lease.fencing_token now w.runs).0)) [
          | inl e ↦ absurd (cc (rw e at h))
          | inr (all, e) ↦ let k = rw e at h in cc
        ]

open_run-lock :
    (closing : Bool) (lock_id owner now : ℕ) (lease l : Lease) (count : ℕ) (w : JobWorld)
    → (open_run closing lock_id owner now lease w).0 ≡ started l count
    → (open_run closing lock_id owner now lease w).1.lock ≡ w.lock
unfolding open_run
open_run-lock true lock_id owner now lease l count w h = cc
open_run-lock false lock_id owner now lease l count w h =
    elim (Option-cases (
      insert_run owner lock_id lease.fencing_token now
        (mark_abandoned lock_id lease.fencing_token now w.runs).0)) [
          | inl e ↦ absurd (cc (rw e at h))
          | inr (all, e) ↦ rw e refl
        ]

-- The lock of a lease that was acquired.
abbrev pub IsHeldBy : ℕ → ℕ → Lease → Option LockDoc → Type 0
IsHeldBy owner expires_at l lock =
    (d : LockDoc) × (lock ≡ some d)
    × (d.owner ≡ some owner)
    × (d.fencing_token ≡ l.fencing_token)
    × (d.expires_at ≡ expires_at)

try_acquire_lease-IsHeldBy :
    (owner ttl now : ℕ) (lock : Option LockDoc) (l : Lease)
    → (try_acquire_lease owner ttl now lock).1 ≡ some l
    → IsHeldBy owner (now + ttl) l (try_acquire_lease owner ttl now lock).0
unfolding try_acquire_lease
try_acquire_lease-IsHeldBy owner ttl now lock l h =
    elim (Option-cases (acquire owner ttl now lock).1) [
      | inl e ↦ absurd (cc (rw (e, try_acquire_lease) at h))
      | inr (d, e) ↦
          let (stored, owned, until, _, _) = (acquire_lem owner ttl now lock).1 d e in
          let k = rw (e, try_acquire_lease) at h in
          let token : d.fencing_token ≡ l.fencing_token = ap (λ x. x.fencing_token) (some_eq k) in
          rw (e, try_acquire_lease) (d, stored, owned, token, until)
    ]

open_run-IsOpened :
    (closing : Bool) (lock_id owner now : ℕ) (lease l : Lease) (count : ℕ) (w : JobWorld)
    → (open_run closing lock_id owner now lease w).0 ≡ started l count
    → IsOpened lock_id owner l (open_run closing lock_id owner now lease w).1.runs
unfolding open_run mark_abandoned
open_run-IsOpened true lock_id owner now lease l count w h = cc
open_run-IsOpened false lock_id owner now lease l count w h =
    let runs = (mark_abandoned lock_id lease.fencing_token now w.runs).0 in
    elim (Option-cases (insert_run owner lock_id lease.fencing_token now runs)) [
      | inl e ↦ absurd (cc (rw e at h))
      | inr (all, e) ↦
          let (free, q) = insert_run-some owner lock_id lease.fencing_token now runs all e in
          let k = rw e at h in
          let same : lease ≡ l = cc in
          rw e (
            subst (λ z. IsOpened lock_id owner z all) same
              (subst (IsOpened lock_id owner lease) q
                (new_run-IsOpened lock_id owner now lease w.runs free)))
    ]

-- A job that starts has acquired the lease of its lock: the lock document that it leaves has it as
-- owner, with the token of the lease, and runs for the whole time to live. Its run is recorded as
-- running under that token; and every other run of the lock that is still on has a token that is not older.
pub start_job_lem :
    (closing closing_later : Bool) (lock_id owner ttl now : ℕ) (w : JobWorld) (l : Lease)
    (count : ℕ)
    → (start_job closing closing_later lock_id owner ttl now w).0 ≡ started l count
    → ((try_acquire_lease owner ttl now w.lock).1 ≡ some l)
      × IsHeldBy owner
          (now + ttl)
          l
          (start_job closing closing_later lock_id owner ttl now w).1.lock
      × IsOpened lock_id owner l (start_job closing closing_later lock_id owner ttl now w).1.runs
unfolding start_job under_lease
start_job_lem true closing_later lock_id owner ttl now w l count h = cc
start_job_lem false closing_later lock_id owner ttl now w l count h =
    let store = (try_acquire_lease owner ttl now w.lock).0 in
    elim (Option-cases (try_acquire_lease owner ttl now w.lock).1) [
      | inl e ↦ absurd (cc (rw e at h))
      | inr (lease, e) ↦
          let k = rw e at h in
          rw e (
            ap some (
                open_run-lease closing_later lock_id owner now lease l count
                  (record w { lock = store }) k),
            subst (IsHeldBy owner (now + ttl) l)
                (sym (
                  open_run-lock closing_later lock_id owner now lease l count
                    (record w { lock = store }) k))
                (try_acquire_lease-IsHeldBy owner ttl now w.lock l (
                  e
                  ∙ ap some (
                      open_run-lease closing_later lock_id owner now lease l count
                        (record w { lock = store }) k))),
            open_run-IsOpened closing_later lock_id owner now lease l count
                (record w { lock = store }) k,
          )
    ]
