-- ===== src/SyncRun.antt =====
-- server/src/repositories/syncRunRepo.js: the run documents and the statements on them, and the end of
-- `runJob` of server/src/sync/syncService.js. Ids of runs and locks are numbers; the target, the job
-- and the trigger of a run are not modelled. A statement is atomic.
pub mod Changes
pub mod Traces
pub mod Job
use fpl_radar.Prelude.{
  ℕ, suc, ◌+◌, ◌*◌, Bool, true, false, ◌&&◌, ◌||◌, not, Option, none, some, List, [], ◌∷◌, ◌++◌,
  map, if◌then◌else◌, ltb, leb, ◌==◌, any, keep, length,
}
use fpl_radar.EventState.{SyncRunStatus, running, success, partial, failed, abandoned}

abbrev pub max_requests_per_run : ℕ
max_requests_per_run = 300

-- `RUN_RETENTION_MS`
abbrev pub run_retention_ms : ℕ
run_retention_ms = 90 * 24 * 60 * 60 * 1000

pub data RunWarning : Type 0 where
  request_log_truncated : RunWarning
  runs_abandoned request_log_write_failed other_warning : ℕ → RunWarning

-- A logged request and a failure stand for themselves, by a number.
pub record SyncRun : Type 0 where
  pub id : ℕ
  pub lock_id : ℕ
  pub fencing_token : ℕ
  pub status : SyncRunStatus
  pub requests : List ℕ
  pub failures : List ℕ
  pub warnings : List RunWarning
  pub started_at : ℕ
  pub finished_at : Option ℕ
  pub expire_at : Option ℕ

abbrev pub is_running : SyncRunStatus → Bool
is_running running = true
is_running _ = false

-- The document of an id.
unfoldable pub find_run : ℕ → List SyncRun → Option SyncRun
find_run id [] = none
find_run id (r ∷ rs) = let rest = find_run id rs in if r.id == id then some r else rest

abbrev pub matches : ℕ → SyncRun → Bool
matches id r = r.id == id && is_running r.status

abbrev pub when : (SyncRun → Bool) → (SyncRun → SyncRun) → SyncRun → SyncRun
when p f r = if p r then f r else r

-- `none` where the id is taken, and the creation throws.
unfoldable pub insert_run : ℕ → ℕ → ℕ → ℕ → List SyncRun → Option (List SyncRun)
insert_run id lock_id token started_at runs =
    if any (λ r. r.id == id) runs
    then none
    else some (
        runs
        ++ record {
          id = id;
          lock_id = lock_id;
          fencing_token = token;
          status = running;
          requests = [];
          failures = [];
          warnings = [];
          started_at = started_at;
          finished_at = none;
          expire_at = some (started_at + run_retention_ms);
        }
          ∷ [])

-- `requests.{MAX - 1}` exists.
abbrev is_full : SyncRun → Bool
is_full r = leb max_requests_per_run (length r.requests)

abbrev is_truncation : RunWarning → Bool
is_truncation request_log_truncated = true
is_truncation _ = false

abbrev pub add_request : ℕ → SyncRun → SyncRun
add_request x r = record r { requests = r.requests ++ x ∷ [] }

abbrev pub note_truncation : SyncRun → SyncRun
note_truncation r = record r { warnings = r.warnings ++ request_log_truncated ∷ [] }

abbrev pub has_room : ℕ → SyncRun → Bool
has_room id r = matches id r && not (is_full r)

abbrev pub lacks_note : ℕ → SyncRun → Bool
lacks_note id r = matches id r && is_full r && not (any is_truncation r.warnings)

-- The two updates, and what is returned: whether it was logged, and whether the log is full.
unfoldable pub push_request : ℕ → ℕ → List SyncRun → List SyncRun × Bool × Bool
push_request id x runs =
    if any (has_room id) runs
    then (map (when (has_room id) (add_request x)) runs, true, false)
    else let runs' = map (when (lacks_note id) note_truncation) runs in
      (runs', false, any (lacks_note id) runs || any (λ r. matches id r && is_full r) runs')

abbrev pub finished : SyncRunStatus → List RunWarning → List ℕ → ℕ → SyncRun → SyncRun
finished status warnings failures at r = record r {
  status = status;
  finished_at = some at;
  warnings = r.warnings ++ warnings;
  failures = r.failures ++ failures;
}

-- `finish` and whether it changed a run. The callers pass SUCCESS, PARTIAL or FAILED.
unfoldable pub finish_run :
    ℕ → SyncRunStatus → List RunWarning → List ℕ → ℕ → List SyncRun → List SyncRun × Bool
finish_run id status warnings failures at runs =
    (map (when (matches id) (finished status warnings failures at)) runs, any (matches id) runs)

abbrev pub is_older : ℕ → ℕ → SyncRun → Bool
is_older lock_id token r = r.lock_id == lock_id && is_running r.status && ltb r.fencing_token token

abbrev pub abandon : ℕ → SyncRun → SyncRun
abandon at r = record r { status = abandoned; finished_at = some at }

unfoldable pub mark_abandoned : ℕ → ℕ → ℕ → List SyncRun → List SyncRun × ℕ
mark_abandoned lock_id token at runs = (
  map (when (is_older lock_id token) (abandon at)) runs,
  length (keep (is_older lock_id token) runs),
)

abbrev pub is_listed : List ℕ → SyncRun → Bool
is_listed ids r = any (λ id. id == r.id) ids

abbrev pub retain : SyncRun → SyncRun
retain r = record r { expire_at = none }

unfoldable pub unset_expiry : List ℕ → List SyncRun → List SyncRun × ℕ
unset_expiry ids runs = (map (when (is_listed ids) retain) runs, length (keep (is_listed ids) runs))

-- What `runJob` collects of its body: `none` is a body that threw a failure.
pub record Collected : Type 0 where
  pub warnings : List RunWarning
  pub failures : List ℕ
  pub partial : Bool
  pub thrown : Option ℕ

abbrev no_failures : List ℕ → Bool
no_failures [] = true
no_failures (f ∷ fs) = false

-- The status that the body earns, and the failures with the one that was thrown.
unfoldable pub earned : Collected → SyncRunStatus × List ℕ
earned c = elim c.thrown [
  | some f ↦ (failed, c.failures ++ f ∷ [])
  | none ↦ (
    if not (no_failures c.failures) || c.partial then SyncRunStatus.partial else success,
    c.failures,
  )
]

abbrev status_or : SyncRunStatus → Option SyncRun → SyncRunStatus
status_or s none = s
status_or s (some r) = r.status

-- `finish` and the re-reading of the status after it: the runs, and the status that `runJob` reports.
unfoldable pub end_job : ℕ → ℕ → Collected → List SyncRun → List SyncRun × SyncRunStatus
unfolding earned finish_run find_run
end_job id at c runs =
    let (status, failures) = earned c in
    let (runs', changed) = finish_run id status c.warnings failures at runs in
    (runs', if changed then status else status_or status (find_run id runs'))
