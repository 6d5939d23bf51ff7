-- ===== src/Lock.antt =====
-- server/src/repositories/lockRepo.js: the lease of one lock id. A statement of the repository is one
-- step at the server's clock `now`; the documents' collection is the one document, if it is there.
pub mod Laws
pub mod Traces
pub mod Lease
use fpl_radar.Prelude.{
  ℕ, ◌+◌, Bool, true, false, ◌&&◌, ◌||◌, Option, none, some, if◌then◌else◌, leb, ltb, ◌==◌,
}

-- `owner` is `none` for a released lease; an owner is a run's id.
pub record LockDoc : Type 0 where
  pub owner : Option ℕ
  pub fencing_token : ℕ
  pub expires_at : ℕ
  pub acquired_at : ℕ
  pub heartbeat_at : ℕ
  pub last_write_at : Option ℕ

abbrev default_ttl_ms : ℕ
default_ttl_ms = 120000

abbrev greater : ℕ → ℕ → ℕ
greater a b = if ltb a b then b else a

abbrev token_or_zero : Option LockDoc → ℕ
token_or_zero none = 0
token_or_zero (some d) = d.fencing_token

-- The `$set` of `grant`, on the document that was matched or on none.
unfoldable pub grant : ℕ → ℕ → ℕ → Option LockDoc → LockDoc
grant owner ttl now old = record {
  owner = some owner;
  fencing_token = greater (token_or_zero old + 1) now;
  expires_at = now + ttl;
  acquired_at = now;
  heartbeat_at = now;
  last_write_at = none;
}

abbrev is_free : Option ℕ → Bool
is_free none = true
is_free (some o) = false

abbrev pub owned_by : ℕ → Option ℕ → Bool
owned_by owner none = false
owned_by owner (some o) = o == owner

-- Statement 1: take over a lease that is free or expired. The result is the collection and the
-- document that was granted.
unfoldable pub take_over : ℕ → ℕ → ℕ → Option LockDoc → Option LockDoc × Option LockDoc
unfolding grant
take_over owner ttl now none = (none, none)
take_over owner ttl now (some d) =
    if is_free d.owner || leb d.expires_at now
    then (some (grant owner ttl now (some d)), some (grant owner ttl now (some d)))
    else (some d, none)

-- Statement 2: the upsert; a document that is there collides on its id, which gives null.
unfoldable pub create_lock : ℕ → ℕ → ℕ → Option LockDoc → Option LockDoc × Option LockDoc
unfolding grant
create_lock owner ttl now none = (some (grant owner ttl now none), some (grant owner ttl now none))
create_lock owner ttl now (some d) = (some d, none)

-- `acquire` with nothing between its statements; `checkTtl` is the caller's.
unfoldable pub acquire : ℕ → ℕ → ℕ → Option LockDoc → Option LockDoc × Option LockDoc
unfolding take_over create_lock
acquire owner ttl now store = elim (take_over owner ttl now store).1 [
  | some d ↦ (some d, some d)
  | none ↦ create_lock owner ttl now store
]

-- The filter `{ _id, owner, fencingToken, ...notExpired }`.
unfoldable pub holds : ℕ → ℕ → ℕ → Option LockDoc → Bool
holds owner token now none = false
holds owner token now (some d) =
    owned_by owner d.owner && d.fencing_token == token && ltb now d.expires_at

abbrev with_doc : (LockDoc → LockDoc) → Option LockDoc → Option LockDoc
with_doc f none = none
with_doc f (some d) = some (f d)

unfoldable pub heartbeat : ℕ → ℕ → ℕ → ℕ → Option LockDoc → Option LockDoc × Bool
unfolding holds
heartbeat owner token ttl now store =
    if holds owner token now store
    then (with_doc (λ d. record d { expires_at = now + ttl; heartbeat_at = now }) store, true)
    else (store, false)

-- It runs in the caller's transaction, whose session is not modelled.
unfoldable pub fence : ℕ → ℕ → ℕ → Option LockDoc → Option LockDoc × Bool
unfolding holds
fence owner token now store =
    if holds owner token now store
    then (with_doc (λ d. record d { last_write_at = some now }) store, true)
    else (store, false)

unfoldable pub release : ℕ → ℕ → Option LockDoc → Option LockDoc × Bool
release owner now none = (none, false)
release owner now (some d) =
    if owned_by owner d.owner
    then (some (record d { owner = none; expires_at = now }), true)
    else (some d, false)
