-- ===== src/Lock/Lease.antt =====
-- server/src/locks/leaseLock.js: the lease object of one run, over the repository's statements. The
-- heartbeat timer and the polling of `acquireLease` are not modelled; the timer calls `beat`.
use fpl_radar.Prelude.{
  ℕ, ◌≡◌, ◌↔◌, inl, inr, Bool, true, false, ◌||◌, Option, none, some, if◌then◌else◌, arith,
  Bool-cases,
}
use fpl_radar.Lock.{LockDoc, acquire, holds, heartbeat, fence, release}

pub record Lease : Type 0 where
  pub owner : ℕ
  pub fencing_token : ℕ
  pub ttl_ms : ℕ
  pub lost : Bool
  pub released : Bool

-- `tryAcquireLease`
unfoldable pub try_acquire_lease : ℕ → ℕ → ℕ → Option LockDoc → Option LockDoc × Option Lease
unfolding acquire
try_acquire_lease owner ttl now store =
    let r = acquire owner ttl now store in
    elim r.1 [
      | none ↦ (r.0, none)
      | some d ↦ (
        r.0,
        some (record {
          owner = owner;
          fencing_token = d.fencing_token;
          ttl_ms = ttl;
          lost = false;
          released = false;
        }),
      )
    ]

-- What a method leaves: the collection, the lease, and what it returned; a `fence` that throws
-- LockLostError returns false.
pub record After : Type 0 where
  pub store : Option LockDoc
  pub lease : Lease
  pub result : Bool

unfoldable pub beat : ℕ → Option LockDoc → Lease → After
unfolding heartbeat
beat now store l =
    let r = heartbeat l.owner l.fencing_token l.ttl_ms now store in
    if l.lost || l.released
    then record { store = store; lease = l; result = false }
    else record { store = r.0; lease = if r.1 then l else record l { lost = true }; result = r.1 }

unfoldable pub guard_write : ℕ → Option LockDoc → Lease → After
unfolding fence
guard_write now store l =
    let r = fence l.owner l.fencing_token now store in
    if l.lost || l.released
    then record { store = store; lease = l; result = false }
    else record { store = r.0; lease = if r.1 then l else record l { lost = true }; result = r.1 }

unfoldable pub let_go : ℕ → Option LockDoc → Lease → After
unfolding release
let_go now store l =
    let r = release l.owner now store in
    if l.released
    then record { store = store; lease = l; result = false }
    else record { store = r.0; lease = record l { released = true }; result = r.1 }

-- A write guarded by the lease is let through exactly if the lease was not known to be lost or
-- released and the stored document is still the caller's and has not expired. A refusal leaves the
-- collection as it was and the lease lost or released, so no later write is let through either.
pub guard_write_lem :
    (now later : ℕ) (store store' : Option LockDoc) (l : Lease)
    → (((guard_write now store l).result ≡ true) ↔ (
        (l.lost ≡ false) × (l.released ≡ false) × (holds l.owner l.fencing_token now store ≡ true)))
      × ((guard_write now store l).result ≡ false
          → ((guard_write now store l).store ≡ store)
            × ((guard_write later store' (guard_write now store l).lease).result ≡ false))
unfolding guard_write
guard_write_lem now later store store' l =
    elim (Bool-cases (holds l.owner l.fencing_token now store)) [
      | inl e ↦ (
        (λ h. (ground arith, ground arith, e), λ h. ground arith),
        λ h. (ground arith, ground arith),
      )
      | inr e ↦ (
        (λ h. absurd (ground arith), λ h. absurd (ground arith)),
        λ h. (ground arith, ground arith),
      )
    ]
