-- ===== src/Tests/Locks.antt =====
-- Runs of the lock (server/src/repositories/lockRepo.js and server/src/locks/leaseLock.js).
use fpl_radar.Prelude.{
  ℕ, ◌<◌, ◌≡◌, ◌↔◌, true, false, none, some, List, [], ◌∷◌, Memᴰ, Ordered, arith,
}
use fpl_radar.Lock.{LockDoc, take_over, create_lock, fence, holds, release}
use fpl_radar.Lock.Laws.{fence_lem}
use fpl_radar.Lock.Traces.{
  World, Reach, here, next, tick, create, take, fresh_lock, fencing_tokens_rise,
}
use fpl_radar.Lock.Lease.{Lease, guard_write, guard_write_lem}

abbrev pub held : LockDoc
held = record {
  owner = some 7;
  fencing_token = 100;
  expires_at = 220;
  acquired_at = 100;
  heartbeat_at = 100;
  last_write_at = none;
}

fence_lem_example :
    (((fence 7 100 150 (some held)).1 ≡ true) ↔ (
      (d : LockDoc) × (some held ≡ some d)
      × (d.owner ≡ some 7)
      × (d.fencing_token ≡ 100)
      × (150 < d.expires_at)))
    × ((fence 7 100 150 (some held)).1 ≡ true
        → ((d : LockDoc)
            → some held ≡ some d
            → (fence 7 100 150 (some held)).0 ≡ some (record d { last_write_at = some 150 }))
          × (holds 7 100 150 (fence 7 100 150 (some held)).0 ≡ true)
          × ((release 7 150 (fence 7 100 150 (some held)).0).1 ≡ true))
    × ((fence 7 100 150 (some held)).1 ≡ false → (fence 7 100 150 (some held)).0 ≡ some held)
fence_lem_example = fence_lem 7 100 150 (some held)

abbrev pub lease : Lease
lease = record { owner = 7; fencing_token = 100; ttl_ms = 120; lost = false; released = false }

guard_write_lem_example :
    (((guard_write 300 (some held) lease).result ≡ true)
      ↔ ((false ≡ false) × (false ≡ false) × (holds 7 100 300 (some held) ≡ true)))
    × ((guard_write 300 (some held) lease).result ≡ false
        → ((guard_write 300 (some held) lease).store ≡ some held)
          × ((guard_write 150 (some held) (guard_write 300 (some held) lease).lease).result
              ≡ false))
guard_write_lem_example = guard_write_lem 300 150 (some held) (some held) lease

abbrev first_grant : LockDoc
first_grant = record {
  owner = some 7;
  fencing_token = 1;
  expires_at = 120;
  acquired_at = 0;
  heartbeat_at = 0;
  last_write_at = none;
}

abbrev second_grant : LockDoc
second_grant = record {
  owner = some 8;
  fencing_token = 130;
  expires_at = 250;
  acquired_at = 130;
  heartbeat_at = 130;
  last_write_at = none;
}

abbrev handed_over : World
handed_over = record { store = some second_grant; now = 130; tokens = 130 ∷ 1 ∷ [] }

hand_over : Reach fresh_lock handed_over
unfolding take_over create_lock
hand_over =
    next
      (next (next here (create fresh_lock 7 120))
        (tick (record { store = some first_grant; now = 0; tokens = 1 ∷ [] }) 130 (omega arith)))
      (take (record { store = some first_grant; now = 130; tokens = 1 ∷ [] }) 8 120)

fencing_tokens_rise_example :
    Ordered (λ later earlier. earlier < later) (130 ∷ 1 ∷ [])
    × ((top : ℕ) (rest : List ℕ)
        → 130 ∷ 1 ∷ [] ≡ top ∷ rest
        → (owner t at : ℕ) → Memᴰ t rest
        → holds owner t at (some second_grant) ≡ false)
fencing_tokens_rise_example = fencing_tokens_rise handed_over hand_over (omega arith)
