-- ===== src/Lock/Laws.antt =====
-- One statement of the repository: who is granted, and what a fence proves.
use fpl_radar.Prelude.{
  ℕ, ◌+◌, ◌≤◌, ◌<◌, ◌≡◌, refl, ap, ◌↔◌, ◌⊎◌, true, false, Option, none, some, arith,
}
use fpl_radar.Lock.{LockDoc, grant, acquire, holds, fence, release, owned_by}

-- Nobody else holds the lease: there is no document, or it is released or expired.
abbrev pub IsFree : ℕ → Option LockDoc → Type 0
IsFree now none = Unit
IsFree now (some d) = (d.owner ≡ none) ⊎ (d.expires_at ≤ now)

pub acquire_lem :
    (owner ttl now : ℕ) (store : Option LockDoc)
    → (((d : LockDoc) × ((acquire owner ttl now store).1 ≡ some d)) ↔ IsFree now store)
      × ((d : LockDoc)
          → (acquire owner ttl now store).1 ≡ some d
          → ((acquire owner ttl now store).0 ≡ some d)
            × (d.owner ≡ some owner)
            × (d.expires_at ≡ now + ttl)
            × (now ≤ d.fencing_token)
            × ((old : LockDoc) → store ≡ some old → old.fencing_token < d.fencing_token))
      × ((acquire owner ttl now store).1 ≡ none → (acquire owner ttl now store).0 ≡ store)
unfolding acquire
acquire_lem owner ttl now none = (
  (λ h. tt, λ h. (grant owner ttl now none, refl)),
  λ d e. (ground arith, ground arith, ground arith, ground arith, λ old q. cc),
  λ e. cc,
)
acquire_lem owner ttl now (some s) = (
  (λ (d, e). ground arith, λ h. (grant owner ttl now (some s), ground arith)),
  λ d e. (ground arith, ground arith, ground arith, ground arith, λ old q. ground arith),
  λ e. ground arith,
)

-- A fence that succeeds proves that the document still has the caller's owner and token and has not
-- expired; it then changes the time of the last write and nothing else, and the holder can fence again and still
-- release.
pub fence_lem :
    (owner token now : ℕ) (store : Option LockDoc)
    → (((fence owner token now store).1 ≡ true) ↔ (
        (d : LockDoc) × (store ≡ some d)
        × (d.owner ≡ some owner)
        × (d.fencing_token ≡ token)
        × (now < d.expires_at)))
      × ((fence owner token now store).1 ≡ true
          → ((d : LockDoc)
              → store ≡ some d
              → (fence owner token now store).0 ≡ some (record d { last_write_at = some now }))
            × (holds owner token now (fence owner token now store).0 ≡ true)
            × ((release owner now (fence owner token now store).0).1 ≡ true))
      × ((fence owner token now store).1 ≡ false → (fence owner token now store).0 ≡ store)
unfolding fence release
fence_lem owner token now none = ((λ h. cc, λ (d, e, _, _, _). cc), λ h. cc, λ h. refl)
fence_lem owner token now (some s) = (
  (
    λ h. (s, refl, owner_eq s.owner (ground arith), ground arith, ground arith),
    λ (d, e, a, b, c). ground arith,
  ),
  λ h. (
    λ d e.
        let held : holds owner token now (some s) ≡ true = ground arith in
        rw held (ap {A = LockDoc} (λ x. some (record x { last_write_at = some now })) (some_eq e)),
    ground arith,
    ground arith,
  ),
  λ h. ground arith,
)
  where
    some_eq : {A : Type 0} {a b : A} → some a ≡ some b → a ≡ b
    some_eq e = cc

    owner_eq : (o : Option ℕ) → owned_by owner o ≡ true → o ≡ some owner
    owner_eq none h = cc
    owner_eq (some x) h = ground arith
