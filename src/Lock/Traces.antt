-- ===== src/Lock/Traces.antt =====
-- Any number of runs use the lock in any order: the statements of the repository interleave, the
-- server's clock moves on, and the index `ttl_dead_leases` (server/src/db/migrations/002_indexes.js)
-- removes a document a day after it expired.
use fpl_radar.Prelude.{
  ℕ, suc, ◌+◌, ◌≤◌, ◌<◌, ◌≡◌, refl, sym, ap, subst, inl, inr, false, Option, none, some, List, [],
  ◌∷◌, arith, length, All, All-mem, All-imp, Ordered, Memᴰ, Bool-cases, ◌||◌, leb, ◌∙◌,
}
use native.Mathlib.Nat.{le_refl}
use fpl_radar.Lock.{
  LockDoc, grant, take_over, create_lock, holds, heartbeat, fence, release, is_free, owned_by,
}

-- `tokens` are those granted so far, the latest first.
pub record World : Type 0 where
  pub store : Option LockDoc
  pub now : ℕ
  pub tokens : List ℕ

abbrev day_ms : ℕ
day_ms = 86400000

abbrev granted : Option LockDoc × Option LockDoc → World → World
granted r w = elim r.1 [
  | none ↦ record w { store = r.0 }
  | some d ↦ record w { store = r.0; tokens = d.fencing_token ∷ w.tokens }
]

pub data Step : World → World → Type 0 where
  tick : (w : World) (now : ℕ) → w.now ≤ now → Step w (record w { now = now })
  take : (w : World) (owner ttl : ℕ) → Step w (granted (take_over owner ttl w.now w.store) w)
  create : (w : World) (owner ttl : ℕ) → Step w (granted (create_lock owner ttl w.now w.store) w)
  beat :
      (w : World) (owner token ttl : ℕ)
      → Step w (record w { store = (heartbeat owner token ttl w.now w.store).0 })
  guard :
      (w : World) (owner token : ℕ)
      → Step w (record w { store = (fence owner token w.now w.store).0 })
  let_go : (w : World) (owner : ℕ) → Step w (record w { store = (release owner w.now w.store).0 })
  remove_dead :
      (w : World) (d : LockDoc)
      → w.store ≡ some d
      → d.expires_at + day_ms ≤ w.now
      → Step w (record w { store = none })

pub data Reach (s : World) : World → Type 0 where
  here : Reach s s
  next : {t u : World} → Reach s t → Step t u → Reach s u

-- The document carries the latest token, which runs ahead of its grant's time by at most the number of
-- grants.
abbrev Tracks : Option LockDoc → ℕ → List ℕ → Type 0
Tracks none now tokens = All (λ t. t + day_ms ≤ now + length tokens) tokens
Tracks (some d) now tokens =
    (d.acquired_at ≤ d.expires_at)
    × (d.acquired_at ≤ now)
    × (d.fencing_token ≤ d.acquired_at + length tokens)
    × (rest : List ℕ) × (tokens ≡ d.fencing_token ∷ rest)

abbrev Falling : List ℕ → Type 0
Falling = Ordered (λ later earlier. earlier < later)

abbrev Inv : World → Type 0
Inv w = Falling w.tokens × Tracks w.store w.now w.tokens

Tracks-tick :
    (store : Option LockDoc) (now later : ℕ) (tokens : List ℕ)
    → now ≤ later
    → Tracks store now tokens
    → Tracks store later tokens
Tracks-tick none now later tokens h k = All-imp tokens (λ t e. omega arith) k
Tracks-tick (some d) now later tokens h k = (k.0, omega arith, k.2, k.3, k.4)

Tracks-replace :
    (d e : LockDoc) (now : ℕ) (tokens : List ℕ)
    → e.fencing_token ≡ d.fencing_token
    → e.acquired_at ≡ d.acquired_at
    → d.acquired_at ≤ e.expires_at
    → Tracks (some d) now tokens
    → Tracks (some e) now tokens
Tracks-replace d e now tokens q a x (b, c, f, rest, s) =
    (omega arith, omega arith, omega arith, rest, s ∙ ap (λ t. t ∷ rest) (sym q))

-- A grant on a document whose token is the latest.
grant-Inv :
    (owner ttl now : ℕ) (old : Option LockDoc) (tokens : List ℕ)
    → All (λ t. t < (grant owner ttl now old).fencing_token) tokens
    → (grant owner ttl now old).fencing_token ≤ now + suc (length tokens)
    → Falling tokens
    → Falling ((grant owner ttl now old).fencing_token ∷ tokens)
      × Tracks
          (some (grant owner ttl now old))
          now
          ((grant owner ttl now old).fencing_token ∷ tokens)
unfolding grant
grant-Inv owner ttl now old tokens above near f =
    ((above, f), (omega arith, omega arith, near, tokens, refl))

below_head :
    (top : ℕ) (tokens rest : List ℕ)
    → tokens ≡ top ∷ rest
    → Falling tokens
    → All (λ t. t ≤ top) tokens
below_head top tokens rest e f =
    subst (λ l. All (λ t. t ≤ top) l) (sym e)
      (le_refl top, All-imp rest (λ t h. omega arith) (subst Falling e f).0)

take-Inv :
    (owner ttl now : ℕ) (store : Option LockDoc) (tokens : List ℕ)
    → Inv (record { store = store; now = now; tokens = tokens })
    → Inv (
        granted
          (take_over owner ttl now store)
          (record { store = store; now = now; tokens = tokens }))
unfolding take_over
take-Inv owner ttl now none tokens h = h
take-Inv owner ttl now (some d) tokens (f, t) =
    elim (Bool-cases (is_free d.owner || leb d.expires_at now)) [
      | inr e ↦ rw e (f, t)
      | inl e ↦
          let (b, c, k, rest, s) = t in
          rw e (
            grant-Inv owner ttl now (some d) tokens
              (All-imp tokens (λ x le. grant_above owner ttl now d x le)
                (below_head d.fencing_token tokens rest s f))
              (grant_near owner ttl now d (length tokens) b c k) f)
    ]
  where
    grant_above :
        (owner ttl now : ℕ) (d : LockDoc) (x : ℕ)
        → x ≤ d.fencing_token
        → x < (grant owner ttl now (some d)).fencing_token
    grant_above owner ttl now d x le = unfold grant in ground arith

    grant_near :
        (owner ttl now : ℕ) (d : LockDoc) (n : ℕ)
        → d.acquired_at ≤ d.expires_at
        → d.acquired_at ≤ now
        → d.fencing_token ≤ d.acquired_at + n
        → (grant owner ttl now (some d)).fencing_token ≤ now + suc n
    grant_near owner ttl now d n b c k = unfold grant in ground arith

create-Inv :
    (owner ttl now : ℕ) (store : Option LockDoc) (tokens : List ℕ)
    → length tokens < day_ms
    → Inv (record { store = store; now = now; tokens = tokens })
    → Inv (
        granted
          (create_lock owner ttl now store)
          (record { store = store; now = now; tokens = tokens }))
unfolding create_lock
create-Inv owner ttl now (some d) tokens few h = h
create-Inv owner ttl now none tokens few (f, t) =
    grant-Inv owner ttl now none tokens (All-imp tokens (λ x le. fresh x le) t) near f
  where
    fresh :
        (x : ℕ) → x + day_ms ≤ now + length tokens → x < (grant owner ttl now none).fencing_token
    fresh x le = unfold grant in ground arith

    near : (grant owner ttl now none).fencing_token ≤ now + suc (length tokens)
    near = unfold grant in ground arith

heartbeat-Tracks :
    (owner token ttl now : ℕ) (store : Option LockDoc) (tokens : List ℕ)
    → Tracks store now tokens
    → Tracks (heartbeat owner token ttl now store).0 now tokens
unfolding heartbeat
heartbeat-Tracks owner token ttl now none tokens t = t
heartbeat-Tracks owner token ttl now (some d) tokens t =
    elim (Bool-cases (holds owner token now (some d))) [
      | inl e ↦ rw e (
          Tracks-replace d (record d { expires_at = now + ttl; heartbeat_at = now }) now tokens refl
            refl (omega (arith, t.1)) t)
      | inr e ↦ rw e t
    ]

fence-Tracks :
    (owner token now : ℕ) (store : Option LockDoc) (tokens : List ℕ)
    → Tracks store now tokens
    → Tracks (fence owner token now store).0 now tokens
unfolding fence
fence-Tracks owner token now none tokens t = t
fence-Tracks owner token now (some d) tokens t =
    elim (Bool-cases (holds owner token now (some d))) [ inl e ↦ rw e t | inr e ↦ rw e t ]

release-Tracks :
    (owner now : ℕ) (store : Option LockDoc) (tokens : List ℕ)
    → Tracks store now tokens
    → Tracks (release owner now store).0 now tokens
unfolding release
release-Tracks owner now none tokens t = t
release-Tracks owner now (some d) tokens t = elim (Bool-cases (owned_by owner d.owner)) [
  | inl e ↦
      rw e
        (Tracks-replace d (record d { owner = none; expires_at = now }) now tokens refl refl t.1 t)
  | inr e ↦ rw e t
]

dead-Tracks :
    (d : LockDoc) (now : ℕ) (tokens : List ℕ)
    → d.expires_at + day_ms ≤ now
    → Falling tokens
    → Tracks (some d) now tokens
    → Tracks none now tokens
dead-Tracks d now tokens x f (b, c, k, rest, s) =
    All-imp tokens (λ t le. omega arith) (below_head d.fencing_token tokens rest s f)

Step-Inv : {v w : World} → length v.tokens < day_ms → Step v w → Inv v → Inv w
Step-Inv few (tick w now h) (f, t) = (f, Tracks-tick w.store w.now now w.tokens h t)
Step-Inv few (take w owner ttl) i = take-Inv owner ttl w.now w.store w.tokens i
Step-Inv few (create w owner ttl) i = create-Inv owner ttl w.now w.store w.tokens few i
Step-Inv few (beat w owner token ttl) (f, t) =
    (f, heartbeat-Tracks owner token ttl w.now w.store w.tokens t)
Step-Inv few (guard w owner token) (f, t) = (f, fence-Tracks owner token w.now w.store w.tokens t)
Step-Inv few (let_go w owner) (f, t) = (f, release-Tracks owner w.now w.store w.tokens t)
Step-Inv few (remove_dead w d e x) (f, t) =
    (f, dead-Tracks d w.now w.tokens x f (subst (λ s. Tracks s w.now w.tokens) e t))

length-granted :
    (r : Option LockDoc × Option LockDoc) (w : World)
    → length w.tokens ≤ length (granted r w).tokens
length-granted (s, none) w = omega arith
length-granted (s, some d) w = omega arith

length-Step : {v w : World} → Step v w → length v.tokens ≤ length w.tokens
length-Step (tick w now h) = omega arith
length-Step (take w owner ttl) = length-granted (take_over owner ttl w.now w.store) w
length-Step (create w owner ttl) = length-granted (create_lock owner ttl w.now w.store) w
length-Step (beat w owner token ttl) = omega arith
length-Step (guard w owner token) = omega arith
length-Step (let_go w owner) = omega arith
length-Step (remove_dead w d e x) = omega arith

abbrev pub fresh_lock : World
fresh_lock = record { store = none; now = 0; tokens = [] }

Reach-Inv : {w : World} → length w.tokens < day_ms → Reach fresh_lock w → Inv w
Reach-Inv few here = (tt, tt)
Reach-Inv few (next r s) =
    Step-Inv (omega (arith, length-Step s)) s (Reach-Inv (omega (arith, length-Step s)) r)

superseded :
    (store : Option LockDoc) (now : ℕ) (tokens rest : List ℕ) (owner top t at : ℕ)
    → Falling tokens
    → Tracks store now tokens
    → tokens ≡ top ∷ rest
    → Memᴰ t rest
    → holds owner t at store ≡ false
unfolding holds
superseded none now tokens rest owner top t at f k e m = refl
superseded (some d) now tokens rest owner top t at f (b, c, x, rest', s) e m =
    let lt : t < top = All-mem (λ u. u < top) rest (subst Falling e f).0 m in
    let same : d.fencing_token ≡ top = heads (sym s ∙ e) in ground arith
  where
    heads : {u v : ℕ} {us vs : List ℕ} → u ∷ us ≡ v ∷ vs → u ≡ v
    heads q = cc

-- As long as fewer than a day's milliseconds of grants were made, every token granted is above all
-- those before it, also across the removal of a dead document; and once another grant was made, no
-- owner's heartbeat or fence with an earlier token matches the document, at any time.
pub fencing_tokens_rise :
    (w : World)
    → Reach fresh_lock w
    → length w.tokens < day_ms
    → Ordered (λ later earlier. earlier < later) w.tokens
      × ((top : ℕ) (rest : List ℕ)
          → w.tokens ≡ top ∷ rest
          → (owner t at : ℕ) → Memᴰ t rest
          → holds owner t at w.store ≡ false)
fencing_tokens_rise w r few =
    let (f, t) = Reach-Inv few r in
    (f, λ top rest e owner u at m. superseded w.store w.now w.tokens rest owner top u at f t e m)
