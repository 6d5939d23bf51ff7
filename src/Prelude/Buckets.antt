-- ===== src/Prelude/Buckets.antt =====
-- Grouping with a `Map` from a number to an array, keys in order of first occurrence.
use mathlib.Core.List.{append-nil, append_assoc}
use mathlib.Core.List.Memᴰ
use fpl_radar.Prelude.{
  ◌≡◌, refl, sym, ap, ◌∙◌, List, [], ◌∷◌, ◌++◌, if◌then◌else◌, Bool-cases, inl, inr, ◌⊎◌, Memᴰ,
  keep, All-mem, All-of_mem, Ordered, arith, ◌≢◌, ◌↔◌,
}
use fpl_radar.Prelude.Int.{ℤ, eq_ℤ, eq_ℤ→eq, eq_ℤ_refl, eq_ℤ_iff}

abbrev pub Buckets : Type 0 → Type 0
Buckets A = List (ℤ × List A)

-- No key stands twice.
abbrev pub Distinct : List ℤ → Type 0
Distinct = Ordered (λ v w. v ≢ w)

module _ {A : Type 0} where
  -- `m.get(v)`, with no rows where the key is missing.
  unfoldable pub bucket : ℤ → Buckets A → List A
  bucket v [] = []
  bucket v ((w, rs) ∷ m) = if eq_ℤ v w then rs else bucket v m

  -- `if (!m.has(v)) m.set(v, []); m.get(v).push(row)`
  unfoldable pub push : ℤ → A → Buckets A → Buckets A
  push v r [] = (v, r ∷ []) ∷ []
  push v r ((w, rs) ∷ m) =
      let rest = push v r m in if eq_ℤ v w then (w, rs ++ r ∷ []) ∷ m else (w, rs) ∷ rest

  push_all : (A → ℤ) → Buckets A → List A → Buckets A
  push_all f m [] = m
  push_all f m (r ∷ rs) = push_all f (push (f r) r m) rs

  unfoldable pub buckets : (A → ℤ) → List A → Buckets A
  unfolding push_all push
  buckets f rs = push_all f [] rs

  -- `[...m.keys()]`
  unfoldable pub bucket_keys : Buckets A → List ℤ
  bucket_keys [] = []
  bucket_keys ((v, rs) ∷ m) = v ∷ bucket_keys m

  bucket-push :
      (w v : ℤ) (r : A) (m : Buckets A)
      → bucket w (push v r m) ≡ (if eq_ℤ w v then bucket w m ++ r ∷ [] else bucket w m)
  unfolding bucket push
  bucket-push w v r [] = refl
  bucket-push w v r ((u, rs) ∷ m) =
      ground (arith, eq_ℤ_iff v u, eq_ℤ_iff w u, eq_ℤ_iff w v, bucket-push w v r m)

  bucket-push_all :
      (f : A → ℤ) (w : ℤ) (m : Buckets A) (rs : List A)
      → bucket w (push_all f m rs) ≡ bucket w m ++ keep (λ r. eq_ℤ w (f r)) rs
  unfolding push_all
  bucket-push_all f w m [] = sym (append-nil (bucket w m))
  bucket-push_all f w m (r ∷ rs) = elim (Bool-cases (eq_ℤ w (f r))) [
    | inl e ↦
        bucket-push_all f w (push (f r) r m) rs
        ∙ rw (bucket-push, e) (append_assoc (bucket w m) (r ∷ []) (keep (λ x. eq_ℤ w (f x)) rs))
    | inr e ↦ bucket-push_all f w (push (f r) r m) rs ∙ rw (bucket-push, e) refl
  ]

  -- A bucket holds the rows with its key, in their order.
  pub bucket-buckets :
      (f : A → ℤ) (w : ℤ) (rs : List A) → bucket w (buckets f rs) ≡ keep (λ r. eq_ℤ w (f r)) rs
  unfolding buckets bucket
  bucket-buckets f w rs = bucket-push_all f w [] rs

  bucket_keys-push :
      (v : ℤ) (r : A) (m : Buckets A) (w : ℤ)
      → Memᴰ w (bucket_keys (push v r m)) ↔ ((w ≡ v) ⊎ Memᴰ w (bucket_keys m))
  unfolding bucket_keys push
  bucket_keys-push v r [] w =
      (Memᴰ.cases_cons, λ s. elim s [ inl e ↦ Memᴰ.head e | inr m ↦ Memᴰ.tail m ])
  bucket_keys-push v r ((u, rs) ∷ m) w = elim (Bool-cases (eq_ℤ v u)) [
    | inl e ↦ rw (e, push) (inr, λ s. elim s [ inl q ↦ Memᴰ.head (q ∙ eq_ℤ→eq v u e) | inr k ↦ k ])
    | inr e ↦
        rw (e, push)
          (
            λ k. elim (Memᴰ.cases_cons k) [
              | inl q ↦ inr (Memᴰ.head q)
              | inr k' ↦ elim ((bucket_keys-push v r m w).0 k') [
                | inl q ↦ inl q
                | inr z ↦ inr (Memᴰ.tail z)
              ]
            ],
            λ s. elim s [
              | inl q ↦ Memᴰ.tail ((bucket_keys-push v r m w).1 (inl q))
              | inr k ↦ elim (Memᴰ.cases_cons k) [
                | inl q ↦ Memᴰ.head q
                | inr z ↦ Memᴰ.tail ((bucket_keys-push v r m w).1 (inr z))
              ]
            ],
          )
  ]

  bucket_keys-push_all :
      (f : A → ℤ) (m : Buckets A) {r : A} (rs : List A)
      → Memᴰ r rs ⊎ Memᴰ (f r) (bucket_keys m)
      → Memᴰ (f r) (bucket_keys (push_all f m rs))
  unfolding push_all
  bucket_keys-push_all f m [] (inl k) = absurd (Memᴰ.not-nil k)
  bucket_keys-push_all f m [] (inr k) = k
  bucket_keys-push_all f m (x ∷ rs) (inl (Memᴰ.head q)) =
      bucket_keys-push_all f (push (f x) x m) rs
        (inr ((bucket_keys-push (f x) x m _).1 (inl (ap f q))))
  bucket_keys-push_all f m (x ∷ rs) (inl (Memᴰ.tail k)) =
      bucket_keys-push_all f (push (f x) x m) rs (inl k)
  bucket_keys-push_all f m (x ∷ rs) (inr k) =
      bucket_keys-push_all f (push (f x) x m) rs (inr ((bucket_keys-push (f x) x m _).1 (inr k)))

  -- Every row's value is a key.
  pub mem-bucket_keys :
      (f : A → ℤ) {r : A} (rs : List A) → Memᴰ r rs → Memᴰ (f r) (bucket_keys (buckets f rs))
  unfolding buckets
  mem-bucket_keys f rs k = bucket_keys-push_all f [] rs (inl k)

  bucket_keys-push-Distinct :
      (v : ℤ) (r : A) (m : Buckets A)
      → Distinct (bucket_keys m)
      → Distinct (bucket_keys (push v r m))
  unfolding bucket_keys push
  bucket_keys-push-Distinct v r [] h = (tt, tt)
  bucket_keys-push-Distinct v r ((u, rs) ∷ m) h = elim (Bool-cases (eq_ℤ v u)) [
    | inl e ↦ rw (e, push) h
    | inr e ↦
        rw (e, push)
          (
            All-of_mem (bucket_keys (push v r m)) (λ w k. elim ((bucket_keys-push v r m w).0 k) [
              | inl q ↦ λ p. cc (ap (eq_ℤ v) (p ∙ q), e, eq_ℤ_refl v)
              | inr z ↦ All-mem (λ x. u ≢ x) (bucket_keys m) h.0 z
            ]),
            bucket_keys-push-Distinct v r m h.1,
          )
  ]

  bucket_keys-push_all-Distinct :
      (f : A → ℤ) (m : Buckets A) (rs : List A)
      → Distinct (bucket_keys m)
      → Distinct (bucket_keys (push_all f m rs))
  unfolding push_all
  bucket_keys-push_all-Distinct f m [] h = h
  bucket_keys-push_all-Distinct f m (r ∷ rs) h =
      bucket_keys-push_all-Distinct f (push (f r) r m) rs (bucket_keys-push-Distinct (f r) r m h)

  pub bucket_keys-Distinct : (f : A → ℤ) (rs : List A) → Distinct (bucket_keys (buckets f rs))
  unfolding buckets bucket_keys
  bucket_keys-Distinct f rs = bucket_keys-push_all-Distinct f [] rs tt

  push_all-mem :
      (f : A → ℤ) (m : Buckets A) {v : ℤ} (rs : List A)
      → Memᴰ v (bucket_keys (push_all f m rs))
      → ((r : A) × Memᴰ r rs × (f r ≡ v)) ⊎ Memᴰ v (bucket_keys m)
  unfolding push_all
  push_all-mem f m [] k = inr k
  push_all-mem f m {v} (x ∷ rs) k = elim (push_all-mem f (push (f x) x m) rs k) [
    | inl (r, mr, q) ↦ inl (r, Memᴰ.tail mr, q)
    | inr k' ↦ elim ((bucket_keys-push (f x) x m v).0 k') [
      | inl q ↦ inl (x, Memᴰ.head refl, sym q)
      | inr z ↦ inr z
    ]
  ]

  -- Every key is the value of a row.
  pub bucket_keys-mem :
      (f : A → ℤ) {v : ℤ} (rs : List A)
      → Memᴰ v (bucket_keys (buckets f rs))
      → (r : A) × Memᴰ r rs × (f r ≡ v)
  unfolding buckets bucket_keys
  bucket_keys-mem f rs k = elim (push_all-mem f [] rs k) [
    | inl found ↦ found
    | inr z ↦ absurd (Memᴰ.not-nil z)
  ]
