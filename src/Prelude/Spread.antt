-- ===== src/Prelude/Spread.antt =====
-- The rows of a list taken key by key are the rows of the list.
use mathlib.Core.List.{Perm, perm_middle}
use mathlib.Core.List.Perm
use mathlib.Core.List.Memᴰ
use fpl_radar.Prelude.{
  ◌≡◌, refl, ap, Bool, true, not, List, [], ◌∷◌, ◌++◌, Bool-cases, inl, inr, Memᴰ, keep, mem-keep,
  All, arith, ◌≢◌,
}
use fpl_radar.Prelude.Int.{ℤ, eq_ℤ, eq_ℤ_refl, eq_ℤ_iff}
use fpl_radar.Prelude.Buckets.{Distinct}

module _ {A : Type 0} where
  keep-not-perm : (p : A → Bool) (xs : List A) → Perm (keep p xs ++ keep (λ x. not (p x)) xs) xs
  keep-not-perm p [] = Perm.rfl
  keep-not-perm p (x ∷ xs) = elim (Bool-cases (p x)) [
    | inl e ↦ rw e (Perm.cons x (keep-not-perm p xs))
    | inr e ↦ rw e (
        Perm.trans (perm_middle (keep p xs) (keep (λ y. not (p y)) xs))
          (Perm.cons x (keep-not-perm p xs)))
  ]

  keep-keep :
      (p q : A → Bool) (xs : List A)
      → ((x : A) → p x ≡ true → q x ≡ true)
      → keep p (keep q xs) ≡ keep p xs
  keep-keep p q [] h = refl
  keep-keep p q (x ∷ xs) h = elim (Bool-cases (q x)) [
    | inl e ↦ ground (arith, keep-keep p q xs h)
    | inr e ↦ ground (arith, keep-keep p q xs h, h x)
  ]

  -- `vs.flatMap((v) => rows.filter((r) => f(r) === v))`
  unfoldable pub spread : (A → ℤ) → List A → List ℤ → List A
  spread f rows [] = []
  spread f rows (v ∷ vs) = keep (λ r. eq_ℤ v (f r)) rows ++ spread f rows vs

  spread-keep :
      (f : A → ℤ) (rows : List A) (v : ℤ) (vs : List ℤ)
      → All (λ w. v ≢ w) vs
      → spread f (keep (λ r. not (eq_ℤ v (f r))) rows) vs ≡ spread f rows vs
  unfolding spread
  spread-keep f rows v [] h = refl
  spread-keep f rows v (w ∷ vs) h =
      rw
        (keep-keep (λ r. eq_ℤ w (f r)) (λ r. not (eq_ℤ v (f r))) rows
          (λ r e. ground (arith, eq_ℤ_iff w (f r), eq_ℤ_iff v (f r), h.0)))
        (ap (λ t. keep (λ r. eq_ℤ w (f r)) rows ++ t) (spread-keep f rows v vs h.1))

  -- With every key once, the rows come out as often as they stood.
  pub spread-perm :
      (f : A → ℤ) (rows : List A) (vs : List ℤ)
      → Distinct vs
      → ((r : A) → Memᴰ r rows → Memᴰ (f r) vs)
      → Perm (spread f rows vs) rows
  unfolding spread
  spread-perm f [] [] d h = Perm.rfl
  spread-perm f (r ∷ rows) [] d h = absurd (Memᴰ.not-nil (h r (Memᴰ.head refl)))
  spread-perm f rows (v ∷ vs) d h =
      let others = keep (λ r. not (eq_ℤ v (f r))) rows in
      let tail = spread-perm f others vs d.1 (λ r m.
        let k = mem-keep (λ r. not (eq_ℤ v (f r))) rows m in
        elim (Memᴰ.cases_cons (h r k.0)) [
          | inl e ↦ cc (k.1, eq_ℤ_refl v, ap (eq_ℤ v) e)
          | inr z ↦ z
        ]) in
      Perm.trans
        (Perm.append_left (keep (λ r. eq_ℤ v (f r)) rows)
          (rw (spread-keep f rows v vs d.0) at tail))
        (keep-not-perm (λ r. eq_ℤ v (f r)) rows)
