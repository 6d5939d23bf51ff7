-- ===== src/Normalize/Lookup.antt =====
-- A `Map` from the keys of a list, where equal keys are of equal elements.
use mathlib.Core.List.Memᴰ
use fpl_radar.Prelude.{
  ℕ, ◌≡◌, refl, sym, ap, ◌∙◌, inl, inr, some, List, [], ◌∷◌, map, Memᴰ, ◌==◌, ==_iff, Bool-cases,
  Option-cases,
}
use fpl_radar.Winner.Inputs.{map_get}

module _ {E V : Type 0} (key : E → ℕ) (f : E → V) where
  map_get-found :
      (k : ℕ) (es : List E) (v : V)
      → map_get k (map (λ e. (key e, f e)) es) ≡ some v
      → (y : E) × Memᴰ y es × (key y ≡ k) × (v ≡ f y)
  unfolding map_get
  map_get-found k [] v h = cc
  map_get-found k (e ∷ es) v h = elim (Option-cases (map_get k (map (λ e. (key e, f e)) es))) [
    | inr (w, q) ↦
        let (y, m, i, r) = map_get-found k es w q in let g = rw q at h in (y, Memᴰ.tail m, i, cc)
    | inl q ↦ elim (Bool-cases (key e == k)) [
      | inl t ↦ let g = rw (q, t) at h in (e, Memᴰ.head refl, (==_iff (key e) k).0 t, cc)
      | inr t ↦ absurd (cc (rw (q, t) at h))
    ]
  ]

  map_get-some :
      (es : List E) (x : E)
      → Memᴰ x es
      → (v : V) × (map_get (key x) (map (λ e. (key e, f e)) es) ≡ some v)
  unfolding map_get
  map_get-some [] x m = absurd (Memᴰ.not-nil m)
  map_get-some (e ∷ es) x (Memᴰ.tail m) = let (v, q) = map_get-some es x m in (v, rw q refl)
  map_get-some (e ∷ es) x (Memᴰ.head p) =
      elim (Option-cases (map_get (key x) (map (λ e. (key e, f e)) es))) [
        | inr (w, q) ↦ (w, rw q refl)
        | inl q ↦ (f e, rw q (rw ((==_iff (key e) (key x)).1 (ap key (sym p))) refl))
      ]

  pub map_get-member :
      (es : List E) (x : E)
      → ((x y : E) → Memᴰ x es → Memᴰ y es → key x ≡ key y → x ≡ y)
      → Memᴰ x es
      → map_get (key x) (map (λ e. (key e, f e)) es) ≡ some (f x)
  map_get-member es x u m =
      let (v, q) = map_get-some es x m in
      let (y, my, i, r) = map_get-found (key x) es v q in q ∙ ap some (r ∙ ap f (u y x my m i))
