-- ===== src/Prelude/Sort.antt =====
-- JavaScript's stable `sort`, as an insertion sort by a Boolean comparison "may stand before".
use mathlib.Core.List.{Perm}
use mathlib.Core.List.Perm
use mathlib.Core.List.Memᴰ
use fpl_radar.Prelude.{
  ℕ, ◌+◌, ◌≡◌, refl, ap, ◌∙◌, ◌++◌, suc, length, arith, Bool, true, false, List, [], ◌∷◌,
  if◌then◌else◌, Bool-cases, any, keep, inl, inr, All, Memᴰ, All-mem, All-of_mem, All-imp, Ordered,
}

-- The sum of a number of each element.
abbrev pub sum_by {ℓ} : {A : Type ℓ} → (A → ℕ) → List A → ℕ
sum_by f [] = 0
sum_by f (x ∷ xs) = f x + sum_by f xs

module _ {ℓ} {A : Type ℓ} (le : A → A → Bool) where
  -- An equal element that came earlier stays in front.
  pub insert_by : A → List A → List A
  insert_by x [] = x ∷ []
  insert_by x (y ∷ ys) = let rest = insert_by x ys in if le x y then x ∷ y ∷ ys else y ∷ rest

  unfoldable pub sort_by : List A → List A
  unfolding insert_by
  sort_by [] = []
  sort_by (x ∷ xs) = insert_by x (sort_by xs)

  insert_by-perm : (x : A) (xs : List A) → Perm (insert_by x xs) (x ∷ xs)
  unfolding insert_by
  insert_by-perm x [] = Perm.rfl
  insert_by-perm x (y ∷ ys) = elim (Bool-cases (le x y)) [
    | inl e ↦ rw (e, insert_by) Perm.rfl
    | inr e ↦ rw (e, insert_by) (Perm.trans (Perm.cons y (insert_by-perm x ys)) (Perm.swap x y ys))
  ]

  -- Sorting rearranges.
  pub sort_by-perm : (xs : List A) → Perm (sort_by xs) xs
  unfolding sort_by
  sort_by-perm [] = Perm.rfl
  sort_by-perm (x ∷ xs) = Perm.trans (insert_by-perm x (sort_by xs)) (Perm.cons x (sort_by-perm xs))

  sum-insert_by : (f : A → ℕ) (x : A) (xs : List A) → sum_by f (insert_by x xs) ≡ f x + sum_by f xs
  unfolding insert_by
  sum-insert_by f x [] = refl
  sum-insert_by f x (y ∷ ys) = elim (Bool-cases (le x y)) [
    | inl e ↦ rw (e, insert_by) refl
    | inr e ↦ rw (e, insert_by) (omega (arith, sum-insert_by f x ys))
  ]

  -- Sorting does not change a sum.
  pub sum-sort_by : (f : A → ℕ) (xs : List A) → sum_by f (sort_by xs) ≡ sum_by f xs
  unfolding sort_by
  sum-sort_by f [] = refl
  sum-sort_by f (x ∷ xs) = sum-insert_by f x (sort_by xs) ∙ ap (λ n. f x + n) (sum-sort_by f xs)

  length-keep-insert_by :
      (p : A → Bool) (x : A) (xs : List A)
      → length (keep p (insert_by x xs)) ≡ length (keep p (x ∷ xs))
  unfolding insert_by
  length-keep-insert_by p x [] = refl
  length-keep-insert_by p x (y ∷ ys) = elim (Bool-cases (le x y)) [
    | inl e ↦ rw (e, insert_by) refl
    | inr e ↦ rw (e, insert_by) (ground (arith, length-keep-insert_by p x ys))
  ]

  -- Sorting does not change how many pass a test.
  pub length-keep-sort_by :
      (p : A → Bool) (xs : List A) → length (keep p (sort_by xs)) ≡ length (keep p xs)
  unfolding sort_by
  length-keep-sort_by p [] = refl
  length-keep-sort_by p (x ∷ xs) =
      length-keep-insert_by p x (sort_by xs) ∙ ground (arith, length-keep-sort_by p xs)

  mem-insert_by : {a : A} (x : A) (xs : List A) → Memᴰ a (x ∷ xs) → Memᴰ a (insert_by x xs)
  unfolding insert_by
  mem-insert_by x [] m = m
  mem-insert_by x (y ∷ ys) m = elim (Bool-cases (le x y)) [
    | inl e ↦ rw (e, insert_by) m
    | inr e ↦
        rw (e, insert_by)
          (elim (Memᴰ.cases_cons m) [
            | inl q ↦ Memᴰ.tail (mem-insert_by x ys (Memᴰ.head q))
            | inr m' ↦ elim (Memᴰ.cases_cons m') [
              | inl q ↦ Memᴰ.head q
              | inr k ↦ Memᴰ.tail (mem-insert_by x ys (Memᴰ.tail k))
            ]
          ])
  ]

  -- A member stays one.
  pub mem-sort_by : {a : A} (xs : List A) → Memᴰ a xs → Memᴰ a (sort_by xs)
  unfolding sort_by
  mem-sort_by [] m = absurd (Memᴰ.not-nil m)
  mem-sort_by (x ∷ xs) (Memᴰ.head q) = mem-insert_by x (sort_by xs) (Memᴰ.head q)
  mem-sort_by (x ∷ xs) (Memᴰ.tail m) = mem-insert_by x (sort_by xs) (Memᴰ.tail (mem-sort_by xs m))

  insert_by-All {κ} :
      (P : A → Type κ) (x : A) (xs : List A) → P x → All P xs → All P (insert_by x xs)
  unfolding insert_by
  insert_by-All P x [] h k = (h, k)
  insert_by-All P x (y ∷ ys) h k = elim (Bool-cases (le x y)) [
    | inl e ↦ rw (e, insert_by) (h, k)
    | inr e ↦ rw (e, insert_by) (k.0, insert_by-All P x ys h k.1)
  ]

  -- What holds of every element holds after sorting.
  pub sort_by-All {κ} : (P : A → Type κ) (xs : List A) → All P xs → All P (sort_by xs)
  unfolding sort_by
  sort_by-All P [] h = h
  sort_by-All P (x ∷ xs) h = insert_by-All P x (sort_by xs) h.0 (sort_by-All P xs h.1)

  pub sort_by-mem : {a : A} (xs : List A) → Memᴰ a (sort_by xs) → Memᴰ a xs
  sort_by-mem xs m =
      All-mem (λ b. Memᴰ b xs) (sort_by xs)
        (sort_by-All (λ b. Memᴰ b xs) xs (All-of_mem xs (λ b k. k))) m

  module _ (total : (a b : A) → le a b ≡ false → le b a ≡ true)
      (trans : (a b c : A) → le a b ≡ true → le b c ≡ true → le a c ≡ true) where
    insert_by-Ordered :
        (x : A) (xs : List A)
        → Ordered (λ a b. le a b ≡ true) xs
        → Ordered (λ a b. le a b ≡ true) (insert_by x xs)
    unfolding insert_by
    insert_by-Ordered x [] h = (tt, tt)
    insert_by-Ordered x (y ∷ ys) h = elim (Bool-cases (le x y)) [
      | inl e ↦ rw (e, insert_by) ((e, All-imp ys (λ z k. trans x y z e k) h.0), h)
      | inr e ↦
          rw (e, insert_by)
            (insert_by-All (λ b. le y b ≡ true) x ys (total x y e) h.0, insert_by-Ordered x ys h.1)
    ]

    -- Sorting puts every element where it may stand.
    pub sort_by-Ordered : (xs : List A) → Ordered (λ a b. le a b ≡ true) (sort_by xs)
    unfolding sort_by
    sort_by-Ordered [] = tt
    sort_by-Ordered (x ∷ xs) = insert_by-Ordered x (sort_by xs) (sort_by-Ordered xs)

  module _ {κ} (R : A → A → Type κ) (symm : (a b : A) → R a b → R b a) where
    insert_by-Ordered_sym :
        (x : A) (xs : List A) → All (R x) xs → Ordered R xs → Ordered R (insert_by x xs)
    unfolding insert_by
    insert_by-Ordered_sym x [] k h = (tt, tt)
    insert_by-Ordered_sym x (y ∷ ys) k h = elim (Bool-cases (le x y)) [
      | inl e ↦ rw (e, insert_by) (k, h)
      | inr e ↦
          rw (e, insert_by)
            (insert_by-All (R y) x ys (symm x y k.0) h.0, insert_by-Ordered_sym x ys k.1 h.1)
    ]

    -- A symmetric relation between all elements survives sorting.
    pub sort_by-Ordered_sym : (xs : List A) → Ordered R xs → Ordered R (sort_by xs)
    unfolding sort_by
    sort_by-Ordered_sym [] h = tt
    sort_by-Ordered_sym (x ∷ xs) h =
        insert_by-Ordered_sym x (sort_by xs) (sort_by-All (R x) xs h.0) (sort_by-Ordered_sym xs h.1)

module _ {ℓ} {A : Type ℓ} (le : A → A → Bool) where
  length-insert_by : (x : A) (xs : List A) → length (insert_by le x xs) ≡ suc (length xs)
  unfolding insert_by
  length-insert_by x [] = refl
  length-insert_by x (y ∷ ys) = ground (arith, length-insert_by x ys)

  pub length-sort_by : (xs : List A) → length (sort_by le xs) ≡ length xs
  unfolding sort_by
  length-sort_by [] = refl
  length-sort_by (x ∷ xs) = length-insert_by x (sort_by le xs) ∙ ap suc (length-sort_by xs)

module _ {ℓ} {A : Type ℓ} (le : A → A → Bool) where
  insert_by-append :
      (x a : A) (ys : List A)
      → le x a ≡ true
      → insert_by le x (ys ++ a ∷ []) ≡ insert_by le x ys ++ a ∷ []
  unfolding insert_by
  insert_by-append x a [] h = ap (λ b. if b then x ∷ a ∷ [] else a ∷ x ∷ []) h
  insert_by-append x a (y ∷ ys) h = elim (Bool-cases (le x y)) [
    | inl e ↦ rw (e, insert_by) refl
    | inr e ↦ rw (e, insert_by) (ap (λ l. y ∷ l) (insert_by-append x a ys h))
  ]

  -- An element that all others may stand before is sorted last.
  pub sort_by-append :
      (xs : List A) (a : A)
      → All (λ x. le x a ≡ true) xs
      → sort_by le (xs ++ a ∷ []) ≡ sort_by le xs ++ a ∷ []
  unfolding sort_by
  sort_by-append [] a h = refl
  sort_by-append (x ∷ xs) a h =
      ap (insert_by le x) (sort_by-append xs a h.1) ∙ insert_by-append x a (sort_by le xs) h.0

-- The test of the first element.
abbrev pub first_is {ℓ} : {A : Type ℓ} → (A → Bool) → List A → Bool
first_is p [] = false
first_is p (x ∷ xs) = p x

module _ {ℓ} {A : Type ℓ} (le : A → A → Bool) (p : A → Bool) where
  module _ (ahead : (a b : A) → p a ≡ true → p b ≡ false → (le a b ≡ true) × (le b a ≡ false)) where
    insert_by-first :
        (x : A) (xs : List A) → first_is p xs ≡ true → first_is p (insert_by le x xs) ≡ true
    unfolding insert_by
    insert_by-first x [] h = cc
    insert_by-first x (y ∷ ys) h = elim (Bool-cases (le x y)) [
      | inr e ↦ rw (e, insert_by) h
      | inl e ↦
          rw (e, insert_by)
            (elim (Bool-cases (p x)) [ inl q ↦ q | inr q ↦ let never = (ahead y x h q).1 in cc ])
    ]

    insert_by-first_new :
        (x : A) (xs : List A)
        → p x ≡ true
        → first_is p xs ≡ false
        → first_is p (insert_by le x xs) ≡ true
    unfolding insert_by
    insert_by-first_new x [] h k = h
    insert_by-first_new x (y ∷ ys) h k = rw ((ahead x y h k).0, insert_by) h

    -- If some may stand before all others, and none of the others before them, one of them comes
    -- first, whatever the order of the others is.
    pub sort_by-first : (xs : List A) → any p xs ≡ true → first_is p (sort_by le xs) ≡ true
    unfolding sort_by
    sort_by-first [] h = cc
    sort_by-first (x ∷ xs) h = elim (Bool-cases (first_is p (sort_by le xs))) [
      | inl e ↦ insert_by-first x (sort_by le xs) e
      | inr e ↦ elim (Bool-cases (p x)) [
        | inl q ↦ insert_by-first_new x (sort_by le xs) q e
        | inr q ↦
            let rest : any p xs ≡ true = rw q at h in
            insert_by-first x (sort_by le xs) (sort_by-first xs rest)
      ]
    ]
