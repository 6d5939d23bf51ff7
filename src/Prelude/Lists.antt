-- ===== src/Prelude/Lists.antt =====
-- Lists as the source's arrays: length, membership, `filter`, `some`, `every` by Boolean tests.
use Prim.Native.Nat.{ℕ, suc, ◌+◌, ◌≤◌}
use mathlib.Core.Path.{◌≡◌, refl, sym, ap, subst, ◌∙◌}
use mathlib.Core.Logic.{inl, inr}
use mathlib.Core.Bool.{Bool, true, false, ◌&&◌, ◌||◌}
use mathlib.Core.List.{List, [], ◌∷◌, ◌++◌, map, Memᴰ}
use mathlib.Core.List.Memᴰ
use mathlib.Core.Option.{Option, none, some}
use native.Mathlib.Omega.{arith}
use fpl_radar.Prelude.Tests.{if◌then◌else◌, Bool-cases}

module _ {ℓ} {A : Type ℓ} where
  abbrev pub length : List A → ℕ
  length [] = 0
  length (x ∷ xs) = suc (length xs)

  -- `xs.filter(p)`
  abbrev pub keep : (A → Bool) → List A → List A
  keep p [] = []
  keep p (x ∷ xs) = let rest = keep p xs in if p x then x ∷ rest else rest

  -- `xs.every(p)` and `xs.some(p)`
  abbrev pub every : (A → Bool) → List A → Bool
  every p [] = true
  every p (x ∷ xs) = p x && every p xs

  abbrev pub any : (A → Bool) → List A → Bool
  any p [] = false
  any p (x ∷ xs) = p x || any p xs

  -- `xs.find(p)`
  abbrev pub find : (A → Bool) → List A → Option A
  find p [] = none
  find p (x ∷ xs) = let rest = find p xs in if p x then some x else rest

  abbrev pub All {κ} : (A → Type κ) → List A → Type κ
  All P [] = Unit
  All P (x ∷ xs) = P x × All P xs

  -- Every element is in the relation to all that follow it.
  abbrev pub Ordered {κ} : (A → A → Type κ) → List A → Type (ℓ ⊔ κ)
  Ordered R [] = Unit
  Ordered R (x ∷ xs) = All (R x) xs × Ordered R xs

module _ {ℓ} {A : Type ℓ} where
  pub length-append : (xs ys : List A) → length (xs ++ ys) ≡ length xs + length ys
  length-append [] ys = omega arith
  length-append (x ∷ xs) ys = omega (arith, length-append xs ys)

  pub length-map {κ} : {B : Type κ} (f : A → B) (xs : List A) → length (map f xs) ≡ length xs
  length-map f [] = refl
  length-map f (x ∷ xs) = ap suc (length-map f xs)

  pub length-keep : (p : A → Bool) (xs : List A) → length (keep p xs) ≤ length xs
  length-keep p [] = omega arith
  length-keep p (x ∷ xs) = ground (arith, length-keep p xs)

  mem-keep_at :
      (p : A → Bool) {a : A} (x : A) (xs : List A) (b : Bool)
      → p x ≡ b
      → (Memᴰ a (keep p xs) → Memᴰ a xs × (p a ≡ true))
      → Memᴰ a (if b then x ∷ keep p xs else keep p xs)
      → Memᴰ a (x ∷ xs) × (p a ≡ true)
  mem-keep_at p x xs true e ih (Memᴰ.head q) = (Memᴰ.head q, ap p q ∙ e)
  mem-keep_at p x xs true e ih (Memᴰ.tail m) = let h = ih m in (Memᴰ.tail h.0, h.1)
  mem-keep_at p x xs false e ih m = let h = ih m in (Memᴰ.tail h.0, h.1)

  -- What is kept was in the list and passed the test.
  pub mem-keep :
      (p : A → Bool) {a : A} (xs : List A) → Memᴰ a (keep p xs) → Memᴰ a xs × (p a ≡ true)
  mem-keep p [] m = absurd (Memᴰ.not-nil m)
  mem-keep p (x ∷ xs) m = mem-keep_at p x xs (p x) refl (mem-keep p xs) m

  -- What passes the test is kept.
  pub keep-mem : (p : A → Bool) {a : A} {xs : List A} → Memᴰ a xs → p a ≡ true → Memᴰ a (keep p xs)
  keep-mem p (Memᴰ.head q) h = rw (sym (ap p q) ∙ h) (Memᴰ.head q)
  keep-mem p (Memᴰ.tail {x = x} m) h = elim (Bool-cases (p x)) [
    | inl e ↦ rw e (Memᴰ.tail (keep-mem p m h))
    | inr e ↦ rw e (keep-mem p m h)
  ]

module _ {ℓ} {A : Type ℓ} where
  -- A property of every element holds of each member, and the other way round.
  pub All-mem {κ} : (P : A → Type κ) {a : A} (xs : List A) → All P xs → Memᴰ a xs → P a
  All-mem P [] h m = absurd (Memᴰ.not-nil m)
  All-mem P (x ∷ xs) h (Memᴰ.head q) = subst P (sym q) h.0
  All-mem P (x ∷ xs) h (Memᴰ.tail m) = All-mem P xs h.1 m

  pub All-of_mem {κ} : {P : A → Type κ} (xs : List A) → ((a : A) → Memᴰ a xs → P a) → All P xs
  All-of_mem [] h = tt
  All-of_mem (x ∷ xs) h = (h x (Memᴰ.head refl), All-of_mem xs (λ a m. h a (Memᴰ.tail m)))

  pub All-append {κ} : (P : A → Type κ) (xs ys : List A) → All P xs → All P ys → All P (xs ++ ys)
  All-append P [] ys h k = k
  All-append P (x ∷ xs) ys h k = (h.0, All-append P xs ys h.1 k)

  pub All-imp {κ μ} :
      {P : A → Type κ} {Q : A → Type μ} (xs : List A) → ((a : A) → P a → Q a) → All P xs → All Q xs
  All-imp [] f h = tt
  All-imp (x ∷ xs) f h = (f x h.0, All-imp xs f h.1)

  -- `every` and `any` decide what they say.
  pub every_mem : (p : A → Bool) {a : A} (xs : List A) → every p xs ≡ true → Memᴰ a xs → p a ≡ true
  every_mem p [] h m = absurd (Memᴰ.not-nil m)
  every_mem p (x ∷ xs) h (Memᴰ.head q) = ap p q ∙ ground arith
  every_mem p (x ∷ xs) h (Memᴰ.tail m) = every_mem p xs (ground arith) m

  pub every_of_mem :
      (p : A → Bool) (xs : List A) → ((a : A) → Memᴰ a xs → p a ≡ true) → every p xs ≡ true
  every_of_mem p [] h = refl
  every_of_mem p (x ∷ xs) h =
      rw (h x (Memᴰ.head refl)) (every_of_mem p xs (λ a m. h a (Memᴰ.tail m)))

  pub any_none : (p : A → Bool) {a : A} (xs : List A) → any p xs ≡ false → Memᴰ a xs → p a ≡ false
  any_none p [] h m = absurd (Memᴰ.not-nil m)
  any_none p (x ∷ xs) h (Memᴰ.head q) = ap p q ∙ ground arith
  any_none p (x ∷ xs) h (Memᴰ.tail m) = any_none p xs (ground arith) m

  pub none_any :
      (p : A → Bool) (xs : List A) → ((a : A) → Memᴰ a xs → p a ≡ false) → any p xs ≡ false
  none_any p [] h = refl
  none_any p (x ∷ xs) h = rw (h x (Memᴰ.head refl)) (none_any p xs (λ a m. h a (Memᴰ.tail m)))

  pub Ordered-append {κ} :
      (R : A → A → Type κ) (xs ys : List A)
      → Ordered R xs
      → Ordered R ys
      → All (λ x. All (R x) ys) xs
      → Ordered R (xs ++ ys)
  Ordered-append R [] ys h k c = k
  Ordered-append R (x ∷ xs) ys h k c =
      (All-append (R x) xs ys h.0 c.0, Ordered-append R xs ys h.1 k c.1)

  -- Two tests that agree on the members keep the same list.
  pub keep_congr :
      (p q : A → Bool) (xs : List A) → ((a : A) → Memᴰ a xs → p a ≡ q a) → keep p xs ≡ keep q xs
  keep_congr p q [] h = refl
  keep_congr p q (x ∷ xs) h =
      let rest = keep_congr p q xs (λ a m. h a (Memᴰ.tail m)) in
      ground (arith, h x (Memᴰ.head refl), rest)

pub bool_eq_of_iff : (b c : Bool) → (b ≡ true → c ≡ true) → (c ≡ true → b ≡ true) → b ≡ c
bool_eq_of_iff true c f g = sym (f refl)
bool_eq_of_iff false true f g = g refl
bool_eq_of_iff false false f g = refl
