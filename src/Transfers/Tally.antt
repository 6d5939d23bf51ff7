-- ===== src/Transfers/Tally.antt =====
-- What the tallies of the transfers count, and the rankings made of them
-- (server/src/analytics/transfers.js).
use fpl_radar.Prelude.{
  ℕ, suc, ◌+◌, ◌≡◌, refl, ap, ◌∙◌, inl, inr, List, [], ◌∷◌, map, if◌then◌else◌, ◌==◌, ==_iff, keep,
  length, length-append, arith, Bool-cases,
}
use fpl_radar.Prelude.Sort.{sum_by, sum-sort_by}
use fpl_radar.Transfers.{Transfer, Moved, tally, tally_all, more_moved, moved_of, ranked}

-- How many moves of a player a tally has, and how many in all.
unfoldable pub moves_of : ℕ → List (ℕ × List ℕ) → ℕ
moves_of element [] = 0
moves_of element ((e, ids) ∷ m) = (if e == element then length ids else 0) + moves_of element m

unfoldable pub moves : List (ℕ × List ℕ) → ℕ
moves [] = 0
moves ((e, ids) ∷ m) = length ids + moves m

tally-moves :
    (element entry : ℕ) (m : List (ℕ × List ℕ)) → moves (tally element entry m) ≡ suc (moves m)
unfolding tally moves
tally-moves element entry [] = refl
tally-moves element entry ((e, ids) ∷ m) = elim (Bool-cases (e == element)) [
  | inl t ↦ rw t (omega (arith, length-append ids (entry ∷ [])))
  | inr t ↦ rw t (omega (arith, tally-moves element entry m))
]

pub tally_all-moves :
    (f : Transfer → ℕ) (entry : ℕ) (ts : List Transfer) (m : List (ℕ × List ℕ))
    → moves (tally_all f entry ts m) ≡ length ts + moves m
unfolding tally_all
tally_all-moves f entry [] m = omega arith
tally_all-moves f entry (t ∷ ts) m =
    tally_all-moves f entry ts (tally (f t) entry m)
    ∙ ap (λ n. length ts + n) (tally-moves (f t) entry m)
    ∙ omega arith

tally-moves_of :
    (x element entry : ℕ) (m : List (ℕ × List ℕ))
    → moves_of x (tally element entry m) ≡ (if element == x then 1 else 0) + moves_of x m
unfolding tally moves_of
tally-moves_of x element entry [] = refl
tally-moves_of x element entry ((e, ids) ∷ m) = elim (Bool-cases (e == element)) [
  | inr t ↦ rw t (omega (arith, tally-moves_of x element entry m))
  | inl t ↦
      let same : (e == x) ≡ (element == x) = ap (λ z. z == x) ((==_iff e element).0 t) in
      rw t (elim (Bool-cases (element == x)) [
        | inl k ↦ rw (same, k) (omega (arith, length-append ids (entry ∷ [])))
        | inr k ↦ rw (same, k) (omega arith)
      ])
]

-- The transfers of a list that a player has a side in.
abbrev pub with_player : (Transfer → ℕ) → ℕ → List Transfer → ℕ
with_player f element ts = length (keep (λ t. f t == element) ts)

pub tally_all-moves_of :
    (f : Transfer → ℕ) (x entry : ℕ) (ts : List Transfer) (m : List (ℕ × List ℕ))
    → moves_of x (tally_all f entry ts m) ≡ with_player f x ts + moves_of x m
unfolding tally_all
tally_all-moves_of f x entry [] m = omega arith
tally_all-moves_of f x entry (t ∷ ts) m =
    let rest = tally_all-moves_of f x entry ts (tally (f t) entry m) in
    let here = tally-moves_of x (f t) entry m in
    elim (Bool-cases (f t == x)) [
      | inl k ↦ let one = rw k at here in rw k (omega (arith, rest, one))
      | inr k ↦ let zero = rw k at here in rw k (omega (arith, rest, zero))
    ]

counted-moves : (m : List (ℕ × List ℕ)) → sum_by (λ x. x.count) (map moved_of m) ≡ moves m
unfolding moves
counted-moves [] = refl
counted-moves ((e, ids) ∷ m) = ap (λ n. length ids + n) (counted-moves m)

pub ranked-moves : (m : List (ℕ × List ℕ)) → sum_by (λ x. x.count) (ranked m) ≡ moves m
unfolding ranked
ranked-moves m = sum-sort_by more_moved (λ x. x.count) (map moved_of m) ∙ counted-moves m

-- What a ranking counts for a player.
abbrev pub counted_for : ℕ → List Moved → ℕ
counted_for element rows = sum_by (λ x. if x.element_id == element then x.count else 0) rows

counted-moves_of : (x : ℕ) (m : List (ℕ × List ℕ)) → counted_for x (map moved_of m) ≡ moves_of x m
unfolding moves_of
counted-moves_of x [] = refl
counted-moves_of x ((e, ids) ∷ m) =
    ap (λ n. (if e == x then length ids else 0) + n) (counted-moves_of x m)

pub ranked-moves_of : (x : ℕ) (m : List (ℕ × List ℕ)) → counted_for x (ranked m) ≡ moves_of x m
unfolding ranked
ranked-moves_of x m =
    sum-sort_by more_moved (λ y. if y.element_id == x then y.count else 0) (map moved_of m)
    ∙ counted-moves_of x m
