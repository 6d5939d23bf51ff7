-- ===== src/Normalize/Members.antt =====
-- The members of a league after its standings were read (server/src/sync/normalize.js,
-- `mergeLeagueMembers`), and what that never loses.
use mathlib.Core.List.Memᴰ
use fpl_radar.Prelude.{
  ℕ, ◌≡◌, refl, sym, ap, ◌∙◌, inl, inr, Bool, true, false, ◌&&◌, ◌||◌, not, Option, none, some,
  List, [], ◌∷◌, ◌++◌, map, Memᴰ, if◌then◌else◌, ◌==◌, ==_iff, any, any_none, arith, Bool-cases,
}

pub record LeagueMember : Type 0 where
  pub entry_id : ℕ
  pub is_excluded : Bool
  pub joined_event : Option ℕ
  pub left_league : Bool
  pub added_manually : Bool

-- `inLeague.has`, `known.has`
abbrev pub has_id : List ℕ → ℕ → Bool
has_id ids id = any (λ x. x == id) ids

abbrev pub mark : List ℕ → LeagueMember → LeagueMember
mark standings m =
    if has_id standings m.entry_id
    then record m { left_league = false }
    else if m.added_manually
    then m
    else record m { left_league = true }

abbrev pub new_member : ℕ → LeagueMember
new_member id = record {
  entry_id = id;
  is_excluded = false;
  joined_event = none;
  left_league = false;
  added_manually = false;
}

-- The loop that appends; `known` grows.
unfoldable newcomers : List ℕ → List ℕ → List LeagueMember
newcomers known [] = []
newcomers known (id ∷ ids) =
    let skipped = newcomers known ids in
    let taken = newcomers (id ∷ known) ids in
    if has_id known id then skipped else new_member id ∷ taken

abbrev pub ids_of : List LeagueMember → List ℕ
ids_of ms = map (λ m. m.entry_id) ms

unfoldable pub merge_league_members : List LeagueMember → List ℕ → List LeagueMember
unfolding newcomers
merge_league_members existing standings =
    map (mark standings) existing ++ newcomers (ids_of existing) standings

abbrev same_bool : Bool → Bool → Bool
same_bool true b = b
same_bool false b = not b

abbrev same_event : Option ℕ → Option ℕ → Bool
same_event none none = true
same_event (some a) (some b) = a == b
same_event _ _ = false

-- `memberKey`, compared.
abbrev same_member : LeagueMember → LeagueMember → Bool
same_member a b =
    a.entry_id == b.entry_id
    && same_bool a.is_excluded b.is_excluded
    && same_event a.joined_event b.joined_event
    && same_bool a.left_league b.left_league
    && same_bool a.added_manually b.added_manually

unfoldable same_members : List LeagueMember → List LeagueMember → Bool
same_members [] [] = true
same_members (a ∷ rest) (b ∷ others) = same_member a b && same_members rest others
same_members _ _ = false

-- The settings of a member that the administrator made.
pub record Settings : Type 0 where
  pub entry_id : ℕ
  pub is_excluded : Bool
  pub joined_event : Option ℕ
  pub added_manually : Bool

abbrev pub settings_of : LeagueMember → Settings
settings_of m = record {
  entry_id = m.entry_id;
  is_excluded = m.is_excluded;
  joined_event = m.joined_event;
  added_manually = m.added_manually;
}

mark-settings :
    (standings : List ℕ) (m : LeagueMember) → settings_of (mark standings m) ≡ settings_of m
mark-settings standings m = elim (Bool-cases (has_id standings m.entry_id)) [
  | inl e ↦ rw e refl
  | inr e ↦ elim (Bool-cases m.added_manually) [ inl a ↦ rw (e, a) refl | inr a ↦ rw (e, a) refl ]
]

mark-twice :
    (standings : List ℕ) (m : LeagueMember) → mark standings (mark standings m) ≡ mark standings m
mark-twice standings m = elim (Bool-cases (has_id standings m.entry_id)) [
  | inl e ↦ rw e (rw e refl)
  | inr e ↦ elim (Bool-cases m.added_manually) [
    | inl a ↦ rw (e, a) (rw e refl)
    | inr a ↦ rw (e, a) (rw e refl)
  ]
]

has_id-mem : (x : ℕ) (ids : List ℕ) → Memᴰ x ids → has_id ids x ≡ true
has_id-mem x ids m = elim (Bool-cases (has_id ids x)) [
  | inl e ↦ e
  | inr e ↦ let k = any_none (λ y. y == x) ids e m in absurd (cc (rw ((==_iff x x).1 refl) at k))
]

has_id-append :
    (xs ys : List LeagueMember) (x : ℕ)
    → has_id (ids_of (xs ++ ys)) x ≡ (has_id (ids_of xs) x || has_id (ids_of ys) x)
has_id-append [] ys x = refl
has_id-append (m ∷ xs) ys x = elim (Bool-cases (m.entry_id == x)) [
  | inl e ↦ rw e refl
  | inr e ↦ rw e (has_id-append xs ys x)
]

ids_of-mark :
    (standings : List ℕ) (ms : List LeagueMember) → ids_of (map (mark standings) ms) ≡ ids_of ms
ids_of-mark standings [] = refl
ids_of-mark standings (m ∷ ms) =
    let a = ap (λ s. s.entry_id) (mark-settings standings m) in
    let b = ids_of-mark standings ms in cc

newcomers_none :
    (known ids : List ℕ) → ((x : ℕ) → Memᴰ x ids → has_id known x ≡ true) → newcomers known ids ≡ []
unfolding newcomers
newcomers_none known [] h = refl
newcomers_none known (id ∷ ids) h =
    rw (h id (Memᴰ.head refl)) (newcomers_none known ids (λ x m. h x (Memᴰ.tail m)))

-- Everybody of the standings is known before or comes new.
newcomers_cover :
    (known ids : List ℕ) (x : ℕ)
    → Memᴰ x ids
    → (has_id known x || has_id (ids_of (newcomers known ids)) x) ≡ true
unfolding newcomers
newcomers_cover known [] x m = absurd (Memᴰ.not-nil m)
newcomers_cover known (id ∷ ids) x (Memᴰ.head q) = elim (Bool-cases (has_id known id)) [
  | inl e ↦ let k : has_id known x ≡ true = ap (has_id known) q ∙ e in rw k refl
  | inr e ↦ rw e (let t = (==_iff id x).1 (sym q) in ground arith)
]
newcomers_cover known (id ∷ ids) x (Memᴰ.tail m) = elim (Bool-cases (has_id known id)) [
  | inl e ↦ rw e (newcomers_cover known ids x m)
  | inr e ↦ rw e (let k = newcomers_cover (id ∷ known) ids x m in ground arith)
]

mark-newcomers :
    (standings known ids : List ℕ)
    → ((x : ℕ) → Memᴰ x ids → has_id standings x ≡ true)
    → map (mark standings) (newcomers known ids) ≡ newcomers known ids
unfolding newcomers
mark-newcomers standings known [] h = refl
mark-newcomers standings known (id ∷ ids) h = elim (Bool-cases (has_id known id)) [
  | inl e ↦ rw e (mark-newcomers standings known ids (λ x m. h x (Memᴰ.tail m)))
  | inr e ↦
      rw (e, h id (Memᴰ.head refl))
        (ap (λ r. new_member id ∷ r)
          (mark-newcomers standings (id ∷ known) ids (λ x m. h x (Memᴰ.tail m))))
]

map-mark_twice :
    (standings : List ℕ) (ms : List LeagueMember)
    → map (mark standings) (map (mark standings) ms) ≡ map (mark standings) ms
map-mark_twice standings [] = refl
map-mark_twice standings (m ∷ ms) =
    let a = mark-twice standings m in let b = map-mark_twice standings ms in cc

map-settings :
    (standings : List ℕ) (ms : List LeagueMember)
    → map settings_of (map (mark standings) ms) ≡ map settings_of ms
map-settings standings [] = refl
map-settings standings (m ∷ ms) =
    let a = mark-settings standings m in let b = map-settings standings ms in cc

map-append : {A B : Type 0} (f : A → B) (xs ys : List A) → map f (xs ++ ys) ≡ map f xs ++ map f ys
map-append f [] ys = refl
map-append f (x ∷ xs) ys = ap (λ r. f x ∷ r) (map-append f xs ys)

mark-merged :
    (existing : List LeagueMember) (standings : List ℕ)
    → map (mark standings) (merge_league_members existing standings)
      ≡ merge_league_members existing standings
unfolding merge_league_members
mark-merged existing standings =
    let new = newcomers (ids_of existing) standings in
    let a = map-append (mark standings) (map (mark standings) existing) new in
    let b = map-mark_twice standings existing in
    let c =
      mark-newcomers standings (ids_of existing) standings (λ x m. has_id-mem x standings m) in
    a ∙ (rw (b, c) refl)

merged_known :
    (existing : List LeagueMember) (standings : List ℕ) (x : ℕ)
    → Memᴰ x standings
    → has_id (ids_of (merge_league_members existing standings)) x ≡ true
unfolding merge_league_members
merged_known existing standings x m =
    has_id-append (map (mark standings) existing) (newcomers (ids_of existing) standings) x
    ∙ rw (ids_of-mark standings existing) (newcomers_cover (ids_of existing) standings x m)

append_nil : {A : Type 0} (xs : List A) → xs ++ [] ≡ xs
append_nil [] = refl
append_nil (x ∷ xs) = ap (λ r. x ∷ r) (append_nil xs)

merge-eq :
    (ms : List LeagueMember) (standings : List ℕ)
    → map (mark standings) ms ≡ ms
    → newcomers (ids_of ms) standings ≡ []
    → merge_league_members ms standings ≡ ms
unfolding merge_league_members
merge-eq ms standings a b =
    ap (λ xs. xs ++ newcomers (ids_of ms) standings) a ∙ ap (λ ys. ms ++ ys) b ∙ append_nil ms

settings_kept :
    (existing : List LeagueMember) (standings : List ℕ)
    → map settings_of (merge_league_members existing standings)
      ≡ map settings_of existing ++ map settings_of (newcomers (ids_of existing) standings)
unfolding merge_league_members
settings_kept existing standings =
    map-append settings_of (map (mark standings) existing) (newcomers (ids_of existing) standings)
    ∙ rw (map-settings standings existing) refl

-- Reading the standings once more changes nothing: the merge of a merged list is that list. The members
-- that were there stay, in their order and with the settings that the administrator made, and everybody
-- of the standings is a member.
pub merge_league_members_lem :
    (existing : List LeagueMember) (standings : List ℕ)
    → (merge_league_members (merge_league_members existing standings) standings
        ≡ merge_league_members existing standings)
      × ((rest : List Settings) × (map settings_of (merge_league_members existing standings)
            ≡ map settings_of existing ++ rest))
      × ((x : ℕ)
          → Memᴰ x standings
          → has_id (ids_of (merge_league_members existing standings)) x ≡ true)
merge_league_members_lem existing standings =
    let merged = merge_league_members existing standings in
    (
      merge-eq merged standings (mark-merged existing standings)
          (newcomers_none (ids_of merged) standings (merged_known existing standings)),
      (map settings_of (newcomers (ids_of existing) standings), settings_kept existing standings),
      merged_known existing standings,
    )
