-- ===== src/Ownership/Laws.antt =====
-- Who is counted in an ownership view, and what its shares are (server/src/analytics/ownership.js).
use mathlib.Core.List.Memᴰ
use fpl_radar.Prelude.{
  ℕ, ◌+◌, ◌≤◌, ◌≡◌, ◌↔◌, ◌∙◌, refl, sym, subst, true, false, ◌&&◌, not, Option, none, some, List,
  map, Memᴰ, leb, ◌==◌, keep, keep-mem, mem-keep, length, length-keep, arith,
}
use fpl_radar.Prelude.Sort.{sort_by-mem, mem-sort_by, length-sort_by, sum_by}
use fpl_radar.Winner.Inputs.{map_get, map_has}
use fpl_radar.EffectiveSquad.{EffectivePick, EffectiveSquad}
use fpl_radar.Ownership.{
  Totals, no_totals, Both, OwnershipInput, OwnershipRow, is_element, one_if, add_pick, scope_stats,
  with_picks, missing, rivals_of, me_counted, row_before, picked_elements, owns_squad, owns,
  ownership_row, compute_ownership,
}
use fpl_radar.Ownership.Scopes.{
  squad_share, share_of, scope_stats-sum, length-sum, others_of, IsZeroWithout, sum-with_picks,
  sum-rivals_of, mem-with_picks, with_picks-mem,
}
use fpl_radar.Ownership.Counts.{scope_stats-IsCounted, keep-keep_fewer, keep_split}

-- A share of the view, by what one squad adds: the counts are the sums over the eligible managers, and
-- over those of them who are not me.
pub record IsSumOf (i : OwnershipInput) (element rivals all : ℕ)
    (h : EffectiveSquad → EffectivePick → ℕ) (b : Both) : Type 0 where
  pub of_all : b.all.of ≡ all
  pub of_rivals : b.rivals.of ≡ rivals
  pub total : b.all.count ≡ sum_by (share_of h i.squads element) i.eligible
  pub total_rivals : b.rivals.count ≡ sum_by (share_of h i.squads element) (others_of i)

scopes-IsSumOf :
    (i : OwnershipInput) (element : ℕ) (g : Totals → ℕ) (h : EffectiveSquad → EffectivePick → ℕ)
    → g no_totals ≡ 0
    → ((s : EffectiveSquad) (p : EffectivePick) (t : Totals)
        → g (add_pick element s (some p) t) ≡ h s p + g t)
    → IsSumOf i element (length (rivals_of i)) (length (with_picks i)) h (record {
      rivals = record {
        count = g (scope_stats i.squads element (rivals_of i));
        of = length (rivals_of i);
      };
      all = record {
        count = g (scope_stats i.squads element (with_picks i));
        of = length (with_picks i);
      };
    })
scopes-IsSumOf i element g h z a = record {
  of_all = refl;
  of_rivals = refl;
  total =
      scope_stats-sum g h i.squads element z a (with_picks i)
      ∙ sum-with_picks (share_of h i.squads element) i nothing;
  total_rivals =
      scope_stats-sum g h i.squads element z a (rivals_of i)
      ∙ sum-rivals_of (share_of h i.squads element) i nothing;
}
  where
    nothing : IsZeroWithout (share_of h i.squads element) i
    nothing id = go (map_get id i.squads)
      where
        go :
            (o : Option EffectiveSquad)
            → (elim o [ some w ↦ true | none ↦ false ]) ≡ false
            → squad_share h element o ≡ 0
        go none e = refl
        go (some s) e = cc

owns-map_has :
    (squads : List (ℕ × EffectiveSquad)) (element id : ℕ)
    → owns squads element id ≡ true
    → map_has squads id ≡ true
owns-map_has squads element id = go (map_get id squads)
  where
    go :
        (o : Option EffectiveSquad)
        → owns_squad element o ≡ true
        → (elim o [ some w ↦ true | none ↦ false ]) ≡ true
    go none e = cc
    go (some s) e = refl

-- What is true of the shares of one player.
pub record IsShared (i : OwnershipInput) (row : OwnershipRow) (rivals all : ℕ) : Type 0 where
  pub squad : IsSumOf i row.element_id rivals all (λ s p. 1) row.picked_squad
  pub xi :
      IsSumOf i row.element_id rivals all (λ s p. one_if (leb p.squad_position 11)) row.picked_xi
  pub captain :
      IsSumOf i row.element_id rivals all
        (λ s p. one_if (is_element row.element_id s.picked_captain))
        row.picked_captain
  pub triple :
      IsSumOf i row.element_id rivals all
        (λ s p. one_if (is_element row.element_id s.picked_captain && s.cap_mult == 3))
        row.picked_triple
  pub wearer :
      IsSumOf i row.element_id rivals all
        (λ s p. one_if (is_element row.element_id s.effective_captain.element_id))
        row.effective_captain
  pub picked : IsSumOf i row.element_id rivals all (λ s p. p.picked_multiplier) row.picked_eo
  pub counted : IsSumOf i row.element_id rivals all (λ s p. p.effective_multiplier) row.effective_eo
  pub owned_by :
      (id : ℕ)
      → Memᴰ id row.owners ↔ (Memᴰ id i.eligible × (owns i.squads row.element_id id ≡ true))
  pub owners : length row.owners ≡ row.picked_squad.all.count
  pub within : row.picked_squad.all.count ≤ all
  pub fewer_rivals : row.picked_squad.rivals.count ≤ row.picked_squad.all.count
  pub within_rivals : row.picked_squad.rivals.count ≤ rivals
  pub fielded : row.picked_xi.all.count ≤ row.picked_squad.all.count
  pub captained : row.picked_captain.all.count ≤ row.picked_squad.all.count
  pub tripled : row.picked_triple.all.count ≤ row.picked_captain.all.count
  pub effective : row.effective_captain.all.count ≤ row.picked_squad.all.count

ownership_row-IsShared :
    (i : OwnershipInput) (element : ℕ)
    → IsShared i (ownership_row i element) (length (rivals_of i)) (length (with_picks i))
unfolding ownership_row rivals_of
ownership_row-IsShared i element =
    let a = scope_stats-IsCounted i.squads element (with_picks i) in
    let r = scope_stats-IsCounted i.squads element (rivals_of i) in
    let few =
      keep-keep_fewer (owns i.squads element) (λ id. not (is_element id (me_counted i)))
        (with_picks i) in
    let na = length-keep (owns i.squads element) (with_picks i) in
    let nr = length-keep (owns i.squads element) (rivals_of i) in
    record {
      squad = scopes-IsSumOf i element (λ t. t.squad) _ refl (λ s p t. omega arith);
      xi = scopes-IsSumOf i element (λ t. t.xi) _ refl (λ s p t. omega arith);
      captain = scopes-IsSumOf i element (λ t. t.captain) _ refl (λ s p t. omega arith);
      triple = scopes-IsSumOf i element (λ t. t.triple) _ refl (λ s p t. omega arith);
      wearer = scopes-IsSumOf i element (λ t. t.eff_captain) _ refl (λ s p t. omega arith);
      picked = scopes-IsSumOf i element (λ t. t.picked_sum) _ refl (λ s p t. omega arith);
      counted = scopes-IsSumOf i element (λ t. t.eff_sum) _ refl (λ s p t. omega arith);
      owned_by = λ id. (
        λ m.
            let (k, o) = mem-keep (owns i.squads element) (with_picks i) m in
            ((mem-with_picks i id k).0, o),
        λ (m, o).
            keep-mem (owns i.squads element)
              (with_picks-mem i id m (owns-map_has i.squads element id o)) o,
      );
      owners = sym a.squad;
      within = omega (arith, a.squad, na);
      fewer_rivals = omega (arith, a.squad, r.squad, few);
      within_rivals = omega (arith, r.squad, nr);
      fielded = a.xi;
      captained = a.captain;
      tripled = a.triple;
      effective = a.eff_captain;
    }

abbrev pub has_squad : OwnershipInput → ℕ → ℕ
has_squad i id = one_if (map_has i.squads id)

counted-sum :
    (i : OwnershipInput)
    → (length (with_picks i) ≡ sum_by (has_squad i) i.eligible)
      × (length (rivals_of i) ≡ sum_by (has_squad i) (others_of i))
unfolding rivals_of
counted-sum i = (
  length-sum (has_squad i) (with_picks i) (λ x m. rw (mem-with_picks i x m).1 refl)
      ∙ sum-with_picks (has_squad i) i (λ x e. rw e refl),
  length-sum (has_squad i) (rivals_of i) (λ x m.
        rw
          (mem-with_picks i x
            (mem-keep (λ id. not (is_element id (me_counted i))) (with_picks i) m).0).1
          refl)
      ∙ sum-rivals_of (has_squad i) i (λ x e. rw e refl),
)

missing_iff :
    (i : OwnershipInput) (id : ℕ)
    → Memᴰ id (missing i) ↔ (Memᴰ id i.eligible × (map_has i.squads id ≡ false))
unfolding missing
missing_iff i id =
    let lacks = λ (x : ℕ). not (map_has i.squads x) in
    (
      λ m.
          let (k, e) = mem-keep lacks i.eligible (sort_by-mem leb (keep lacks i.eligible) m) in
          (k, ground arith),
      λ (m, e). mem-sort_by leb (keep lacks i.eligible) (keep-mem lacks m (rw e refl)),
    )

split_counts : (i : OwnershipInput) → length (with_picks i) + length (missing i) ≡ length i.eligible
unfolding with_picks missing
split_counts i = omega (
  arith,
  keep_split (map_has i.squads) i.eligible,
  length-sort_by leb (keep (map_has i.squads) i.eligible),
  length-sort_by leb (keep (λ id. not (map_has i.squads id)) i.eligible),
)

-- The managers who are counted are the eligible ones with a squad, and the rivals those of them who are
-- not me; the others are reported as missing, and nobody else is. For each player of the view, every
-- share has these two denominators, and its counts are sums over the eligible managers and over those
-- who are not me: of his owners, of those who field him, captain him, play the triple captain on him
-- or end up with him as captain, and of his multipliers, picked and effective. The owners are listed: they
-- are as many as are counted. No more are counted as owners than are counted at all, and none of the other
-- numbers of managers is greater.
pub compute_ownership_lem :
    (i : OwnershipInput)
    → ((compute_ownership i).all ≡ sum_by (has_squad i) i.eligible)
      × ((compute_ownership i).rivals ≡ sum_by (has_squad i) (others_of i))
      × ((id : ℕ)
          → Memᴰ id (compute_ownership i).missing_entry_ids
            ↔ (Memᴰ id i.eligible × (map_has i.squads id ≡ false)))
      × ((compute_ownership i).all + length (compute_ownership i).missing_entry_ids
          ≡ length i.eligible)
      × ((row : OwnershipRow)
          → Memᴰ row (compute_ownership i).rows
          → IsShared i row (compute_ownership i).rivals (compute_ownership i).all)
unfolding compute_ownership
compute_ownership_lem i = (
  (counted-sum i).0,
  (counted-sum i).1,
  missing_iff i,
  split_counts i,
  λ row m.
      let (element, _, e) =
        Memᴰ.of_map (ownership_row i) (picked_elements i)
          (sort_by-mem row_before (map (ownership_row i) (picked_elements i)) m) in
      subst (λ x. IsShared i x (length (rivals_of i)) (length (with_picks i))) e
        (ownership_row-IsShared i element),
)
