-- ===== src/Decision/Override.antt =====
-- What an override decides on (server/src/services/resultService.js).
use Prim.Native.Nat.{Ordering}
use Prim.Native.String.{String}
use mathlib.Core.List.Memᴰ
use fpl_radar.Prelude.{
  ℕ, ◌≡◌, ◌≢◌, ◌⊎◌, ◌↔◌, refl, sym, ap, subst, ◌∙◌, inl, inr, Bool, true, false, ◌&&◌, not, Option,
  none, some, List, [], ◌∷◌, map, Memᴰ, keep, keep-mem, mem-keep, arith, Bool-cases, ◌==◌, ==_iff,
  leb, length,
}
use fpl_radar.Prelude.Sort.{sort_by, mem-sort_by, sort_by-mem}
use fpl_radar.Constants.{is_data_checked}
use fpl_radar.EventState.{ResultStatus, overridden}
use fpl_radar.HashChain.{Body, Action, Snapshot}
use fpl_radar.Winner.{GwInput, is_empty}
use fpl_radar.Decision.Types.{SnapshotContent, by_override, ActionFields, Head, Loaded, overriding}
use fpl_radar.Decision.Explain.{build_snapshot_input}
use fpl_radar.Decision.Repo.{previous_content}
use fpl_radar.Decision.Transaction.{write, World, committed}
use fpl_radar.Decision.Chain.{IsIntact}
use fpl_radar.Decision.Commit.{run_t4-IsCommit}
use fpl_radar.Decision.Service.{
  computed, distinct_ids, is_in_ids, is_undecided, override_plan, override, request,
}

mem-add_distinct :
    {x : ℕ} (w : ℕ) (ws ds : List ℕ)
    → Memᴰ x ws ↔ Memᴰ x ds
    → Memᴰ x (w ∷ ws) ↔ Memᴰ x (w ∷ keep (λ v. not (v == w)) ds)
mem-add_distinct {x} w ws ds ih = (there, back)
  where
    there : Memᴰ x (w ∷ ws) → Memᴰ x (w ∷ keep (λ v. not (v == w)) ds)
    there (Memᴰ.head e) = Memᴰ.head e
    there (Memᴰ.tail m) = elim (Bool-cases (x == w)) [
      | inl e ↦ Memᴰ.head ((==_iff x w).0 e)
      | inr e ↦ Memᴰ.tail (keep-mem (λ v. not (v == w)) (ih.0 m) (ground arith))
    ]

    back : Memᴰ x (w ∷ keep (λ v. not (v == w)) ds) → Memᴰ x (w ∷ ws)
    back (Memᴰ.head e) = Memᴰ.head e
    back (Memᴰ.tail m) = Memᴰ.tail (ih.1 (mem-keep (λ v. not (v == w)) ds m).0)

mem-distinct_ids : {x : ℕ} (ws : List ℕ) → Memᴰ x ws ↔ Memᴰ x (distinct_ids ws)
unfolding distinct_ids
mem-distinct_ids [] = (λ m. m, λ m. m)
mem-distinct_ids (w ∷ ws) = mem-add_distinct w ws (distinct_ids ws) (mem-distinct_ids ws)

is_in_ids-mem : (x : ℕ) (ids : List ℕ) → is_in_ids x ids ≡ true → Memᴰ x ids
is_in_ids-mem x [] h = cc
is_in_ids-mem x (y ∷ ids) h = elim (Bool-cases (y == x)) [
  | inl e ↦ Memᴰ.head (sym ((==_iff y x).0 e))
  | inr e ↦ Memᴰ.tail (is_in_ids-mem x ids (ground arith))
]

is_empty-no_mem : {A : Type 0} {x : A} (xs : List A) → is_empty xs ≡ true → ¬ (Memᴰ x xs)
is_empty-no_mem [] h m = Memᴰ.not-nil m
is_empty-no_mem (x ∷ xs) h m = cc

no_outsiders :
    (members declared : List ℕ)
    → is_empty (keep (λ id. not (is_in_ids id members)) declared) ≡ true
    → (x : ℕ) → Memᴰ x declared
    → Memᴰ x members
no_outsiders members declared h x m = elim (Bool-cases (is_in_ids x members)) [
  | inl e ↦ is_in_ids-mem x members e
  | inr e ↦
      absurd (is_empty-no_mem _ h (keep-mem (λ id. not (is_in_ids id members)) m (ground arith)))
]

is_undecided_iff : (h : Option Head) → (is_undecided h ≡ true) ⊎ (h ≢ none)
is_undecided_iff none = inl refl
is_undecided_iff (some h) = inr (λ e. cc)

module _ (locale_compare : String → String → Ordering) (inputs_hash : GwInput → String) where
  record MayOverride (l : Loaded) (declared : List ℕ) (head : Option Head) : Type 0 where
    active : l.group_active ≡ true
    ready : (head ≢ none) ⊎ (is_data_checked l.gw.event_state ≡ true)
    members : (x : ℕ) → Memᴰ x declared → Memᴰ x (map (λ m. m.entry_id) l.gw.members)

  override_plan-writes :
      (l : Loaded) (declared : List ℕ) (now : ℕ) (head : Option Head)
      (prev : Option SnapshotContent) (content : SnapshotContent) (status : ResultStatus)
      → override_plan locale_compare inputs_hash l declared now head prev ≡ write content status
      → MayOverride l declared head
        × (status ≡ overridden)
        × (content
            ≡ build_snapshot_input inputs_hash l
                (computed locale_compare inputs_hash l)
                by_override
                declared
                now)
  unfolding override_plan
  override_plan-writes l declared now head prev content status h =
      let ids = map (λ m. m.entry_id) l.gw.members in
      elim (Bool-cases l.group_active) [
        | inr a ↦ absurd (cc (rw a at h))
        | inl a ↦ elim (Bool-cases (is_undecided head && not (is_data_checked l.gw.event_state))) [
          | inl u ↦ absurd (cc (rw (a, u) at h))
          | inr u ↦ elim (Bool-cases (is_empty (keep (λ id. not (is_in_ids id ids)) declared))) [
            | inr o ↦ absurd (cc (rw (a, u, o) at h))
            | inl o ↦
                let k = rw (a, u, o) at h in
                (
                  record {
                    active = a;
                    ready = elim (is_undecided_iff head) [
                      | inl n ↦ inr (ground arith)
                      | inr d ↦ inl d
                    ];
                    members = no_outsiders ids declared o;
                  },
                  cc,
                  cc,
                )
          ]
        ]
      ]

module _ (locale_compare : String → String → Ordering) (inputs_hash : GwInput → String)
    (action_hash : Body ActionFields → String) (snapshot_hash : SnapshotContent → String) where
  -- An override that commits, on a history that verifies, declares what was asked for: as many ids as
  -- were given, the given ones and no others, each of a member of the group. The group is active, and the
  -- gameweek had a decision or is checked. The status becomes OVERRIDDEN, and the result of the rules is
  -- stored beside the declared one.
  pub override_lem :
      (group : Option Bool) (l : Loaded) (winners : List ℕ) (note : String) (id now : ℕ) (w : World)
      (s : Snapshot SnapshotContent) (a : Action ActionFields)
      → IsIntact action_hash snapshot_hash w.log
      → (override locale_compare inputs_hash action_hash snapshot_hash group l winners note id now
          w).0
        ≡ committed s a
      → (group ≡ some true)
        × (l.group_active ≡ true)
        × ((w.log.head ≢ none) ⊎ (is_data_checked l.gw.event_state ≡ true))
        × (a.body.other.new_status ≡ overridden)
        × (length s.content.declared_winners ≡ length winners)
        × ((x : ℕ) → Memᴰ x winners ↔ Memᴰ x s.content.declared_winners)
        × ((x : ℕ)
            → Memᴰ x s.content.declared_winners
            → Memᴰ x (map (λ m. m.entry_id) l.gw.members))
        × (s.content.computed_winners ≡ (computed locale_compare inputs_hash l).winners)
  unfolding override
  override_lem none l winners note id now w s a i e = cc
  override_lem (some false) l winners note id now w s a i e = cc
  override_lem (some true) l winners note id now w s a i e =
      let declared = sort_by leb (distinct_ids winners) in
      elim (Bool-cases (length declared == length winners)) [
        | inr n ↦ absurd (cc (rw n at e))
        | inl n ↦
            let q = request none id now (some note) overriding in
            let plan = override_plan locale_compare inputs_hash l declared now in
            let c = run_t4-IsCommit action_hash snapshot_hash now q plan w s a i (rw n at e) in
            let (o, st, ct) =
              override_plan-writes locale_compare inputs_hash l declared now w.log.head
                (previous_content w.log w.log.head) c.content c.status c.planned in
            let dw =
              ap (λ x. x.content.declared_winners) c.snapshot ∙ ap (λ x. x.declared_winners) ct in
            (
              refl,
              o.active,
              o.ready,
              ap (λ x. x.body.other.new_status) c.action ∙ st,
              ap length dw ∙ (==_iff (length declared) (length winners)).0 n,
              λ x. (
                λ m.
                    subst (λ d. Memᴰ x d) (sym dw)
                      (mem-sort_by leb (distinct_ids winners) ((mem-distinct_ids winners).0 m)),
                λ m.
                    (mem-distinct_ids winners).1
                      (sort_by-mem leb (distinct_ids winners) (subst (λ d. Memᴰ x d) dw m)),
              ),
              λ x m. o.members x (subst (λ d. Memᴰ x d) dw m),
              ap (λ x. x.content.computed_winners) c.snapshot ∙ ap (λ x. x.computed_winners) ct,
            )
      ]
