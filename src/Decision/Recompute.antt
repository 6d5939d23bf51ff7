-- ===== src/Decision/Recompute.antt =====
-- What a recomputation decides on (server/src/services/resultService.js).
use Prim.Native.Nat.{Ordering}
use Prim.Native.String.{String}
use fpl_radar.Prelude.{
  ℕ, ◌≡◌, ◌≢◌, refl, ap, subst, ◌∙◌, inl, inr, Bool, true, false, ◌&&◌, not, Option, none, some,
  ◌++◌, arith, Bool-cases, leb,
}
use fpl_radar.Prelude.Sort.{sort_by}
use fpl_radar.Constants.{is_data_checked}
use fpl_radar.EventState.{ResultStatus, final}
use fpl_radar.HashChain.{Body, Action, Snapshot}
use fpl_radar.Winner.{GwInput, provisional, is_empty}
use fpl_radar.Decision.Types.{
  SnapshotContent, rule_based, ActionFields, Head, Loaded, recomputing, RecomputeReason,
  group_archived_now, not_data_checked_now, reconciliation_failed_now,
}
use fpl_radar.Decision.Explain.{
  ResultDiff, build_snapshot_input, diff_results, same_ids, declared_of,
}
use fpl_radar.Decision.Repo.{Result, ok, err, previous_content}
use fpl_radar.Decision.Transaction.{write, World, committed}
use fpl_radar.Decision.Chain.{IsIntact}
use fpl_radar.Decision.Commit.{guarded-IsCommit}
use fpl_radar.Decision.Finalize.{append_none, is_provisional-eq}
use fpl_radar.Decision.Service.{
  is_provisional, computed, has_note, recompute_reasons, recompute_check, plan_checked,
  recompute_plan, recompute, recompute_if, request,
}

module _ (locale_compare : String → String → Ordering) (inputs_hash : GwInput → String) where
  record MayRecompute (l : Loaded) (note : Option String) (head : Option Head)
      (prev : Option SnapshotContent) : Type 0 where
    decided : head ≢ none
    active : l.group_active ≡ true
    checked : is_data_checked l.gw.event_state ≡ true
    sound : is_provisional (computed locale_compare inputs_hash l).status ≡ true
    noted :
        (diff_results prev (computed locale_compare inputs_hash l)).winners_changed ≡ true
        → has_note note ≡ true

  no_recompute_if :
      (b : Bool) (r : RecomputeReason) → is_empty (recompute_if b r) ≡ true → b ≡ false
  no_recompute_if true r h = cc
  no_recompute_if false r h = refl

  no_recompute_reasons :
      (l : Loaded)
      → is_empty (recompute_reasons locale_compare inputs_hash l) ≡ true
      → (l.group_active ≡ true)
        × (is_data_checked l.gw.event_state ≡ true)
        × (is_provisional (computed locale_compare inputs_hash l).status ≡ true)
  unfolding recompute_reasons
  no_recompute_reasons l h =
      let xs = recompute_if (not l.group_active) group_archived_now in
      let ys = recompute_if (not (is_data_checked l.gw.event_state)) not_data_checked_now in
      let sound = is_provisional (computed locale_compare inputs_hash l).status in
      let (ab, c) = append_none (xs ++ ys) (recompute_if (not sound) reconciliation_failed_now) h in
      let (a, b) = append_none xs ys ab in
      let ra = no_recompute_if (not l.group_active) group_archived_now a in
      let rb = no_recompute_if (not (is_data_checked l.gw.event_state)) not_data_checked_now b in
      let rc = no_recompute_if (not sound) reconciliation_failed_now c in
      (ground arith, ground arith, ground arith)

  recompute_check-ok :
      (l : Loaded) (head : Option Head) (prev : Option SnapshotContent) (d : ResultDiff)
      → recompute_check locale_compare inputs_hash l head prev ≡ ok d
      → (head ≢ none)
        × (is_empty (recompute_reasons locale_compare inputs_hash l) ≡ true)
        × (d ≡ diff_results prev (computed locale_compare inputs_hash l))
  unfolding recompute_check
  recompute_check-ok l none prev d h = cc
  recompute_check-ok l (some hd) prev d h =
      elim (Bool-cases (is_empty (recompute_reasons locale_compare inputs_hash l))) [
        | inr e ↦ absurd (cc (rw e at h))
        | inl e ↦ let k = rw e at h in (λ z. cc, e, cc)
      ]

  plan_checked-writes :
      (l : Loaded) (text : Option String) (now : ℕ) (c : Result ResultDiff)
      (content : SnapshotContent) (status : ResultStatus)
      → plan_checked locale_compare inputs_hash l text now c ≡ write content status
      → (d : ResultDiff) × (c ≡ ok d)
        × (d.winners_changed ≡ true → has_note text ≡ true)
        × (status ≡ final)
        × (content
            ≡ build_snapshot_input inputs_hash l
                (computed locale_compare inputs_hash l)
                rule_based
                (computed locale_compare inputs_hash l).winners
                now)
  unfolding plan_checked
  plan_checked-writes l text now (err r) content status h = cc
  plan_checked-writes l text now (ok d) content status h =
      elim (Bool-cases (d.winners_changed && not (has_note text))) [
        | inl n ↦ absurd (cc (rw n at h))
        | inr n ↦ let k = rw n at h in (d, refl, λ z. ground arith, cc, cc)
      ]

  recompute_plan-writes :
      (l : Loaded) (text : Option String) (now : ℕ) (head : Option Head)
      (prev : Option SnapshotContent) (content : SnapshotContent) (status : ResultStatus)
      → recompute_plan locale_compare inputs_hash l text now head prev ≡ write content status
      → MayRecompute l text head prev
        × (status ≡ final)
        × (content
            ≡ build_snapshot_input inputs_hash l
                (computed locale_compare inputs_hash l)
                rule_based
                (computed locale_compare inputs_hash l).winners
                now)
  unfolding recompute_plan
  recompute_plan-writes l text now head prev content status h =
      let (d, ed, nd, es, ec) =
        plan_checked-writes l text now (recompute_check locale_compare inputs_hash l head prev)
          content status h in
      let (dh, dr, dd) = recompute_check-ok l head prev d ed in
      let (a, c, s) = no_recompute_reasons l dr in
      (
        record {
          decided = dh;
          active = a;
          checked = c;
          sound = s;
          noted = λ z. nd (ap (λ x. x.winners_changed) dd ∙ z);
        },
        es,
        ec,
      )

module _ (locale_compare : String → String → Ordering) (inputs_hash : GwInput → String)
    (action_hash : Body ActionFields → String) (snapshot_hash : SnapshotContent → String) where
  -- A recomputation that commits, on a history that verifies, had a decision to recompute, in an active
  -- group, of a checked gameweek whose members are all reconciled. It declares the winners of the rules,
  -- its status is FINAL, its action stores the note that came, and where they are not the winners declared
  -- before, there is one.
  pub recompute_lem :
      (group : Option Bool) (l : Loaded) (note : Option String) (id now : ℕ) (w : World)
      (s : Snapshot SnapshotContent) (a : Action ActionFields)
      → IsIntact action_hash snapshot_hash w.log
      → (recompute locale_compare inputs_hash action_hash snapshot_hash group l note id now w).0
        ≡ committed s a
      → (group ≡ some true)
        × (l.group_active ≡ true)
        × (w.log.head ≢ none)
        × (is_data_checked l.gw.event_state ≡ true)
        × ((computed locale_compare inputs_hash l).status ≡ provisional)
        × (a.body.other.new_status ≡ final)
        × (s.content.declared_winners ≡ (computed locale_compare inputs_hash l).winners)
        × (a.body.other.note ≡ note)
        × (same_ids
                (sort_by leb (declared_of (previous_content w.log w.log.head)))
                s.content.declared_winners
              ≡ false
            → has_note note ≡ true)
  unfolding recompute diff_results
  recompute_lem group l note id now w s a i e =
      let q = request none id now note recomputing in
      let plan = recompute_plan locale_compare inputs_hash l note now in
      let prev = previous_content w.log w.log.head in
      let (g, c) = guarded-IsCommit action_hash snapshot_hash group now q plan w s a i e in
      let (o, st, ct) =
        recompute_plan-writes locale_compare inputs_hash l note now w.log.head prev c.content
          c.status c.planned in
      let dw = ap (λ x. x.content.declared_winners) c.snapshot ∙ ap (λ x. x.declared_winners) ct in
      (
        g,
        o.active,
        o.decided,
        o.checked,
        is_provisional-eq (computed locale_compare inputs_hash l).status o.sound,
        ap (λ x. x.body.other.new_status) c.action ∙ st,
        dw,
        ap (λ x. x.body.other.note) c.action,
        λ d.
            o.noted
              (ap not (subst (λ x. same_ids (sort_by leb (declared_of prev)) x ≡ false) dw d)),
      )
