-- ===== src/EventState/Laws.antt =====
-- The state of a gameweek over time, and what an open gate means.
use fpl_radar.Prelude.{
  ℕ, ◌≤◌, ◌<◌, ◌≡◌, refl, sym, ap, subst, ◌∙◌, ◌++◌, Bool, true, false, not, ◌≢◌, ◌↔◌, ◌⊎◌, inl,
  inr, Option, none, some, List, [], ◌∷◌, Memᴰ, any, any_none, none_any, arith, length, ◌==◌,
}
use fpl_radar.Constants.{
  EventState, upcoming, live, matches_finished, fpl_processing, data_checked, ReconciliationStatus,
  reconciled, reconciled_no_cost,
}
use fpl_radar.EventState.{
  Event, Fixture, derive_event_state, ResultStatus, SyncRunStatus, success, EligibleRow,
  GateContext, starts_after, is_success, state_checked, is_decided, no_reasons, reason_if,
  group_archived, not_data_checked, already_final, stale_sync, reconciliation_failed,
  no_eligible_managers, is_stale, row_reconciled, finalize_reasons, can_finalize,
}

-- The place of a state in the life of a gameweek.
abbrev stage : EventState → ℕ
stage upcoming = 0
stage live = 1
stage matches_finished = 2
stage fpl_processing = 3
stage data_checked = 4

-- With the same data, the passing of time never takes a gameweek back, and moves it only from
-- UPCOMING to LIVE.
derive_event_state_monotone :
    (e : Event) (fixtures : Option (List Fixture)) (now later : ℕ)
    → now ≤ later
    → (derive_event_state e fixtures later ≡ derive_event_state e fixtures now)
      ⊎ ((derive_event_state e fixtures now ≡ upcoming)
          × (derive_event_state e fixtures later ≡ live)
          × (now < e.deadline_time))
unfolding derive_event_state
derive_event_state_monotone e fixtures now later h = ground arith

-- A gameweek is DATA_CHECKED exactly with that flag of FPL, and FPL_PROCESSING exactly when it is
-- finished without it; it is UPCOMING only before the deadline and LIVE only from the deadline on.
derive_event_state_flags :
    (e : Event) (fixtures : Option (List Fixture)) (now : ℕ)
    → ((derive_event_state e fixtures now ≡ data_checked) ↔ (e.data_checked ≡ true))
      × ((derive_event_state e fixtures now ≡ fpl_processing)
          ↔ ((e.data_checked ≡ false) × (e.finished ≡ true)))
      × ((derive_event_state e fixtures now ≡ upcoming) → now < e.deadline_time)
      × ((derive_event_state e fixtures now ≡ live) → e.deadline_time ≤ now)
unfolding derive_event_state
derive_event_state_flags e fixtures now = (
  (λ h. ground arith, λ h. ground arith),
  (λ h. ground arith, λ h. ground arith),
  λ h. ground arith,
  λ h. ground arith,
)

-- A row that may be finalized: confirmed by a successful run that started after FPL was seen to have
-- checked the data, and reconciled.
pub record IsFresh (observed : ℕ) (r : EligibleRow) : Type 0 where
  pub run_ok : r.sync_run_status ≡ some success
  pub confirmed : (started : ℕ) × (r.sync_run_started_at ≡ some started) × (observed < started)
  pub sound :
      (r.reconciliation_status ≡ some reconciled)
      ⊎ (r.reconciliation_status ≡ some reconciled_no_cost)

fresh_at :
    (observed started : Option ℕ)
    → starts_after observed started ≡ true
    → (o : ℕ) × (t : ℕ) × (observed ≡ some o) × (started ≡ some t) × (o < t)
fresh_at none started h = cc
fresh_at (some o) none h = cc
fresh_at (some o) (some t) h = (o, t, refl, refl, ground arith)

row_reconciled_status :
    (s : Option ReconciliationStatus)
    → row_reconciled s ≡ true
    → (s ≡ some reconciled) ⊎ (s ≡ some reconciled_no_cost)
row_reconciled_status s h = ground arith

is_success_status : (s : Option SyncRunStatus) → is_success s ≡ true → s ≡ some success
is_success_status s h = ground arith

IsFresh-of_tests :
    (observed : Option ℕ) (r : EligibleRow)
    → is_stale observed r ≡ false
    → row_reconciled r.reconciliation_status ≡ true
    → (o : ℕ) × (observed ≡ some o) × IsFresh o r
IsFresh-of_tests observed r h k =
    let (o, t, eo, et, lt) = fresh_at observed r.sync_run_started_at (ground arith) in
    (
      o,
      eo,
      record {
        run_ok = is_success_status r.sync_run_status (ground arith);
        confirmed = (t, et, lt);
        sound = row_reconciled_status r.reconciliation_status k;
      },
    )

tests_of_IsFresh :
    (o : ℕ) (r : EligibleRow)
    → IsFresh o r
    → (is_stale (some o) r ≡ false) × (row_reconciled r.reconciliation_status ≡ true)
tests_of_IsFresh o r f =
    let (t, et, lt) = f.confirmed in
    (rw (f.run_ok, et) (ground arith), elim f.sound [ inl e ↦ rw e refl | inr e ↦ rw e refl ])

gate_tests :
    (active checked decided stale unsound empty : Bool)
    → (no_reasons (
          reason_if (not active) group_archived
          ++ reason_if (not checked) not_data_checked
          ++ reason_if decided already_final
          ++ reason_if stale stale_sync
          ++ reason_if unsound reconciliation_failed
          ++ reason_if empty no_eligible_managers)
        ≡ true)
      ↔ ((active ≡ true)
          × (checked ≡ true)
          × (decided ≡ false)
          × (stale ≡ false)
          × (unsound ≡ false)
          × (empty ≡ false))
gate_tests active checked decided stale unsound empty = (
  λ h. (ground arith, ground arith, ground arith, ground arith, ground arith, ground arith),
  λ h. ground arith,
)

-- What an open gate stands for.
pub record MayFinalize (c : GateContext) : Type 0 where
  pub active : c.group_active ≡ true
  pub checked : c.event_state ≡ some data_checked
  pub undecided : c.result_status ≡ none
  pub somebody : c.eligible_rows ≢ []
  pub observed_at : ℕ
  pub observed : c.data_checked_observed_at ≡ some observed_at
  pub fresh : (r : EligibleRow) → Memᴰ r c.eligible_rows → IsFresh observed_at r

state_checked_eq : (s : Option EventState) → (state_checked s ≡ true) ↔ (s ≡ some data_checked)
state_checked_eq s = (λ h. ground arith, λ h. ground arith)

is_decided_eq : (s : Option ResultStatus) → (is_decided s ≡ false) ↔ (s ≡ none)
is_decided_eq s = (λ h. ground arith, λ h. ground arith)

not-false : (b : Bool) → not b ≡ false → b ≡ true
not-false b h = ground arith

first_of_rows : (rows : List EligibleRow) → rows ≢ [] → (r : EligibleRow) × Memᴰ r rows
first_of_rows [] h = absurd (h refl)
first_of_rows (r ∷ rows) h = (r, Memᴰ.head refl)

nonempty_rows : (rows : List EligibleRow) → rows ≢ [] → (length rows == 0) ≡ false
nonempty_rows [] h = absurd (h refl)
nonempty_rows (x ∷ rows) h = ground arith

some_inj : {a b : ℕ} → some a ≡ some b → a ≡ b
some_inj e = cc

-- The gate opens exactly for an active group, a gameweek that FPL has checked and that has no
-- decision yet, at least one eligible row, and every eligible row reconciled and confirmed by a
-- successful run that started after the check was observed.
pub can_finalize_iff : (c : GateContext) → ((can_finalize c).0 ≡ true) ↔ MayFinalize c
unfolding can_finalize finalize_reasons
can_finalize_iff c = (forward, backward)
  where
    stale_test : EligibleRow → Bool
    stale_test = is_stale c.data_checked_observed_at

    unsound_test : EligibleRow → Bool
    unsound_test r = not (row_reconciled r.reconciliation_status)

    tests : (no_reasons (finalize_reasons c) ≡ true) ↔ (
        (c.group_active ≡ true)
        × (state_checked c.event_state ≡ true)
        × (is_decided c.result_status ≡ false)
        × (any stale_test c.eligible_rows ≡ false)
        × (any unsound_test c.eligible_rows ≡ false)
        × ((length c.eligible_rows == 0) ≡ false))
    tests =
        gate_tests c.group_active (state_checked c.event_state) (is_decided c.result_status)
          (any stale_test c.eligible_rows) (any unsound_test c.eligible_rows)
          (length c.eligible_rows == 0)

    forward : (no_reasons (finalize_reasons c) ≡ true) → MayFinalize c
    forward h =
        let t = tests.0 h in
        let some_row : c.eligible_rows ≢ [] = λ e. cc (t.5, ap (λ xs. length xs == 0) e) in
        let (r, m) = first_of_rows c.eligible_rows some_row in
        let at = λ (x : EligibleRow) (k : Memᴰ x c.eligible_rows).
          IsFresh-of_tests c.data_checked_observed_at x (any_none stale_test c.eligible_rows t.3 k)
            (not-false (row_reconciled x.reconciliation_status)
              (any_none unsound_test c.eligible_rows t.4 k)) in
        let (o, eo, f) = at r m in
        record {
          active = t.0;
          checked = (state_checked_eq c.event_state).0 t.1;
          undecided = (is_decided_eq c.result_status).0 t.2;
          somebody = some_row;
          observed_at = o;
          observed = eo;
          fresh = λ x k.
              let (o', eo', f') = at x k in subst (λ w. IsFresh w x) (some_inj (sym eo' ∙ eo)) f';
        }

    backward : MayFinalize c → no_reasons (finalize_reasons c) ≡ true
    backward g = tests.1 (
      g.active,
      (state_checked_eq c.event_state).1 g.checked,
      (is_decided_eq c.result_status).1 g.undecided,
      none_any stale_test c.eligible_rows (λ x k.
          subst (λ w. is_stale w x ≡ false) (sym g.observed)
            (tests_of_IsFresh g.observed_at x (g.fresh x k)).0),
      none_any unsound_test c.eligible_rows
          (λ x k. rw (tests_of_IsFresh g.observed_at x (g.fresh x k)).1 refl),
      nonempty_rows c.eligible_rows g.somebody,
    )
