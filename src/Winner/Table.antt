-- ===== src/Winner/Table.antt =====
-- The rows of a result: one for each member, placed rows first, the others by name.
use Prim.Native.Nat.{Ordering}
use Prim.Native.String.{String}
use fpl_radar.Prelude.{
  ℕ, Bool, true, false, ◌&&◌, not, Option, none, some, List, [], map, if◌then◌else◌, ◌==◌, leb,
  keep, any,
}
use fpl_radar.Prelude.Int.{ℤ}
use fpl_radar.Prelude.Sort.{sort_by}
use fpl_radar.Constants.{ReconciliationStatus, is_reconciled}
use fpl_radar.Eligibility.{IneligibleReason}
use fpl_radar.Ranking.{DecidedBy, Position}
use fpl_radar.Winner.Inputs.{GwRow, Manager, GwInput, map_get, score_of}

-- `reconciliationStatus` is 'NOT_SYNCED' where `not_synced` holds.
pub record ResultRow : Type 0 where
  pub entry_id : ℕ
  pub player_name : Option String
  pub team_name : Option String
  pub reported_gw_points : Option ℤ
  pub gross_gw_points : Option ℤ
  pub net_gw_points : Option ℤ
  pub transfer_cost : Option ℤ
  pub score : Option ℤ
  pub reconciliation_status : Option ReconciliationStatus
  pub not_synced : Bool
  pub competition_rank : Option ℕ
  pub resolved_position : Option ℕ
  pub position_decided_by : Option DecidedBy
  pub tied_with : List ℕ
  pub ineligible_reason : Option IneligibleReason
  pub is_winner : Bool
  pub is_me : Bool

-- What the rows read of the decision.
pub record Standing : Type 0 where
  pub ranks : List (ℕ × ℕ)
  pub positions : List (ℕ × Position)
  pub winners : List ℕ
  pub ineligible : List (ℕ × IneligibleReason)

-- `x?.f ?? null`
abbrev pub field_of {ℓ κ} : {A : Type ℓ} {B : Type κ} → (A → Option B) → Option A → Option B
field_of f none = none
field_of f (some a) = f a

abbrev score_shown : GwInput → GwRow → Option ℤ
score_shown i r =
    if is_reconciled r.reconciliation_status then score_of i.group.winner_rule r else none

abbrev tied_ids : List (ℕ × ℕ) → ℕ → Option ℕ → List ℕ
tied_ids ranks id none = []
tied_ids ranks id (some rank) =
    sort_by leb (map (λ p. p.0) (keep (λ p. p.1 == rank && not (p.0 == id)) ranks))

abbrev is_my_id : Option ℕ → ℕ → Bool
is_my_id none id = false
is_my_id (some me) id = me == id

abbrev lacks_row : Option GwRow → Option IneligibleReason → Bool
lacks_row none none = true
lacks_row _ _ = false

unfoldable pub result_row : GwInput → List (ℕ × GwRow) → Standing → ℕ → ResultRow
unfolding map_get
result_row i rows s id =
    let r = map_get id rows in
    let m = map_get id i.managers in
    let rank = map_get id s.ranks in
    let p = map_get id s.positions in
    let reason = map_get id s.ineligible in
    record {
      entry_id = id;
      player_name = field_of (λ x. x.player_name) m;
      team_name = field_of (λ x. x.team_name) m;
      reported_gw_points = field_of (λ x. x.reported_gw_points) r;
      gross_gw_points = field_of (λ x. x.gross_gw_points) r;
      net_gw_points = field_of (λ x. x.net_gw_points) r;
      transfer_cost = field_of (λ x. x.transfer_cost) r;
      score = field_of (score_shown i) r;
      reconciliation_status = field_of (λ x. some x.reconciliation_status) r;
      not_synced = lacks_row r reason;
      competition_rank = rank;
      resolved_position = field_of (λ x. some x.resolved_position) p;
      position_decided_by = field_of (λ x. x.position_decided_by) p;
      tied_with = tied_ids s.ranks id rank;
      ineligible_reason = reason;
      is_winner = any (λ w. w == id) s.winners;
      is_me = is_my_id i.group.my_entry_id id;
    }

abbrev name_or_empty : Option String → String
name_or_empty none = ""
name_or_empty (some n) = n

module _ (locale_compare : String → String → Ordering) where
  -- `na.localeCompare(nb) || a - b`, with the empty text for a manager without a name.
  pub name_before : List (ℕ × Manager) → ℕ → ℕ → Bool
  name_before managers a b =
      let name = λ (id : ℕ). name_or_empty (field_of (λ x. x.player_name) (map_get id managers)) in
      elim (locale_compare (name a) (name b)) [
        | Ordering.lt ↦ true
        | Ordering.gt ↦ false
        | Ordering.eq ↦ leb a b
      ]

  abbrev pub row_before_at : List (ℕ × Manager) → Option ℕ → Option ℕ → ResultRow → ResultRow → Bool
  row_before_at managers (some p) (some q) a b = leb p q
  row_before_at managers (some p) none a b = true
  row_before_at managers none (some q) a b = false
  row_before_at managers none none a b = name_before managers a.entry_id b.entry_id

  unfoldable pub table : GwInput → List (ℕ × GwRow) → Standing → List ResultRow
  unfolding result_row sort_by name_before
  table i rows s =
      sort_by (λ a b. row_before_at i.managers a.resolved_position b.resolved_position a b)
        (map (λ m. result_row i rows s m.entry_id) i.members)
