-- ===== src/Transfers.antt =====
-- server/src/analytics/transfers.js: the transfers that each eligible manager made in a gameweek, and
-- who brought each player in or out. Times are their epoch milliseconds; players stand for their ids.
pub mod Tally
pub mod Laws
use fpl_radar.Prelude.{
  ℕ, ◌+◌, Bool, true, false, ◌&&◌, ◌||◌, not, Option, none, some, List, [], ◌∷◌, ◌++◌, map,
  if◌then◌else◌, leb, ltb, ◌==◌, keep, length,
}
use fpl_radar.Prelude.Int.{ℤ, pos, ◌+ℤ◌, ltb_ℤ}
use fpl_radar.Prelude.Sort.{sort_by}
use fpl_radar.EffectiveSquad.{Chip}
use fpl_radar.Winner.Inputs.{map_get}

pub record Transfer : Type 0 where
  pub element_in : ℕ
  pub element_in_cost_tenths : ℕ
  pub element_out : ℕ
  pub element_out_cost_tenths : ℕ
  pub event : ℕ
  pub time : ℕ

pub record GwFacts : Type 0 where
  pub event_transfers : Option ℕ
  pub transfer_cost : Option ℤ
  pub active_chip : Option Chip

pub record MemberTransfers : Type 0 where
  pub entry_id : ℕ
  pub transfers : List Transfer
  pub event_transfers : Option ℕ
  pub transfer_cost : Option ℤ
  pub active_chip : Option Chip

-- The event is left out of a transfer by the source; here it stays.
abbrev made_before : Transfer → Transfer → Bool
made_before a b =
    if a.time == b.time
    then (if a.element_in == b.element_in
        then leb a.element_out b.element_out
        else ltb a.element_in b.element_in)
    else ltb a.time b.time

-- The `Map` of `tally`, from a player to those who moved him; a new key comes last.
unfoldable pub tally : ℕ → ℕ → List (ℕ × List ℕ) → List (ℕ × List ℕ)
tally element entry [] = (element, entry ∷ []) ∷ []
tally element entry ((e, ids) ∷ m) =
    let rest = tally element entry m in
    if e == element then (e, ids ++ entry ∷ []) ∷ m else (e, ids) ∷ rest

unfoldable pub tally_all :
    (Transfer → ℕ) → ℕ → List Transfer → List (ℕ × List ℕ) → List (ℕ × List ℕ)
unfolding tally
tally_all f entry [] m = m
tally_all f entry (t ∷ ts) m = tally_all f entry ts (tally (f t) entry m)

pub record Tallied : Type 0 where
  pub members : List MemberTransfers
  pub missing : List ℕ
  pub ins : List (ℕ × List ℕ)
  pub outs : List (ℕ × List ℕ)

abbrev facts_of : Option GwFacts → GwFacts
facts_of none = record { event_transfers = none; transfer_cost = none; active_chip = none }
facts_of (some f) = f

pub record TransferInput : Type 0 where
  pub event : ℕ
  pub eligible : List ℕ
  pub transfers_by_entry : List (ℕ × List Transfer)
  pub rows : List (ℕ × GwFacts)

unfoldable pub made_in : ℕ → List Transfer → List Transfer
unfolding sort_by
made_in event list = sort_by made_before (keep (λ t. t.event == event) list)

abbrev pub member_of : TransferInput → ℕ → List Transfer → MemberTransfers
member_of i id made =
    let facts = facts_of (map_get id i.rows) in
    record {
      entry_id = id;
      transfers = made;
      event_transfers = facts.event_transfers;
      transfer_cost = facts.transfer_cost;
      active_chip = facts.active_chip;
    }

-- The body of the loop over the managers: a manager without a list is reported, not taken for one
-- without transfers.
abbrev pub add_manager : TransferInput → ℕ → Option (List Transfer) → Tallied → Tallied
add_manager i id none t = record t { missing = t.missing ++ id ∷ [] }
add_manager i id (some list) t =
    let made = made_in i.event list in
    record {
      members = t.members ++ member_of i id made ∷ [];
      missing = t.missing;
      ins = tally_all (λ x. x.element_in) id made t.ins;
      outs = tally_all (λ x. x.element_out) id made t.outs;
    }

unfoldable pub tally_managers : TransferInput → List ℕ → Tallied → Tallied
unfolding tally_all made_in map_get
tally_managers i [] t = t
tally_managers i (id ∷ ids) t =
    tally_managers i ids (add_manager i id (map_get id i.transfers_by_entry) t)

pub record Moved : Type 0 where
  pub element_id : ℕ
  pub count : ℕ
  pub entry_ids : List ℕ

abbrev pub more_moved : Moved → Moved → Bool
more_moved a b = if a.count == b.count then leb a.element_id b.element_id else ltb b.count a.count

abbrev pub moved_of : ℕ × List ℕ → Moved
moved_of x = record { element_id = x.0; count = length x.1; entry_ids = sort_by leb x.1 }

unfoldable pub ranked : List (ℕ × List ℕ) → List Moved
unfolding sort_by
ranked m = sort_by more_moved (map moved_of m)

unfoldable pub transfer_count : List MemberTransfers → ℕ
transfer_count [] = 0
transfer_count (m ∷ ms) = length m.transfers + transfer_count ms

abbrev is_hit : Option ℤ → Bool
is_hit none = false
is_hit (some c) = ltb_ℤ (pos 0) c

abbrev cost_or_zero : Option ℤ → ℤ
cost_or_zero none = pos 0
cost_or_zero (some c) = c

hit_cost : List MemberTransfers → ℤ
unfolding ◌+ℤ◌
hit_cost [] = pos 0
hit_cost (m ∷ ms) = cost_or_zero m.transfer_cost +ℤ hit_cost ms

pub record TransferSummary : Type 0 where
  pub members : List MemberTransfers
  pub players_in : List Moved
  pub players_out : List Moved
  pub transfers : ℕ
  pub managers_with_transfers : ℕ
  pub managers_with_hits : ℕ
  pub total_hit_cost : ℤ
  pub missing_entry_ids : List ℕ

abbrev pub nothing_tallied : Tallied
nothing_tallied = record { members = []; missing = []; ins = []; outs = [] }

unfoldable pub summarize_transfers : TransferInput → TransferSummary
unfolding tally_managers ranked transfer_count hit_cost sort_by
summarize_transfers i =
    let t = tally_managers i (sort_by leb i.eligible) nothing_tallied in
    record {
      members = t.members;
      players_in = ranked t.ins;
      players_out = ranked t.outs;
      transfers = transfer_count t.members;
      managers_with_transfers = length (keep (λ m. ltb 0 (length m.transfers)) t.members);
      managers_with_hits = length (keep (λ m. is_hit m.transfer_cost) t.members);
      total_hit_cost = hit_cost t.members;
      missing_entry_ids = t.missing;
    }
