-- ===== src/Transfers/Laws.antt =====
-- Every transfer is counted once on each side (server/src/analytics/transfers.js).
use mathlib.Core.List.{Perm, append-nil, append_assoc}
use fpl_radar.Prelude.{
  ℕ, ◌+◌, ◌≡◌, refl, sym, ap, ◌∙◌, Bool, true, false, not, Option, none, some, List, [], ◌∷◌, ◌++◌,
  map, leb, ◌==◌, keep, length, All, All-append, arith, if◌then◌else◌,
}
use fpl_radar.Prelude.Sort.{sort_by, sort_by-perm, sum_by}
use fpl_radar.Winner.Inputs.{map_get, map_has}
use fpl_radar.Transfers.{
  Transfer, MemberTransfers, Tallied, TransferInput, made_in, member_of, add_manager,
  tally_managers, transfer_count, nothing_tallied, summarize_transfers,
}
use fpl_radar.Transfers.Tally.{
  moves, moves_of, with_player, counted_for, tally_all-moves, tally_all-moves_of, ranked-moves,
  ranked-moves_of,
}

transfer_count-append :
    (ms : List MemberTransfers) (m : MemberTransfers)
    → transfer_count (ms ++ m ∷ []) ≡ transfer_count ms + length m.transfers
unfolding transfer_count
transfer_count-append [] m = omega arith
transfer_count-append (x ∷ ms) m = omega (arith, transfer_count-append ms m)

sum-append :
    (f : MemberTransfers → ℕ) (ms : List MemberTransfers) (m : MemberTransfers)
    → sum_by f (ms ++ m ∷ []) ≡ sum_by f ms + f m
sum-append f [] m = omega arith
sum-append f (x ∷ ms) m = omega (arith, sum-append f ms m)

-- How often the managers moved a player, by the transfers that are listed for them.
abbrev pub listed_with : (Transfer → ℕ) → ℕ → List MemberTransfers → ℕ
listed_with f element ms = sum_by (λ m. with_player f element m.transfers) ms

-- The transfers of the gameweek, out of those that were loaded for a manager.
abbrev pub IsMade : TransferInput → MemberTransfers → Type 0
IsMade i m =
    (list : List Transfer) × (map_get m.entry_id i.transfers_by_entry ≡ some list)
    × Perm m.transfers (keep (λ t. t.event == i.event) list)

record IsTallied (i : TransferInput) (t : Tallied) : Type 0 where
  ins : moves t.ins ≡ transfer_count t.members
  outs : moves t.outs ≡ transfer_count t.members
  ins_of : (x : ℕ) → moves_of x t.ins ≡ listed_with (λ s. s.element_in) x t.members
  outs_of : (x : ℕ) → moves_of x t.outs ≡ listed_with (λ s. s.element_out) x t.members
  made : All (IsMade i) t.members

made_in-perm :
    (event : ℕ) (list : List Transfer)
    → Perm (made_in event list) (keep (λ t. t.event == event) list)
unfolding made_in
made_in-perm event list = sort_by-perm _ (keep (λ t. t.event == event) list)

add_manager-IsTallied :
    (i : TransferInput) (id : ℕ) (o : Option (List Transfer)) (t : Tallied)
    → map_get id i.transfers_by_entry ≡ o
    → IsTallied i t
    → IsTallied i (add_manager i id o t)
add_manager-IsTallied i id none t e c = record {
  ins = c.ins;
  outs = c.outs;
  ins_of = c.ins_of;
  outs_of = c.outs_of;
  made = c.made;
}
add_manager-IsTallied i id (some list) t e c =
    let made = made_in i.event list in
    let new = member_of i id made in
    let count = transfer_count-append t.members new in
    let side =
      λ (f : Transfer → ℕ) (x : ℕ). sum-append (λ m. with_player f x m.transfers) t.members new in
    record {
      ins = omega (arith, tally_all-moves (λ x. x.element_in) id made t.ins, c.ins, count);
      outs = omega (arith, tally_all-moves (λ x. x.element_out) id made t.outs, c.outs, count);
      ins_of = λ x. omega (
        arith,
        tally_all-moves_of (λ s. s.element_in) x id made t.ins,
        c.ins_of x,
        side (λ s. s.element_in) x,
      );
      outs_of = λ x. omega (
        arith,
        tally_all-moves_of (λ s. s.element_out) x id made t.outs,
        c.outs_of x,
        side (λ s. s.element_out) x,
      );
      made =
          All-append (IsMade i) t.members (new ∷ []) c.made
            ((list, e, made_in-perm i.event list), tt);
    }

tally_managers-IsTallied :
    (i : TransferInput) (ids : List ℕ) (t : Tallied)
    → IsTallied i t
    → IsTallied i (tally_managers i ids t)
unfolding tally_managers
tally_managers-IsTallied i [] t c = c
tally_managers-IsTallied i (id ∷ ids) t c =
    tally_managers-IsTallied i ids (add_manager i id (map_get id i.transfers_by_entry) t)
      (add_manager-IsTallied i id (map_get id i.transfers_by_entry) t refl c)

abbrev pub has_list : TransferInput → ℕ → Bool
has_list i id = map_has i.transfers_by_entry id

abbrev ids_of : List MemberTransfers → List ℕ
ids_of ms = map (λ m. m.entry_id) ms

ids_of-append :
    (ms : List MemberTransfers) (m : MemberTransfers)
    → ids_of (ms ++ m ∷ []) ≡ ids_of ms ++ m.entry_id ∷ []
ids_of-append [] m = refl
ids_of-append (x ∷ ms) m = ap (λ l. x.entry_id ∷ l) (ids_of-append ms m)

add_manager-ids :
    (i : TransferInput) (id : ℕ) (o : Option (List Transfer)) (t : Tallied) (xs ys : List ℕ)
    → let there : Bool = (elim o [ some w ↦ true | none ↦ false ]) in
      (ids_of (add_manager i id o t).members ++ xs
        ≡ ids_of t.members ++ (if there then id ∷ xs else xs))
      × ((add_manager i id o t).missing ++ ys ≡ t.missing ++ (if not there then id ∷ ys else ys))
add_manager-ids i id none t xs ys = (refl, append_assoc t.missing (id ∷ []) ys)
add_manager-ids i id (some list) t xs ys = (
  ap (λ l. l ++ xs) (ids_of-append t.members (member_of i id (made_in i.event list)))
      ∙ append_assoc (ids_of t.members) (id ∷ []) xs,
  refl,
)

-- Who is listed and who is missing, in the order of the loop.
tally_managers-ids :
    (i : TransferInput) (ids : List ℕ) (t : Tallied)
    → (ids_of (tally_managers i ids t).members ≡ ids_of t.members ++ keep (has_list i) ids)
      × ((tally_managers i ids t).missing ≡ t.missing ++ keep (λ id. not (has_list i id)) ids)
unfolding tally_managers
tally_managers-ids i [] t = (sym (append-nil (ids_of t.members)), sym (append-nil t.missing))
tally_managers-ids i (id ∷ ids) t =
    let o = map_get id i.transfers_by_entry in
    let (a, b) = tally_managers-ids i ids (add_manager i id o t) in
    let (c, d) =
      add_manager-ids i id o t (keep (has_list i) ids) (keep (λ x. not (has_list i x)) ids) in
    (a ∙ c, b ∙ d)

-- Every eligible manager whose transfers were loaded is listed, in order, and the others are reported as
-- missing. Those listed for a manager are his loaded transfers of the gameweek, in some order. For every
-- player, the managers who brought him in are counted as often as a listed transfer brings him in, and
-- those who let him go as often as one lets him go; and every listed transfer is counted once among the
-- players who came in and once among those who went out.
pub summarize_transfers_lem :
    (i : TransferInput)
    → let out = summarize_transfers i in
      (map (λ m. m.entry_id) out.members ≡ keep (has_list i) (sort_by leb i.eligible))
      × (out.missing_entry_ids ≡ keep (λ id. not (has_list i id)) (sort_by leb i.eligible))
      × All (IsMade i) out.members
      × ((element : ℕ)
          → (counted_for element out.players_in
              ≡ listed_with (λ t. t.element_in) element out.members)
            × (counted_for element out.players_out
                ≡ listed_with (λ t. t.element_out) element out.members))
      × (sum_by (λ x. x.count) out.players_in ≡ out.transfers)
      × (sum_by (λ x. x.count) out.players_out ≡ out.transfers)
unfolding summarize_transfers moves transfer_count moves_of
summarize_transfers_lem i =
    let ids = sort_by leb i.eligible in
    let t = tally_managers i ids nothing_tallied in
    let c =
      tally_managers-IsTallied i ids nothing_tallied
        (record { ins = refl; outs = refl; ins_of = λ x. refl; outs_of = λ x. refl; made = tt }) in
    let (listed, missing) = tally_managers-ids i ids nothing_tallied in
    (
      listed,
      missing,
      c.made,
      λ x. (ranked-moves_of x t.ins ∙ c.ins_of x, ranked-moves_of x t.outs ∙ c.outs_of x),
      ranked-moves t.ins ∙ c.ins,
      ranked-moves t.outs ∙ c.outs,
    )
