-- ===== src/Normalize/Replay.antt =====
-- A repeated synchronisation of the same responses (server/src/sync/normalize.js).
use fpl_radar.Prelude.{
  ℕ, ◌≡◌, refl, ap, ◌∙◌, Bool, true, false, Option, none, some, List, [], ◌∷◌, map, Memᴰ,
  if◌then◌else◌, leb,
}
use fpl_radar.Prelude.Sort.{sort_by, sort_by-mem}
use fpl_radar.Winner.Inputs.{map_get}
use fpl_radar.Normalize.Lookup.{map_get-member}
use fpl_radar.Normalize.Events.{
  FplFixture, FplEvent, SyncedEvent, stored_at, first_observed, event_of, build_events,
}

-- What is stored of the events of a build.
abbrev pub stored_of : List SyncedEvent → List (ℕ × Option ℕ)
stored_of es = map (λ e. (e.gw, e.data_checked_observed_at)) es

-- Events of one id are one event.
abbrev pub IdsIdentify : List FplEvent → Type 0
IdsIdentify es = (x y : FplEvent) → Memᴰ x es → Memᴰ y es → x.id ≡ y.id → x ≡ y

map_congr :
    {A B : Type 0} (f g : A → B) (xs : List A)
    → ((x : A) → Memᴰ x xs → f x ≡ g x)
    → map f xs ≡ map g xs
map_congr f g [] h = refl
map_congr f g (x ∷ xs) h =
    let a = h x (Memᴰ.head refl) in let b = map_congr f g xs (λ y m. h y (Memᴰ.tail m)) in cc

stored_of-map :
    (ev : FplEvent → SyncedEvent) (es : List FplEvent)
    → ((e : FplEvent) → (ev e).gw ≡ e.id)
    → stored_of (map ev es) ≡ map (λ e. (e.id, (ev e).data_checked_observed_at)) es
stored_of-map ev [] h = refl
stored_of-map ev (e ∷ es) h = let a = h e in let b = stored_of-map ev es h in cc

observed_twice :
    (checked : Bool) (prev : Option ℕ) (at later : ℕ)
    → (if checked
        then first_observed (if checked then first_observed prev at else none) later
        else none)
      ≡ (if checked then first_observed prev at else none)
observed_twice false prev at later = refl
observed_twice true none at later = refl
observed_twice true (some p) at later = refl

event_of-replay :
    (fixtures : List FplFixture) (now at later : ℕ) (existing : List (ℕ × Option ℕ))
    (es : List FplEvent) (e : FplEvent)
    → IdsIdentify es
    → Memᴰ e es
    → event_of fixtures now later (stored_of (map (event_of fixtures now at existing) es)) e
      ≡ event_of fixtures now at existing e
unfolding event_of
event_of-replay fixtures now at later existing es e u m =
    let ev = event_of fixtures now at existing in
    let g =
      ap (map_get e.id) (stored_of-map ev es (λ x. refl))
      ∙ map_get-member (λ x. x.id) (λ x. (ev x).data_checked_observed_at) es e u m in
    let s : stored_at e.id (stored_of (map ev es)) ≡ (ev e).data_checked_observed_at =
      ap (λ o. elim o [ none ↦ none | some a ↦ a ]) g in
    ap (λ o. record (ev e) { data_checked_observed_at = o })
      (ap (λ o. if e.data_checked then first_observed o later else none) s
        ∙ observed_twice e.data_checked (stored_at e.id existing) at later)

-- A synchronisation that sees the same events and fixtures again, with the events that it stored, and
-- derives their states at the same instant, builds the same events, whenever it observes them: the
-- instant at which the check of a gameweek was first observed is kept.
pub build_events_replay :
    (events : List FplEvent) (fixtures : List FplFixture) (now at later : ℕ)
    (existing : List (ℕ × Option ℕ))
    → IdsIdentify events
    → build_events events fixtures now later
        (stored_of (build_events events fixtures now at existing).events)
      ≡ build_events events fixtures now at existing
unfolding build_events
build_events_replay events fixtures now at later existing u =
    let sorted = sort_by (λ a b. leb a.id b.id) events in
    let v : IdsIdentify sorted = λ x y mx my.
      u x y (sort_by-mem (λ a b. leb a.id b.id) events mx)
        (sort_by-mem (λ a b. leb a.id b.id) events my) in
    ap (λ es. record (build_events events fixtures now at existing) { events = es })
      (map_congr _ _ sorted (λ e m. event_of-replay fixtures now at later existing sorted e v m))
