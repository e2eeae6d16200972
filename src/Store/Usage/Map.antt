-- ===== src/Store/Usage/Map.antt =====
-- The table of events as a map from ids to events.
use metery.Prelude.{
  true, false, Option, none, some, String, List, [], ◌∷◌, ◌++◌, any, find?, ◌==◌, eq_iff,
  if◌then◌else◌, ◌≡◌, refl, sym, ap, ◌∙◌, arith, Bool-cases, inl, inr,
}
use metery.Store.Rows.{Event}
use metery.Store.Db.{World, modify}
use metery.Store.Constraints.{same_event}
use metery.Store.Usage.{stored_event, ingest_event}

-- The event that the table has under an id.
abbrev pub event_of : List Event → String → Option Event
event_of events id = find? (λ e. e.id == id) events

abbrev or_new : Event → String → Option Event → Option Event
or_new e id none = if e.id == id then some e else none
or_new e id (some old) = some old

-- What is promised of an event that comes in: it is there from then on, not yet processed, unless
-- its id was.
abbrev pub put_new : Event → (String → Option Event) → String → Option Event
put_new e m id = or_new (record e { processed_at = none }) id (m id)

-- A sequence of events, the first one first.
abbrev pub put_all : List Event → (String → Option Event) → String → Option Event
put_all [] m = m
put_all (e ∷ es) m = put_all es (put_new e m)

abbrev pub ingest_all : List Event → World → World
ingest_all [] w = w
ingest_all (e ∷ es) w = ingest_all es (ingest_event e w).1

event_of-append :
    (e : Event) (id : String) (events : List Event)
    → event_of (events ++ e ∷ []) id ≡ or_new e id (event_of events id)
event_of-append e id [] = refl
event_of-append e id (x ∷ events) = elim (Bool-cases (x.id == id)) [
  | inl here ↦ rw here refl
  | inr other ↦ rw other (event_of-append e id events)
]

-- Under an id that has an event already nothing is put.
or_new_there :
    (e : Event) (id : String) (events : List Event)
    → any (same_event e) events ≡ true
    → or_new e id (event_of events id) ≡ event_of events id
or_new_there e id [] h = absurd (ground (arith, h))
or_new_there e id (x ∷ events) h = elim (Bool-cases (x.id == id)) [
  | inl here ↦ rw here refl
  | inr other ↦ elim (Bool-cases (same_event e x)) [
    | inr apart ↦ rw other (or_new_there e id events (ground (arith, h, apart)))
    | inl same ↦
        let late : (e.id == id) ≡ false = rw ((eq_iff e.id x.id).0 same) other in
        rw other (kept late (event_of events id))
  ]
]
  where
    kept : (e.id == id) ≡ false → (o : Option Event) → or_new e id o ≡ o
    kept late none = rw late refl
    kept late (some old) = refl

ingest_event-or_new :
    (e : Event) (w : World) (id : String)
    → event_of (ingest_event e w).1.db.events id ≡ put_new e (event_of w.db.events) id
unfolding ingest_event modify
ingest_event-or_new e w id = elim (Bool-cases (any (same_event e) w.db.events)) [
  | inl there ↦ rw there (sym (or_new_there (stored_event e) id w.db.events there))
  | inr new ↦ rw new (event_of-append (stored_event e) id w.db.events)
]

put_all-cong :
    (es : List Event) (m m' : String → Option Event)
    → ((id : String) → m id ≡ m' id)
    → (id : String) → put_all es m id ≡ put_all es m' id
put_all-cong [] m m' h id = h id
put_all-cong (e ∷ es) m m' h id =
    put_all-cong es (put_new e m) (put_new e m') (λ i. ap (or_new (stored_event e) i) (h i)) id

-- For any sequence of events, world and id, the event that the table has under the id after
-- `IngestEvent` of each in turn is the one that a map from ids to events has, in which each event
-- is put, as one that is not processed yet, unless its id has one: the table implements a map in
-- which the first event of an id stays.
pub ingest_event-put_new :
    (es : List Event) (w : World) (id : String)
    → event_of (ingest_all es w).db.events id ≡ put_all es (event_of w.db.events) id
ingest_event-put_new [] w id = refl
ingest_event-put_new (e ∷ es) w id =
    ingest_event-put_new es (ingest_event e w).1 id
    ∙ put_all-cong es (event_of (ingest_event e w).1.db.events) (put_new e (event_of w.db.events))
        (ingest_event-or_new e w) id
