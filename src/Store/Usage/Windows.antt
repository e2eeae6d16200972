-- ===== src/Store/Usage/Windows.antt =====
-- Usage over adjacent windows, and events that are sent again.
use metery.Prelude.{
  ℕ, ◌+◌, pos, Bool, true, false, not, ◌&&◌, String, List, [], ◌∷◌, any, filter, length, ◌==◌,
  ==_refl, if◌then◌else◌, ◌≤ℤ◌, ◌≡◌, refl, arith, int_laws, ltb_ℤ→lt, lt→ltb_ℤ,
}
use metery.Time.{Time, before}
use metery.Store.Rows.{Event, Meter}
use metery.Store.Constraints.{same_event}
use metery.Store.Table.{insert_or_ignore}
use metery.Store.Table.Update.{any-insert_or_ignore}
use metery.Store.Db.{modify, Env, World, ok}
use metery.Store.Usage.{in_window, fetch_usage, stored_event, ingest_event}

-- What a window counts of one event.
abbrev hit : String → String → Time → Time → Event → ℕ
hit c k from to e = if in_window c k from to e then 1 else 0

before-later : (t x y : Time) → x ≤ℤ y → before t x ≡ true → before t y ≡ true
before-later t x y h e = lt→ltb_ℤ t y (omega (int_laws, h, ltb_ℤ→lt t x e))

-- The test of a window on an event: right source, not too early, early enough.
abbrev tally : Bool → Bool → Bool → ℕ
tally source early late = if source && (not early && late) then 1 else 0

split_test :
    (source px py pz : Bool)
    → (px ≡ true → py ≡ true)
    → (py ≡ true → pz ≡ true)
    → tally source px pz ≡ tally source px py + tally source py pz
split_test false px py pz xy yz = refl
split_test true false false pz xy yz = omega arith
split_test true false true pz xy yz = rw (yz refl) refl
split_test true true py pz xy yz = rw (xy refl) refl

split_window :
    (c k : String) (x y z : Time) (e : Event)
    → x ≤ℤ y
    → y ≤ℤ z
    → hit c k x z e ≡ hit c k x y e + hit c k y z e
split_window c k x y z e xy yz =
    let early : before e.time x ≡ true → before e.time y ≡ true = before-later e.time x y xy in
    let late : before e.time y ≡ true → before e.time z ≡ true = before-later e.time y z yz in
    split_test (e.customer == c && e.kind == k) _ _ _ early late

events_between :
    (c k : String) (x y z : Time) (events : List Event)
    → x ≤ℤ y
    → y ≤ℤ z
    → length (filter (in_window c k x z) events)
      ≡ length (filter (in_window c k x y) events) + length (filter (in_window c k y z) events)
events_between c k x y z [] xy yz = refl
events_between c k x y z (e ∷ es) xy yz =
    let rest = events_between c k x y z es xy yz in
    ground (arith, rest, split_window c k x y z e xy yz)

-- For a meter whose aggregation is count and instants x, y, z in order, `FetchUsage` succeeds on
-- both windows [x, y) and [y, z) and on [x, z), changes nothing, and the usage of the whole is
-- the sum of the two: no event is lost or counted twice at the boundary.
pub fetch_usage-adjacent :
    (env : Env) (c : String) (m : Meter) (x y z : Time) (w : World)
    → (m.aggregation == "count") ≡ true
    → x ≤ℤ y
    → y ≤ℤ z
    → (n k : ℕ) × (fetch_usage env c m x y w ≡ (ok (pos n), w))
      × (fetch_usage env c m y z w ≡ (ok (pos k), w))
      × (fetch_usage env c m x z w ≡ (ok (pos (n + k)), w))
unfolding fetch_usage
fetch_usage-adjacent env c m x y z w counts xy yz = (
  length (filter (in_window c m.event_type x y) w.db.events),
  length (filter (in_window c m.event_type y z) w.db.events),
  rw counts refl,
  rw counts refl,
  rw (counts, events_between c m.event_type x y z w.db.events xy yz) refl,
)

-- For any world and two events with one id, `IngestEvent` of the second directly after the first
-- succeeds and changes nothing.
pub ingest_event-twice :
    (e again : Event) (w : World)
    → again.id ≡ e.id
    → let w' = (ingest_event e w).1 in ingest_event again w' ≡ (ok tt, w')
unfolding ingest_event modify
ingest_event-twice e again w same =
    let there : any (same_event (stored_event again))
          (insert_or_ignore same_event (stored_event e) w.db.events)
        ≡ true =
      rw same (any-insert_or_ignore same_event (stored_event e) (==_refl e.id) w.db.events) in
    rw there refl
