-- ===== src/Service/Features/RoundTrip.antt =====
-- `GetMeter` after `CreateMeter`, of internal/service/meter.go.
use metery.Prelude.{
  ◌+◌, false, none, some, any, find?, ◌==◌, if◌then◌else◌, ◌≡◌, sym, ap, ◌∙◌, Bool-cases, inl, inr,
  none≢some,
}
use metery.Time.{truncate_second}
use metery.Store.Rows.{Meter as MeterRow}
use metery.Store.Constraints.{same_meter, is_aggregation}
use metery.Store.Table.Update.{find?-named}
use metery.Store.Db.{
  Env, World, ok, ok_inj, no_rows, bind_ok, try_modify_ok, or_fail, pure, ◌>>=◌, new_ulid,
  now_second,
}
use metery.Store.Db.Inserts.{inserted}
use metery.Store.Catalog.{names_meter, stored_meter}
use metery.Store.Catalog
use metery.Service.Rpc.{not_found, refused, store_failed, or_else, or_internal}
use metery.Service.Rpc.Succeeds.{or_else_ok}
use metery.Service.Features.{Meter, CreateMeterRequest, meter_to_proto, create_meter, get_meter}

-- A stored meter is the row that its slug names.
create_meter-found :
    (m : MeterRow) (w w' : World) (a : Unit {0})
    → Catalog.create_meter m w ≡ (ok a, w')
    → any (λ q. q.id == m.slug) w.db.meters ≡ false
    → find? (names_meter m.slug) w'.db.meters ≡ some (stored_meter m)
unfolding Catalog.create_meter
create_meter-found m w w' a e k = elim (Bool-cases (is_aggregation m.aggregation)) [
  | inr unknown ↦ absurd (none≢some (rw unknown at (try_modify_ok _ w w' a e)))
  | inl known ↦
      let (after, r, put) =
        inserted same_meter (stored_meter m) w.db.meters (λ rows. record w.db { meters = rows })
          w'.db (rw known at (try_modify_ok _ w w' a e)) in
      let found = find?-named (λ q. q.id) (λ q. q.slug) (stored_meter m) w.db.meters after r k in
      ap (λ d. find? (names_meter m.slug) d.meters) (sym put) ∙ found
]

-- For any environment, request and world, if `CreateMeter` answers with a meter, and no meter had
-- the new slug as its id before, then `GetMeter` of the slug answers with the same meter, in
-- every field, and changes nothing.
pub get_meter-create_meter :
    (env : Env) (req : CreateMeterRequest) (v : Meter) (w w' : World)
    → create_meter env req w ≡ (ok v, w')
    → any (λ q. q.id == req.slug) w.db.meters ≡ false
    → get_meter req.slug w' ≡ (ok v, w')
unfolding create_meter get_meter new_ulid now_second meter_to_proto Catalog.get_meter
get_meter-create_meter env req v w w' e k =
    let m : MeterRow = record {
      id = env.ulid w.serial;
      slug = req.slug;
      name = req.name;
      aggregation = req.aggregation;
      event_type = req.event_type;
      value_property = if req.value_property == "" then none else some req.value_property;
      created_at = truncate_second (env.clock w.reads);
      archived_at = none;
    } in
    let w1 : World = record w { serial = w.serial + 1; reads = w.reads + 1 } in
    let (a, w2, wrote, answered) =
      bind_ok (or_internal (Catalog.create_meter m)) (λ _. pure (meter_to_proto m)) v w1 w' e in
    let found =
      create_meter-found m w1 w2 a (or_else_ok (Catalog.create_meter m) store_failed a w1 w2 wrote)
        k in
    let answer : meter_to_proto m ≡ v = ok_inj (ap (λ s. s.0) answered) in
    let same : w2 ≡ w' = ap (λ s. s.1) answered in
    let read =
      ap
        (λ o.
          (or_else (λ (x : World). or_fail o no_rows w2) (λ _. refused not_found "meter not found")
              >>= λ q. pure (meter_to_proto q))
            w2)
        found in
    ap (λ x. get_meter req.slug x) (sym same)
    ∙ read
    ∙ ap (λ x. (ok x, w2)) answer
    ∙ ap (λ x. (ok v, x)) same
