-- ===== src/Service/Plans/Created.antt =====
-- `GetPlan` after `CreatePlan`, of internal/service/plan.go.
use mathlib.Core.Option
use metery.Prelude.{◌+◌, false, some, String, any, ◌==◌, ◌≡◌, refl, sym, ap, ◌∙◌, some_inj}
use metery.Time.{truncate_second}
use metery.Store.Rows.{PlanRow}
use metery.Store.Db.{
  Env, World, Result, ok, StoreError, bind_ok, or_fail, new_ulid, now_second, ◌>>=◌,
}
use metery.Store.Db.Keeps.{Unchanged}
use metery.Store.Plans
use metery.Store.Plans.Created.{create_plan-get_plan}
use metery.Service.Rpc.{
  Codec, RpcError, not_found, refused, store_failed, internal, or_else, or_internal,
  plan_entries_to_json, plan_entries_from_json,
}
use metery.Service.Rpc.Succeeds.{or_else_ok, or_fail_ok}
use metery.Service.Plans.{
  Plan, CreatePlanRequest, check_features, new_plan, plan_row_to_proto, insert_plan, store_plan,
  create_plan, get_plan, to_plan,
}
use metery.Service.Kept.Catalog.{check_features-Keeps}
use metery.Service.Plans.RoundTrip.{ReadsBack, plan_entries_from_json-to_json}

module _ {M : Type 0} (codec : Codec M) where
  insert_plan-get_plan :
      (p : PlanRow) (v : Plan M) (w w' : World)
      → Plans.stored_plan p ≡ p
      → any (λ q. q.id == p.slug) w.db.plans ≡ false
      → insert_plan codec p w ≡ (ok v, w')
      → (plan_row_to_proto codec p ≡ some v) × (get_plan codec p.slug w' ≡ (ok v, w'))
  unfolding insert_plan get_plan
  insert_plan-get_plan p v w w' bare k e =
      let (a, w1, wrote, answered) =
        bind_ok (or_internal (Plans.create_plan p))
          (λ _. or_fail (plan_row_to_proto codec p) (internal "entries")) v w w' e in
      let stored = or_else_ok (Plans.create_plan p) store_failed a w w1 wrote in
      let (decodes, same) =
        or_fail_ok (plan_row_to_proto codec p) (internal "entries") v w1 w' answered in
      let found : Plans.get_plan p.slug w' ≡ (ok p, w') =
        rw (← same) (create_plan-get_plan p w w1 a stored k ∙ ap (λ q. (ok q, w1)) bare) in
      let then_answer : Result StoreError PlanRow × World → Result RpcError (Plan M) × World = λ s.
        (or_else (λ _. s) (λ _. refused not_found "plan not found") >>= λ p.
        or_fail (plan_row_to_proto codec p) (internal "entries"))
          w' in
      (decodes, ap then_answer found ∙ rw decodes refl)

  store_plan-get_plan :
      (env : Env) (req : CreatePlanRequest M) (text : String) (v : Plan M) (w w' : World)
      → any (λ q. q.id == req.slug) w.db.plans ≡ false
      → store_plan codec env req text w ≡ (ok v, w')
      → (p : PlanRow) × (p.entries ≡ text)
        × (p.slug ≡ req.slug)
        × (plan_row_to_proto codec p ≡ some v)
        × (get_plan codec req.slug w' ≡ (ok v, w'))
  unfolding store_plan new_ulid now_second
  store_plan-get_plan env req text v w w' k e =
      let p : PlanRow =
        new_plan codec req text (env.ulid w.serial) (truncate_second (env.clock w.reads)) in
      let w1 : World = record w { serial = w.serial + 1; reads = w.reads + 1 } in
      let (decodes, found) = insert_plan-get_plan p v w1 w' refl k e in
      (p, refl, refl, decodes, found)

  module _ (back : ReadsBack codec) where
    -- For a codec that reads an encoded entry, the empty array and an array of encoded
    -- entries back, if `CreatePlan` answers with a plan, and no plan had the new slug as its
    -- id before, then `GetPlan` of the slug answers with the same plan and changes nothing,
    -- and the plan has the slug and the entries of the request.
    pub get_plan-create_plan :
        (env : Env) (req : CreatePlanRequest M) (v : Plan M) (w w' : World)
        → any (λ q. q.id == req.slug) w.db.plans ≡ false
        → create_plan codec env req w ≡ (ok v, w')
        → (get_plan codec req.slug w' ≡ (ok v, w'))
          × (v.slug ≡ req.slug)
          × (v.entries ≡ req.entries)
    unfolding create_plan plan_row_to_proto
    get_plan-create_plan env req v w w' k e =
        let encoded = or_fail (plan_entries_to_json codec req.entries) (internal "entries") in
        let (a, w1, checked, rest) =
          bind_ok (check_features req.entries) (λ _. encoded >>= store_plan codec env req) v w w'
            e in
        let (text, w2, encodes, stores) = bind_ok encoded (store_plan codec env req) v w1 w' rest in
        let (is_text, same) =
          or_fail_ok (plan_entries_to_json codec req.entries) (internal "entries") text w1 w2
            encodes in
        let unchanged : w.db ≡ w2.db =
          (check_features-Keeps Unchanged req.entries).kept w
          ∙ ap (λ s. s.1.db) checked
          ∙ ap (λ x. x.db) same in
        let (p, has_text, has_slug, decodes, found) =
          store_plan-get_plan env req text v w2 w' (rw (← unchanged) k) stores in
        let entries : plan_entries_from_json codec p.entries ≡ some req.entries =
          rw has_text (plan_entries_from_json-to_json codec back req.entries text is_text) in
        let answer : to_plan codec p req.entries ≡ v =
          some_inj (sym (ap (λ o. Option.map (to_plan codec p) o) entries) ∙ decodes) in
        (found, rw (← answer) has_slug, rw (← answer) refl)
