-- ===== src/Store/Plans/Created.antt =====
-- The plan of a slug after `CreatePlan` of the store.
use metery.Prelude.{false, any, find?, ◌==◌, ◌≡◌, sym, ap, ◌∙◌}
use metery.Store.Rows.{PlanRow}
use metery.Store.Constraints.{same_plan}
use metery.Store.Table.Update.{find?-named}
use metery.Store.Db.{World, ok, no_rows, or_fail, try_modify_ok}
use metery.Store.Db.Inserts.{inserted}
use metery.Store.Plans.{names_plan, stored_plan, create_plan, get_plan}

-- A created plan is the row that its slug names.
pub create_plan-get_plan :
    (p : PlanRow) (w w' : World) (a : Unit {0})
    → create_plan p w ≡ (ok a, w')
    → any (λ q. q.id == p.slug) w.db.plans ≡ false
    → get_plan p.slug w' ≡ (ok (stored_plan p), w')
unfolding create_plan get_plan
create_plan-get_plan p w w' a e k =
    let (after, r, put) =
      inserted same_plan (stored_plan p) w.db.plans (λ rows. record w.db { plans = rows }) w'.db
        (try_modify_ok _ w w' a e) in
    let found = find?-named (λ q. q.id) (λ q. q.slug) (stored_plan p) w.db.plans after r k in
    ap (λ o. or_fail o no_rows w') (ap (λ d. find? (names_plan p.slug) d.plans) (sym put) ∙ found)
