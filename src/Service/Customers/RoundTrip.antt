-- ===== src/Service/Customers/RoundTrip.antt =====
-- `GetCustomer` after `CreateCustomer`, of internal/service/customer.go.
use metery.Prelude.{◌+◌, false, none, some, String, any, find?, ◌==◌, ◌≡◌, sym, ap, ◌∙◌}
use metery.Time.{truncate_second}
use metery.Store.Rows.{Customer as CustomerRow}
use metery.Store.Constraints.{same_customer}
use metery.Store.Table.Update.{find?-named}
use metery.Store.Db.{
  Env, World, ok, ok_inj, no_rows, bind_ok, try_modify_ok, or_fail, pure, ◌>>=◌, new_ulid,
  now_second,
}
use metery.Store.Db.Inserts.{inserted}
use metery.Store.Catalog.{names_customer, stored_customer}
use metery.Store.Catalog
use metery.Service.Rpc.{store_failed, or_else, or_internal}
use metery.Service.Rpc.Succeeds.{or_else_ok}
use metery.Service.Customers.{Customer, create_customer, get_customer, not_found_or_internal}

-- A stored customer is the row that its key names.
create_customer-found :
    (c : CustomerRow) (w w' : World) (a : Unit {0})
    → Catalog.create_customer c w ≡ (ok a, w')
    → any (λ q. q.id == c.key) w.db.customers ≡ false
    → find? (names_customer c.key) w'.db.customers ≡ some (stored_customer c)
unfolding Catalog.create_customer
create_customer-found c w w' a e k =
    let (after, r, put) =
      inserted same_customer (stored_customer c) w.db.customers
        (λ rows. record w.db { customers = rows }) w'.db (try_modify_ok _ w w' a e) in
    let found = find?-named (λ q. q.id) (λ q. q.key) (stored_customer c) w.db.customers after r k in
    ap (λ d. find? (names_customer c.key) d.customers) (sym put) ∙ found

-- For any environment, key, name and world, if `CreateCustomer` answers with a customer, and no
-- customer had the new key as its id before, then `GetCustomer` of the key answers with the same
-- customer but without the time of creation, and changes nothing.
pub get_customer-create_customer :
    (env : Env) (key name : String) (v : Customer) (w w' : World)
    → create_customer env key name w ≡ (ok v, w')
    → any (λ q. q.id == key) w.db.customers ≡ false
    → get_customer key w' ≡ (ok (record v { created_at = none }), w')
unfolding create_customer get_customer new_ulid now_second Catalog.get_customer
get_customer-create_customer env key name v w w' e k =
    let c : CustomerRow = record {
      id = env.ulid w.serial;
      key = key;
      name = name;
      metadata = none;
      created_at = truncate_second (env.clock w.reads);
      deactivated_at = none;
    } in
    let made : Customer = record {
      id = c.id;
      key = key;
      name = name;
      created_at = some c.created_at;
      deactivated_at = none;
    } in
    let w1 : World = record w { serial = w.serial + 1; reads = w.reads + 1 } in
    let (a, w2, wrote, answered) =
      bind_ok (or_internal (Catalog.create_customer c)) (λ _. pure made) v w1 w' e in
    let found =
      create_customer-found c w1 w2 a
        (or_else_ok (Catalog.create_customer c) store_failed a w1 w2 wrote) k in
    let answer : made ≡ v = ok_inj (ap (λ s. s.0) answered) in
    let same : w2 ≡ w' = ap (λ s. s.1) answered in
    let brief : CustomerRow → Customer = λ q. record {
      id = q.id;
      key = q.key;
      name = q.name;
      created_at = none;
      deactivated_at = none;
    } in
    let read =
      ap
        (λ o.
          (or_else (λ (x : World). or_fail o no_rows w2) not_found_or_internal >>= λ q.
          pure (brief q))
            w2)
        found in
    ap (λ x. get_customer key x) (sym same)
    ∙ read
    ∙ ap (λ (x : Customer). (ok (record x { created_at = none }), w2)) answer
    ∙ ap (λ x. (ok (record v { created_at = none }), x)) same
