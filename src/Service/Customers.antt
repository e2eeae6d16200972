-- ===== src/Service/Customers.antt =====
-- internal/service/customer.go: the handlers of customers.
pub mod RoundTrip
use metery.Prelude.{
  ℤ, pos, ltb_ℤ, Bool, ◌||◌, Option, none, some, String, List, map, filter, if◌then◌else◌,
}
use metery.Time.{Time}
use metery.Store.Rows.{Customer as CustomerRow}
use metery.Store.Table.{is_none}
use metery.Store.Db.{Env, StoreError, no_rows, Action, ◌>>=◌, ◌>>◌, pure, now_second, new_ulid}
use metery.Store.Catalog
use metery.Service.Rpc.{
  not_found, RpcError, refused_with, store_failed, or_else, or_refuse, or_internal, get_or,
}

-- The `Customer` of the API.
pub record Customer : Type 0 where
  pub id : String
  pub key : String
  pub name : String
  pub created_at : Option Time
  pub deactivated_at : Option Time

pub record ListCustomersRequest : Type 0 where
  pub include_deactivated : Bool
  pub limit : Option ℤ
  pub after : Option String

unfoldable pub customer_to_proto : CustomerRow → Customer
customer_to_proto c = record {
  id = c.id;
  key = c.key;
  name = c.name;
  created_at = some c.created_at;
  deactivated_at = c.deactivated_at;
}

unfoldable pub create_customer : Env → String → String → Action RpcError Customer
create_customer env key name = do
  id ← new_ulid env
  created ← now_second env
  let c : CustomerRow = record {
    id = id;
    key = key;
    name = name;
    metadata = none;
    created_at = created;
    deactivated_at = none;
  }
  or_internal (Catalog.create_customer c)
  pure (record {
    id = c.id;
    key = c.key;
    name = c.name;
    created_at = some c.created_at;
    deactivated_at = none;
  })

-- No row is CodeNotFound with the store's error, and anything else is CodeInternal.
unfoldable pub not_found_or_internal : StoreError → RpcError
not_found_or_internal no_rows = refused_with not_found no_rows
not_found_or_internal e = store_failed e

-- The answer has neither time.
unfoldable pub get_customer : String → Action RpcError Customer
get_customer id_or_key = do
  c ← or_else (Catalog.get_customer id_or_key) not_found_or_internal
  pure (record { id = c.id; key = c.key; name = c.name; created_at = none; deactivated_at = none })

-- A limit that is not positive is no limit given.
unfoldable pub customer_limit : Option ℤ → ℤ
customer_limit none = pos 100
customer_limit (some n) = if ltb_ℤ (pos 0) n then n else pos 100

-- Deactivated customers are left out after the page has been read.
unfoldable pub list_customers : ListCustomersRequest → Action RpcError (List Customer)
list_customers req = do
  cs ← or_internal (Catalog.list_customers (customer_limit req.limit) (get_or req.after ""))
  pure
      (map customer_to_proto (filter (λ c. req.include_deactivated || is_none c.deactivated_at) cs))

unfoldable pub update_customer : String → String → Action RpcError Customer
update_customer id_or_key name = do
  c ← or_refuse (Catalog.update_customer id_or_key name) not_found "customer not found"
  pure (customer_to_proto c)

unfoldable pub deactivate_customer : Env → String → Action RpcError (Unit {0})
deactivate_customer env id_or_key = do or_internal (Catalog.deactivate_customer env id_or_key)
