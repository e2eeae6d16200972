-- ===== src/Service/Tests/Created.antt =====
-- Customers and meters that are created and read back.
use metery.Prelude.{◌*◌, pos, none, some, ◌≡◌, refl}
use metery.Time.{day, truncate_second}
use metery.Store.Catalog
use metery.Service.Customers
use metery.Service.Features
use metery.Service.Customers.RoundTrip.{get_customer-create_customer}
use metery.Service.Features.RoundTrip.{get_meter-create_meter}
use metery.Store.Db.{new_ulid, now_second, try_modify, World, ok}
use metery.Service.Tests.{env, world}

abbrev zeta : Customers.Customer
zeta = record {
  id = "01A";
  key = "zeta";
  name = "Zeta";
  created_at = some (pos (30 * day));
  deactivated_at = none;
}

abbrev with_zeta : World
with_zeta = (Customers.create_customer env "zeta" "Zeta" world).1

creates_zeta : Customers.create_customer env "zeta" "Zeta" world ≡ (ok zeta, with_zeta)
unfolding Customers.create_customer Catalog.create_customer new_ulid now_second try_modify
    truncate_second
creates_zeta = refl

get_customer-create_customer_example :
    Customers.get_customer "zeta" with_zeta ≡ (ok (record zeta { created_at = none }), with_zeta)
get_customer-create_customer_example =
    get_customer-create_customer env "zeta" "Zeta" zeta world with_zeta creates_zeta refl

abbrev tokens : Features.CreateMeterRequest
tokens = record {
  slug = "tokens";
  name = "Tokens";
  aggregation = "sum";
  event_type = "completion";
  value_property = "tokens";
}

abbrev tokens_meter : Features.Meter
tokens_meter = record {
  id = "01A";
  slug = "tokens";
  name = "Tokens";
  aggregation = "sum";
  event_type = "completion";
  value_property = "tokens";
  created_at = pos (30 * day);
  archived_at = none;
}

abbrev with_tokens : World
with_tokens = (Features.create_meter env tokens world).1

creates_tokens : Features.create_meter env tokens world ≡ (ok tokens_meter, with_tokens)
unfolding Features.create_meter Catalog.create_meter new_ulid now_second try_modify truncate_second
creates_tokens = refl

get_meter-create_meter_example :
    Features.get_meter "tokens" with_tokens ≡ (ok tokens_meter, with_tokens)
get_meter-create_meter_example =
    get_meter-create_meter env tokens tokens_meter world with_tokens creates_tokens refl
