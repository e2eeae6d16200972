-- ===== src/Service/Features.antt =====
-- internal/service/meter.go and internal/service/feature.go: the handlers of meters and features.
pub mod RoundTrip
use metery.Prelude.{
  ℤ, pos, Bool, Option, none, some, String, List, [], ◌∷◌, map, ◌==◌, if◌then◌else◌,
}
use metery.Time.{Time}
use metery.Store.Rows.{Meter as MeterRow, Feature as FeatureRow}
use metery.Store.Db.{Env, Action, ◌>>=◌, ◌>>◌, pure, now_second, new_ulid}
use metery.Store.Catalog
use metery.Service.Rpc.{
  not_found, invalid_argument, RpcError, or_refuse, or_internal, or_nil, get_or,
}

-- The `Meter` of the API, with an empty text for no value property.
pub record Meter : Type 0 where
  pub id : String
  pub slug : String
  pub name : String
  pub aggregation : String
  pub event_type : String
  pub value_property : String
  pub created_at : Time
  pub archived_at : Option Time

pub record CreateMeterRequest : Type 0 where
  pub slug : String
  pub name : String
  pub aggregation : String
  pub event_type : String
  pub value_property : String

-- The listings of meters and of features.
pub record ListRequest : Type 0 where
  pub include_archived : Bool
  pub limit : Option ℤ
  pub after : Option String

unfoldable pub meter_to_proto : MeterRow → Meter
meter_to_proto m = record {
  id = m.id;
  slug = m.slug;
  name = m.name;
  aggregation = m.aggregation;
  event_type = m.event_type;
  value_property = get_or m.value_property "";
  created_at = m.created_at;
  archived_at = m.archived_at;
}

unfoldable pub create_meter : Env → CreateMeterRequest → Action RpcError Meter
create_meter env req = do
  id ← new_ulid env
  created ← now_second env
  let m : MeterRow = record {
    id = id;
    slug = req.slug;
    name = req.name;
    aggregation = req.aggregation;
    event_type = req.event_type;
    value_property = if req.value_property == "" then none else some req.value_property;
    created_at = created;
    archived_at = none;
  }
  or_internal (Catalog.create_meter m)
  pure (record {
    id = m.id;
    slug = m.slug;
    name = m.name;
    aggregation = m.aggregation;
    event_type = m.event_type;
    value_property = get_or m.value_property "";
    created_at = m.created_at;
    archived_at = none;
  })

unfoldable pub get_meter : String → Action RpcError Meter
get_meter id_or_slug = do
  m ← or_refuse (Catalog.get_meter id_or_slug) not_found "meter not found"
  pure (meter_to_proto m)

unfoldable pub list_meters : ListRequest → Action RpcError (List Meter)
list_meters req = do
  ms ←
      or_internal (
        Catalog.list_meters req.include_archived (get_or req.limit (pos 100)) (get_or req.after ""))
  pure (map meter_to_proto ms)

unfoldable pub archive_meter : Env → String → Action RpcError (Unit {0})
archive_meter env id_or_slug = do or_internal (Catalog.archive_meter env id_or_slug)

-- The `Feature` of the API, with an empty text for no meter.
pub record Feature : Type 0 where
  pub id : String
  pub slug : String
  pub name : String
  pub meter_slug : String
  pub created_at : Time
  pub archived_at : Option Time

pub record CreateFeatureRequest : Type 0 where
  pub slug : String
  pub name : String
  pub meter_slug : String

abbrev pub slug_or_empty : Option MeterRow → String
slug_or_empty none = ""
slug_or_empty (some m) = m.slug

-- The slug of a feature's meter, empty where there is none or it cannot be read.
unfoldable pub meter_slug_of : Option String → Action RpcError String
meter_slug_of none = pure ""
meter_slug_of (some meter_id) = do m ← or_nil (Catalog.get_meter meter_id); pure (slug_or_empty m)

unfoldable pub feature_to_proto : FeatureRow → Action RpcError Feature
feature_to_proto f = do
  meter_slug ← meter_slug_of f.meter_id
  pure (record {
    id = f.id;
    slug = f.slug;
    name = f.name;
    meter_slug = meter_slug;
    created_at = f.created_at;
    archived_at = f.archived_at;
  })

-- The meter that a new feature names: none for an empty text.
unfoldable pub named_meter : String → Action RpcError (Option MeterRow)
named_meter meter_slug =
    if meter_slug == ""
    then pure none
    else or_refuse (Catalog.get_meter meter_slug) invalid_argument "meter not found"
      >>= (λ m. pure (some m))

abbrev pub id_of : Option MeterRow → Option String
id_of none = none
id_of (some m) = some m.id

unfoldable pub create_feature : Env → CreateFeatureRequest → Action RpcError Feature
create_feature env req = do
  m ← named_meter req.meter_slug
  id ← new_ulid env
  created ← now_second env
  let f : FeatureRow = record {
    id = id;
    slug = req.slug;
    name = req.name;
    meter_id = id_of m;
    created_at = created;
    archived_at = none;
  }
  or_internal (Catalog.create_feature f)
  pure (record {
    id = f.id;
    slug = f.slug;
    name = f.name;
    meter_slug = slug_or_empty m;
    created_at = f.created_at;
    archived_at = none;
  })

unfoldable pub get_feature : String → Action RpcError Feature
get_feature id_or_slug = do
  f ← or_refuse (Catalog.get_feature id_or_slug) not_found "feature not found"
  feature_to_proto f

unfoldable pub features_to_proto : List FeatureRow → Action RpcError (List Feature)
features_to_proto [] = pure []
features_to_proto (f ∷ fs) = do
  feature ← feature_to_proto f
  rest ← features_to_proto fs
  pure (feature ∷ rest)

unfoldable pub list_features : ListRequest → Action RpcError (List Feature)
list_features req = do
  fs ← or_internal (
      Catalog.list_features req.include_archived (get_or req.limit (pos 100)) (get_or req.after ""))
  features_to_proto fs

unfoldable pub archive_feature : Env → String → Action RpcError (Unit {0})
archive_feature env id_or_slug = do or_internal (Catalog.archive_feature env id_or_slug)
