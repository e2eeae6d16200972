-- ===== src/Service/Plans.antt =====
-- internal/service/plan.go: the handlers of plans.
pub mod RoundTrip
pub mod Created
mod Tests
use mathlib.Core.Option
use Prim.Native.String.{◌++◌ as str_append}
use metery.Prelude.{ℤ, pos, Bool, Option, none, some, String, List, [], ◌∷◌}
use metery.Time.{Time}
use metery.Store.Rows.{PlanRow}
use metery.Store.Db.{Env, Action, ◌>>=◌, ◌>>◌, pure, or_fail, now_second, new_ulid}
use metery.Store.Catalog.{get_feature}
use metery.Store.Plans
use metery.Service.Rpc.{
  not_found, invalid_argument, RpcError, internal, or_refuse, or_internal, get_or, PlanEntry, Codec,
  metadata_text, each, plan_entries_from_json, plan_entries_to_json,
}

-- `Recurrence`: the interval of a recurring plan.
pub record Recurrence : Type 0 where
  pub interval : String
  pub anchor : Option Time

-- The `Plan` of the API.
pub record Plan (M : Type 0) : Type 0 where
  pub id : String
  pub slug : String
  pub name : String
  pub entries : List PlanEntry
  pub recurrence : Option Recurrence
  pub created_at : Time
  pub archived_at : Option Time
  pub metadata : Option M

pub record CreatePlanRequest (M : Type 0) : Type 0 where
  pub slug : String
  pub name : String
  pub entries : List PlanEntry
  pub recurrence : Option Recurrence
  pub metadata : Option M

pub record ListPlansRequest : Type 0 where
  pub include_archived : Bool
  pub limit : Option ℤ
  pub after : Option String

abbrev pub interval_of : Option Recurrence → Option String
interval_of none = none
interval_of (some r) = some r.interval

abbrev pub anchor_of : Option Recurrence → Option Time
anchor_of none = none
anchor_of (some r) = r.anchor

abbrev pub recurrence_of : PlanRow → Option Recurrence
recurrence_of p =
    Option.map (λ i. record { interval = i; anchor = p.recurrence_anchor }) p.recurrence_interval

-- Every entry names a feature.
unfoldable pub check_features : List PlanEntry → Action RpcError (Unit {0})
check_features [] = pure tt
check_features (e ∷ es) = do
  or_refuse (get_feature e.feature_slug) invalid_argument
      (str_append "feature not found: " e.feature_slug)
  check_features es

module _ {M : Type 0} (codec : Codec M) where
  abbrev pub read_metadata : Option String → Option M
  read_metadata none = none
  read_metadata (some text) = codec.unmarshal text

  abbrev pub to_plan : PlanRow → List PlanEntry → Plan M
  to_plan p entries = record {
    id = p.id;
    slug = p.slug;
    name = p.name;
    entries = entries;
    recurrence = recurrence_of p;
    created_at = p.created_at;
    archived_at = p.archived_at;
    metadata = read_metadata p.metadata;
  }

  -- none is the error of a text that does not decode.
  unfoldable pub plan_row_to_proto : PlanRow → Option (Plan M)
  plan_row_to_proto p = Option.map (to_plan p) (plan_entries_from_json codec p.entries)

  -- The row of a new plan.
  abbrev pub new_plan : CreatePlanRequest M → String → String → Time → PlanRow
  new_plan req entries id created = record {
    id = id;
    slug = req.slug;
    name = req.name;
    entries = entries;
    recurrence_interval = interval_of req.recurrence;
    recurrence_anchor = anchor_of req.recurrence;
    metadata = metadata_text codec req.metadata;
    created_at = created;
    archived_at = none;
  }

  -- The write of a new plan, and the answer from its row.
  unfoldable pub insert_plan : PlanRow → Action RpcError (Plan M)
  insert_plan p = do
    or_internal (Plans.create_plan p)
    or_fail (plan_row_to_proto p) (internal "entries")

  unfoldable pub store_plan : Env → CreatePlanRequest M → String → Action RpcError (Plan M)
  store_plan env req entries = do
    id ← new_ulid env
    created ← now_second env
    insert_plan (new_plan req entries id created)

  unfoldable pub create_plan : Env → CreatePlanRequest M → Action RpcError (Plan M)
  create_plan env req = do
    check_features req.entries
    entries ← or_fail (plan_entries_to_json codec req.entries) (internal "entries")
    store_plan env req entries

  unfoldable pub get_plan : String → Action RpcError (Plan M)
  get_plan id_or_slug = do
    p ← or_refuse (Plans.get_plan id_or_slug) not_found "plan not found"
    or_fail (plan_row_to_proto p) (internal "entries")

  unfoldable pub list_plans : ListPlansRequest → Action RpcError (List (Plan M))
  list_plans req = do
    rows ←
        or_internal
          (Plans.list_plans req.include_archived (get_or req.limit (pos 100)) (get_or req.after ""))
    or_fail (each plan_row_to_proto rows) (internal "entries")

unfoldable pub archive_plan : Env → String → Action RpcError (Unit {0})
archive_plan env id_or_slug = do or_internal (Plans.archive_plan env id_or_slug)
