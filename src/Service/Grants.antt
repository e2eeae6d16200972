-- ===== src/Service/Grants.antt =====
-- internal/service/grant.go and internal/service/event.go: the handlers of grants and events.
use metery.Prelude.{ℤ, pos, Bool, Option, none, some, String, List, map}
use metery.Time.{Time}
use metery.Store.Rows.{GrantRow}
use metery.Store.Db.{Env, Action, ◌>>=◌, ◌>>◌, pure, or_fail, now_second, new_ulid}
use metery.Store.Entitlements
use metery.Store.Usage
use metery.Service.Rpc.{
  invalid_argument, RpcError, refused, or_internal, get_or, Codec, shift_time, metadata_text,
}
use metery.Service.Entitlements.{named_customer, named_feature, named_entitlement}

pub record CreateGrantRequest (M : Type 0) : Type 0 where
  pub customer_id_or_key : String
  pub feature_id_or_slug : String
  pub amount : ℤ
  pub priority : Option ℤ
  pub effective_at : Option Time
  pub expiration : Option String
  pub metadata : Option M

pub record ListGrantsRequest : Type 0 where
  pub customer_id_or_key : String
  pub feature_id_or_slug : String
  pub include_voided : Bool
  pub limit : Option ℤ
  pub after : Option String

-- The `Grant` of the API.
pub record Grant (M : Type 0) : Type 0 where
  pub id : String
  pub entitlement_id : String
  pub amount : ℤ
  pub priority : ℤ
  pub effective_at : Time
  pub expires_at : Option Time
  pub voided_at : Option Time
  pub created_at : Time
  pub metadata : Option M

pub record IngestEventRequest (M : Type 0) : Type 0 where
  pub id : String
  pub customer : String
  pub kind : String
  pub time : Option Time
  pub payload : Option M

unfoldable pub grant_row_to_proto : {M : Type 0} → GrantRow → Grant M
grant_row_to_proto g = record {
  id = g.id;
  entitlement_id = g.entitlement_id;
  amount = g.amount;
  priority = g.priority;
  effective_at = g.effective_at;
  expires_at = g.expires_at;
  voided_at = g.voided_at;
  created_at = g.created_at;
  metadata = none;
}

module _ {M : Type 0} (codec : Codec M) where
  -- The expiry of a grant from its effective time.
  unfoldable pub expires_at : Time → Option String → Action RpcError (Option Time)
  expires_at eff_time none = pure none
  expires_at eff_time (some text) = do
    dur ←
        or_fail (codec.parse_duration text)
          (refused invalid_argument "invalid expiration duration format")
    pure (some (shift_time eff_time dur))

  -- The answer has the request's metadata and no entitlement.
  unfoldable pub create_grant : Env → CreateGrantRequest M → Action RpcError (Grant M)
  create_grant env req = do
    c ← named_customer req.customer_id_or_key
    f ← named_feature req.feature_id_or_slug
    e ← named_entitlement c f
    default_at ← now_second env
    let eff_time = get_or req.effective_at default_at
    id ← new_ulid env
    created ← now_second env
    exp ← expires_at eff_time req.expiration
    let g : GrantRow = record {
      id = id;
      entitlement_id = e.id;
      amount = req.amount;
      priority = get_or req.priority (pos 100);
      effective_at = eff_time;
      expires_at = exp;
      metadata = metadata_text codec req.metadata;
      created_at = created;
      voided_at = none;
      subscription_id = none;
    }
    or_internal (Entitlements.create_grant g)
    pure (record {
      id = g.id;
      entitlement_id = "";
      amount = g.amount;
      priority = g.priority;
      effective_at = g.effective_at;
      expires_at = g.expires_at;
      voided_at = none;
      created_at = g.created_at;
      metadata = req.metadata;
    })

  unfoldable pub list_grants : ListGrantsRequest → Action RpcError (List (Grant M))
  list_grants req = do
    c ← named_customer req.customer_id_or_key
    f ← named_feature req.feature_id_or_slug
    e ← named_entitlement c f
    gs ← or_internal (
        Entitlements.list_grants e.id req.include_voided (get_or req.limit (pos 100))
          (get_or req.after ""))
    pure (map grant_row_to_proto gs)

  -- A payload that is absent or cannot be written as json is the empty object.
  unfoldable pub ingest_event : Env → IngestEventRequest M → Action RpcError (Unit {0})
  ingest_event env req = do
    default_at ← now_second env
    created ← now_second env
    or_internal (
        Usage.ingest_event (record {
          id = req.id;
          customer = req.customer;
          kind = req.kind;
          time = get_or req.time default_at;
          payload = some (get_or (metadata_text codec req.payload) "{}");
          created_at = created;
          processed_at = none;
        }))

unfoldable pub void_grant : Env → String → Action RpcError (Unit {0})
void_grant env id = do or_internal (Entitlements.void_grant env id)
