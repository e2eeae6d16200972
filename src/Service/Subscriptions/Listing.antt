-- ===== src/Service/Subscriptions/Listing.antt =====
-- `ListSubscriptions` of internal/service/subscription.go.
use metery.Prelude.{ℤ, pos, Bool, Option, none, some, String, List, [], ◌∷◌, ◌==◌, if◌then◌else◌}
use metery.Store.Rows.{SubscriptionRow}
use metery.Store.Db.{Action, ◌>>=◌, pure}
use metery.Store.Catalog.{get_customer}
use metery.Store.Plans.{get_plan}
use metery.Store.Subscriptions
use metery.Service.Rpc.{not_found, RpcError, or_refuse, or_internal, or_nil, get_or, Codec}
use metery.Service.Subscriptions.{Subscription, key_of, slug_of, subscription_row_to_proto}

pub record ListSubscriptionsRequest : Type 0 where
  pub customer_id_or_key : Option String
  pub include_canceled : Bool
  pub limit : Option ℤ
  pub after : Option String

-- An entry of a map from texts to texts.
unfoldable pub cached : List (String × String) → String → Option String
cached [] id = none
cached ((i, value) ∷ entries) id = if i == id then some value else cached entries id

-- The key of a customer, from the map or the store.
unfoldable pub key_for : List (String × String) → String → Action RpcError String
key_for customer_keys id = elim (cached customer_keys id) [
  | some key ↦ pure key
  | none ↦ do c ← or_nil (get_customer id); pure (key_of c)
]

-- The slug of a plan, from the map or the store.
unfoldable pub slug_for : List (String × String) → String → Action RpcError String
slug_for plan_slugs id = elim (cached plan_slugs id) [
  | some slug ↦ pure slug
  | none ↦ do p ← or_nil (get_plan id); pure (slug_of p)
]

-- The id and the key of the customer that a listing is for, both empty for all customers.
unfoldable pub customer_scope : String → Action RpcError (String × String)
customer_scope id_or_key =
    if id_or_key == ""
    then pure ("", "")
    else or_refuse (get_customer id_or_key) not_found "customer not found"
      >>= (λ c. pure (c.id, c.key))

module _ {M : Type 0} (codec : Codec M) where
  -- The loop of `ListSubscriptions`, with its two maps of what has been looked up.
  unfoldable pub subscriptions_to_proto :
      List (String × String)
      → List (String × String)
      → List SubscriptionRow
      → Action RpcError (List (Subscription M))
  subscriptions_to_proto customer_keys plan_slugs [] = pure []
  subscriptions_to_proto customer_keys plan_slugs (r ∷ rows) = do
    ckey ← key_for customer_keys r.customer_id
    pslug ← slug_for plan_slugs r.plan_id
    rest ←
        subscriptions_to_proto ((r.customer_id, ckey) ∷ customer_keys)
          ((r.plan_id, pslug) ∷ plan_slugs) rows
    pure (subscription_row_to_proto codec r ckey pslug ∷ rest)

  unfoldable pub list_subscriptions :
      ListSubscriptionsRequest → Action RpcError (List (Subscription M))
  list_subscriptions req = do
    scope ← customer_scope (get_or req.customer_id_or_key "")
    rows ← or_internal (
        Subscriptions.list_subscriptions scope.0 "" req.include_canceled
          (get_or req.limit (pos 100)) (get_or req.after ""))
    subscriptions_to_proto (scope ∷ []) [] rows
