-- ===== src/Store/Listings.antt =====
-- What the listings of internal/store/store.go answer with.
use metery.Prelude.{ℕ, pos, Bool, String, List, ◌==◌, ◌&&◌, ◌||◌, text_lt, ◌≡◌, refl}
use metery.Store.Table.{is_none}
use metery.Store.Table.Page.{IsPage, limit_rows-IsPage}
use metery.Store.Db.{World, StoreError, Action, ok}
use metery.Store.Catalog.{list_customers, list_meters, list_features}
use metery.Store.Plans.{list_plans}
use metery.Store.Entitlements.{list_entitlements, list_grants}
use metery.Store.Subscriptions.{list_subscriptions}

-- The listing answers with a page of the rows that match, and changes nothing.
pub record Lists {A : Type 0} (key : A → String) (m : Action StoreError (List A)) (p : A → Bool)
    (n : ℕ) (table : List A) (w : World) : Type 0 where
  pub rows : List A
  pub answered : m w ≡ (ok rows, w)
  pub page : IsPage key p n table rows

-- For any limit that is not negative, token, filters and world, each of `ListCustomers`,
-- `ListMeters`, `ListFeatures`, `ListPlans`, `ListEntitlements`, `ListGrants` and
-- `ListSubscriptions` succeeds and changes nothing, it answers with the first ones, by their ids
-- in ascending order, of the rows of its table that are behind the token and pass its filters:
-- with all of them, or with as many as the limit if that is less; with the others they are those
-- rows, each as often as the table has it, and no row, of the answer or of the others, has an id
-- before that of a row ahead of it in the answer.
pub listings-IsPage :
    (n : ℕ) (after id plan_id : String) (all : Bool) (w : World)
    → Lists (λ c. c.id) (list_customers (pos n) after) (λ c. text_lt after c.id) n w.db.customers w
      × Lists
          (λ r. r.id)
          (list_meters all (pos n) after)
          (λ m. text_lt after m.id && (all || is_none m.archived_at))
          n
          w.db.meters
          w
      × Lists
          (λ r. r.id)
          (list_features all (pos n) after)
          (λ f. text_lt after f.id && (all || is_none f.archived_at))
          n
          w.db.features
          w
      × Lists
          (λ r. r.id)
          (list_plans all (pos n) after)
          (λ p. text_lt after p.id && (all || is_none p.archived_at))
          n
          w.db.plans
          w
      × Lists
          (λ r. r.id)
          (list_entitlements id (pos n) after)
          (λ e. (e.customer_id == id && text_lt after e.id) && is_none e.deleted_at)
          n
          w.db.entitlements
          w
      × Lists
          (λ r. r.id)
          (list_grants id all (pos n) after)
          (λ g. (g.entitlement_id == id && text_lt after g.id) && (all || is_none g.voided_at))
          n
          w.db.grants
          w
      × Lists
          (λ r. r.id)
          (list_subscriptions id plan_id all (pos n) after)
          (λ s.
            (text_lt after s.id && (id == "" || s.customer_id == id))
            && ((plan_id == "" || s.plan_id == plan_id) && (all || is_none s.canceled_at)))
          n
          w.db.subscriptions
          w
unfolding list_customers list_meters list_features list_plans list_entitlements list_grants
    list_subscriptions
listings-IsPage n after id plan_id all w = (
  record { rows = _; answered = refl; page = limit_rows-IsPage (λ r. r.id) _ n w.db.customers },
  record { rows = _; answered = refl; page = limit_rows-IsPage (λ r. r.id) _ n w.db.meters },
  record { rows = _; answered = refl; page = limit_rows-IsPage (λ r. r.id) _ n w.db.features },
  record { rows = _; answered = refl; page = limit_rows-IsPage (λ r. r.id) _ n w.db.plans },
  record { rows = _; answered = refl; page = limit_rows-IsPage (λ r. r.id) _ n w.db.entitlements },
  record { rows = _; answered = refl; page = limit_rows-IsPage (λ r. r.id) _ n w.db.grants },
  record { rows = _; answered = refl; page = limit_rows-IsPage (λ r. r.id) _ n w.db.subscriptions },
)
