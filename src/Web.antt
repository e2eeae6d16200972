-- ===== src/Web.antt =====
-- internal/web/web.go: the console. A handler answers with the template that it renders and the
-- data that it renders it with. No handler fails: what the store cannot answer is left out, so the
-- error type of the actions is never inhabited by a handler.
pub mod Pages
pub mod Catalog
pub mod Customers
pub mod Plans
pub mod Subscriptions
pub mod Console
mod Tests
use metery.Prelude.{ℕ, Option, none, some, String, List, [], ◌∷◌, length, ◌==◌, if◌then◌else◌}
use metery.Time.{Time}
use metery.Store.Rows.{User}
use metery.Store.Db.{StoreError, Action, ◌>>=◌, pure}
use metery.Store.Plans.{get_user_by_id}
use metery.Service.Rpc.{or_nil}
use metery.Auth.Session.{user_id}
use Pages.{Display, Page, login_html}

abbrev pub Handler : Type 0
Handler = Action StoreError Page

-- A call of the store whose error leaves the list empty.
abbrev pub rows_of {ℓ} : {A : Type ℓ} → Option (List A) → List A
rows_of none = []
rows_of (some rows) = rows

abbrev pub count_of {ℓ} : {A : Type ℓ} → Option (List A) → ℕ
count_of rows = length (rows_of rows)

-- The value of a map that was filled from a list, where a later entry replaces an earlier one.
abbrev pub map_get {ℓ} : {A : Type ℓ} → List (String × A) → String → Option A
map_get [] key = none
map_get ((k, a) ∷ entries) key = elim (map_get entries key) [
  | some later ↦ some later
  | none ↦ if k == key then some a else none
]

-- A text column that may be NULL, and a time column that may be NULL.
abbrev pub text_of : Option String → String
text_of none = ""
text_of (some s) = s

abbrev pub time_of : Display → Option Time → String
time_of display none = ""
time_of display (some t) = display.format t

module _ (sign : String → String) where
  abbrev pub user_of : String → Action StoreError (Option User)
  user_of id = if id == "" then pure none else or_nil (get_user_by_id id)

  -- `currentUser`
  unfoldable pub current_user : List (String × String) → Action StoreError (Option User)
  current_user cookies = user_of (user_id sign cookies)

  -- A page for the user, or the login page: `requireUser` and the return after it.
  unfoldable pub page_for : (User → Handler) → Option User → Handler
  page_for page none = pure login_html
  page_for page (some user) = page user

  unfoldable pub require_user : List (String × String) → (User → Handler) → Handler
  require_user cookies page = current_user cookies >>= page_for page
