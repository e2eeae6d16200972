-- ===== src/Store/Plans.antt =====
-- Plans and users of internal/store/store.go.
pub mod Upsert
pub mod Created
use mathlib.Core.Option
use metery.Prelude.{
  ℤ, Bool, Option, none, some, String, List, any, filter, find?, ◌==◌, ◌||◌, ◌&&◌, if◌then◌else◌,
  text_lt,
}
use metery.Store.Table.{is_none, insert_row, update_where, order_by, limit_rows}
use metery.Store.Db.{
  Env, StoreError, no_rows, Action, ◌>>=◌, ◌>>◌, gets, or_fail, modify, try_modify, now, now_second,
  new_ulid,
}
use metery.Store.Rows.{PlanRow, User}
use metery.Store.Constraints.{same_plan}

-- The columns of the `INSERT` leave the archival out.
abbrev pub stored_plan : PlanRow → PlanRow
stored_plan p = record p { archived_at = none }

unfoldable pub create_plan : PlanRow → Action StoreError (Unit {0})
create_plan p = try_modify (λ db.
    Option.map (λ rows. record db { plans = rows }) (insert_row same_plan (stored_plan p) db.plans))

abbrev pub names_plan : String → PlanRow → Bool
names_plan id_or_slug p = p.id == id_or_slug || p.slug == id_or_slug

unfoldable pub get_plan : String → Action StoreError PlanRow
get_plan id_or_slug = do or_fail (← gets (λ db. find? (names_plan id_or_slug) db.plans)) no_rows

unfoldable pub list_plans : Bool → ℤ → String → Action StoreError (List PlanRow)
list_plans include_archived limit after = gets (λ db. limit_rows limit (
    order_by (λ a b. text_lt a.id b.id)
      (filter (λ p. text_lt after p.id && (include_archived || is_none p.archived_at)) db.plans)))

unfoldable pub archive_plan : Env → String → Action StoreError (Unit {0})
archive_plan env id_or_slug = do
  at ← now_second env
  modify (λ db. record db {
    plans =
        update_where (λ p. names_plan id_or_slug p && is_none p.archived_at)
          (λ p. record p { archived_at = some at }) db.plans;
  })

unfoldable pub get_user_by_id : String → Action StoreError User
get_user_by_id id = do or_fail (← gets (λ db. find? (λ u. u.id == id) db.users)) no_rows

unfoldable pub get_user_by_google_id : String → Action StoreError User
get_user_by_google_id google_id = do
  or_fail (← gets (λ db. find? (λ u. u.google_id == google_id) db.users)) no_rows

-- The insert of `UpsertUser`: a row with the same `google_id` gets the email and the name, and
-- otherwise a new row must have a new id.
abbrev pub upsert : User → List User → Option (List User)
upsert u rows =
    if any (λ r. r.google_id == u.google_id) rows
    then some (
        update_where (λ r. r.google_id == u.google_id)
          (λ r. record r { email = u.email; name = u.name }) rows)
    else insert_row (λ a b. a.id == b.id) u rows

unfoldable pub upsert_user : Env → String → String → String → Action StoreError User
unfolding get_user_by_google_id
upsert_user env google_id email name = do
  id ← new_ulid env
  at ← now env
  try_modify (λ db.
      Option.map (λ rows. record db { users = rows })
        (upsert
          (record { id = id; google_id = google_id; email = email; name = name; created_at = at })
          db.users))
  get_user_by_google_id google_id
