-- ===== src/Store/Usage.antt =====
-- Usage events of internal/store/store.go, and the usage that a meter reads from them.
pub mod Windows
pub mod Map
pub mod Answers
use metery.Prelude.{
  ℤ, pos, Bool, not, Option, none, some, String, List, filter, length, ◌==◌, ◌&&◌, if◌then◌else◌,
}
use metery.Time.{Time, before}
use metery.Store.Table.{insert_or_ignore}
use metery.Store.Db.{
  Env, StoreError, corrupt, no_value_property, unsupported_aggregation, Driver, sqlite, pgx, Action,
  ◌>>=◌, pure, gets, or_fail, modify,
}
use Prim.Native.Char.{code}
use Prim.Native.Nat.{compare, Ordering}
use Prim.Native.String.{◌++◌ as str_append}
use metery.Store.Rows.{Event, Meter}
use metery.Store.Constraints.{same_event}

-- The columns of the `INSERT` leave `processed_at` out.
abbrev pub stored_event : Event → Event
stored_event e = record e { processed_at = none }

-- `ON CONFLICT(id) DO NOTHING`: an event that is sent again changes nothing.
unfoldable pub ingest_event : Event → Action StoreError (Unit {0})
ingest_event e =
    modify (λ db. record db { events = insert_or_ignore same_event (stored_event e) db.events })

-- `WHERE customer = ? AND type = ? AND time >= ? AND time < ?`
abbrev pub in_window : String → String → Time → Time → Event → Bool
in_window customer_key event_type from to e =
    (e.customer == customer_key && e.kind == event_type)
    && (not (before e.time from) && before e.time to)

unfoldable pub sql_agg_func : String → Option String
sql_agg_func agg =
    if agg == "sum"
    then some "SUM"
    else (if agg == "avg"
        then some "AVG"
        else (if agg == "min" then some "MIN" else (if agg == "max" then some "MAX" else none)))

-- `strings.ReplaceAll(s, ".", ",")`
unfoldable pub dots_to_commas : String → String
dots_to_commas String.[] = ""
dots_to_commas (String.◌∷◌ c s) =
    let rest = dots_to_commas s in
    elim (compare (code c) b'.') [ Ordering.eq ↦ str_append "," rest | _ ↦ String.◌∷◌ c rest ]

-- The path parameter: "$.a.b" for SQLite, "{a,b}" for PostgreSQL.
unfoldable pub path_param : Driver → String → String
unfolding dots_to_commas
path_param sqlite property = str_append "$." property
path_param pgx property = str_append "{" (str_append (dots_to_commas property) "}")

-- The SQL aggregate of a meter that does not merely count.
abbrev pub aggregate_name : String → Option String
aggregate_name agg = if agg == "unique_count" then some "COUNT(DISTINCT)" else sql_agg_func agg

-- The query of an aggregate other than the count, over the rows of the window.
unfoldable pub aggregate_usage : Env → Meter → List Event → Action StoreError ℤ
aggregate_usage env m rows = do
  property ← or_fail m.value_property no_value_property
  fn ← or_fail (aggregate_name m.aggregation) unsupported_aggregation
  or_fail (env.aggregate fn (path_param env.driver property) rows) corrupt

unfoldable pub fetch_usage : Env → String → Meter → Time → Time → Action StoreError ℤ
fetch_usage env customer_key m from to = do
  rows ← gets (λ db. filter (in_window customer_key m.event_type from to) db.events)
  if m.aggregation == "count" then pure (pos (length rows)) else aggregate_usage env m rows
