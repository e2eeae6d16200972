-- ===== src/Store/Usage/Answers.antt =====
-- How the usage of a stored meter can be read, and how that can fail.
use metery.Prelude.{
  ℤ, pos, true, false, Option, none, some, String, List, filter, length, ◌==◌, ==_sym, ◌≡◌, refl,
  arith, Bool-cases, Option-cases, inl, inr,
}
use metery.Time.{Time}
use metery.Store.Rows.{Meter, Event}
use metery.Store.Constraints.{is_aggregation}
use metery.Store.Db.{Env, World, Result, ok, err, StoreError, corrupt, no_value_property, or_fail}
use metery.Store.Usage.{
  in_window, sql_agg_func, path_param, aggregate_name, aggregate_usage, fetch_usage,
}

-- The usage; or the error of a meter that has no property to read; or that of the database, for
-- payloads that it cannot read as numbers.
pub data IsAnswer (value_property : Option String) : Result StoreError ℤ → Type 0 where
  usage : (n : ℤ) → IsAnswer value_property (ok n)
  no_property : value_property ≡ none → IsAnswer value_property (err no_value_property)
  unreadable :
      (property : String) → value_property ≡ some property → IsAnswer value_property (err corrupt)

-- Each aggregation that a meter can have, other than the count, has its function.
aggregate_name_known :
    (agg : String)
    → is_aggregation agg ≡ true
    → (agg == "count") ≡ false
    → (fn : String) × (aggregate_name agg ≡ some fn)
unfolding sql_agg_func
aggregate_name_known agg known other = elim (Bool-cases (agg == "unique_count")) [
  | inl e ↦ ("COUNT(DISTINCT)", rw e refl)
  | inr u ↦ elim (Bool-cases (agg == "sum")) [
    | inl e ↦ ("SUM", rw (u, e) refl)
    | inr s ↦ elim (Bool-cases (agg == "avg")) [
      | inl e ↦ ("AVG", rw (u, s, e) refl)
      | inr a ↦ elim (Bool-cases (agg == "min")) [
        | inl e ↦ ("MIN", rw (u, s, a, e) refl)
        | inr i ↦ elim (Bool-cases (agg == "max")) [
          | inl e ↦ ("MAX", rw (u, s, a, i, e) refl)
          | inr x ↦ absurd (
              ground (
                arith,
                known,
                ==_sym agg "count",
                other,
                u,
                s,
                a,
                i,
                x,
                ==_sym agg "unique_count",
                ==_sym agg "sum",
                ==_sym agg "avg",
                ==_sym agg "min",
                ==_sym agg "max",
              ))
        ]
      ]
    ]
  ]
]

aggregate_usage-IsAnswer :
    (env : Env) (m : Meter) (rows : List Event) (w : World)
    → is_aggregation m.aggregation ≡ true
    → (m.aggregation == "count") ≡ false
    → IsAnswer m.value_property (aggregate_usage env m rows w).0
      × ((aggregate_usage env m rows w).1 ≡ w)
unfolding aggregate_usage
aggregate_usage-IsAnswer env m rows w known other =
    let (fn, named) = aggregate_name_known m.aggregation known other in
    elim (Option-cases m.value_property) [
      | inl n ↦ rw (n, aggregate_usage, or_fail) (no_property refl, refl)
      | inr (property, e) ↦
          elim (Option-cases (env.aggregate fn (path_param env.driver property) rows)) [
            | inl n ↦ rw (e, aggregate_usage, named, or_fail, n) (unreadable property refl, refl)
            | inr (n, r) ↦ rw (e, aggregate_usage, named, or_fail, r) (usage n, refl)
          ]
    ]

-- For a meter with an aggregation that the database takes, any window and any world, `FetchUsage`
-- changes nothing and answers with a number, or with the error of a missing value property if the
-- meter has none, or, if it has one, with the error of payloads that are not numbers: it never
-- meets an aggregation that it does not support.
pub fetch_usage-IsAnswer :
    (env : Env) (customer_key : String) (m : Meter) (from to : Time) (w : World)
    → is_aggregation m.aggregation ≡ true
    → let s = fetch_usage env customer_key m from to w in IsAnswer m.value_property s.0 × (s.1 ≡ w)
unfolding fetch_usage
fetch_usage-IsAnswer env customer_key m from to w known =
    let rows = filter (in_window customer_key m.event_type from to) w.db.events in
    elim (Bool-cases (m.aggregation == "count")) [
      | inl e ↦ rw (e, fetch_usage) (usage (pos (length rows)), refl)
      | inr other ↦ rw (other, fetch_usage) (aggregate_usage-IsAnswer env m rows w known other)
    ]
