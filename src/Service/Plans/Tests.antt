-- ===== src/Service/Plans/Tests.antt =====
-- A plan that is created and read, with a codec for the one entry that it has.
use Prim.Native.String.{String}
use Prim.Native.String.{◌++◌ as str_append}
use text.Mathlib.TextLemmas.{nil-append, cons-append}
use mathlib.Core.List.{append-nil}
use metery.Prelude.{
  ◌*◌, ℤ, pos, Option, none, some, List, [], ◌∷◌, ◌++◌, ◌==◌, eq_iff, if◌then◌else◌, is_char, ltb,
  ◌≡◌, refl, sym, ap, ◌∙◌, inl, inr, Bool-cases, Option-cases, some_inj, none≢some,
}
use metery.Time.{day, truncate_second}
use metery.Store.Rows.{PlanRow, Feature}
use metery.Store.Db.{Db, Env, World, ok, sqlite, new_ulid, now_second, try_modify}
use metery.Store.Catalog.{get_feature}
use metery.Store.Plans
use metery.Service.Rpc.{
  PlanEntry, UsagePeriod, GrantTemplate, Codec, each, join, plan_entries_to_json,
  plan_entries_from_json,
}
use metery.Service.Plans.{
  Plan, CreatePlanRequest, check_features, store_plan, insert_plan, plan_row_to_proto, create_plan,
  get_plan,
}
use metery.Service.Plans.RoundTrip.{ReadsBack}
use metery.Service.Plans.Created.{get_plan-create_plan}

abbrev calls_entry : PlanEntry
calls_entry = record { feature_slug = "calls"; usage_period = none; rollover = none; grant = none }

abbrev encode : String → Option UsagePeriod → Option ℤ → Option GrantTemplate → Option String
encode slug none none none = if slug == "calls" then some "{}" else none
encode slug none none (some g) = none
encode slug none (some r) g = none
encode slug (some p) r g = none

-- An array by its opening braces.
unfoldable braces : String → List String
braces String.[] = []
braces (String.◌∷◌ c s) = let rest = braces s in if is_char b'{' c then "{}" ∷ rest else rest

unfoldable codec : Codec String
codec = record {
  parse_duration = λ text. none;
  decode_array = λ text. some (braces text);
  decode_entry = λ text. if text == "{}" then some calls_entry else none;
  encode_entry = λ e. encode e.feature_slug e.usage_period e.rollover e.grant;
  marshal = λ m. some m;
  unmarshal = λ text. some text;
}

braces-append : (s t : String) → braces (str_append s t) ≡ braces s ++ braces t
unfolding braces
braces-append String.[] t = rw (nil-append t) refl
braces-append (String.◌∷◌ c s) t = elim (Bool-cases (is_char b'{' c)) [
  | inl e ↦ rw (cons-append c s t, braces, e) (ap (λ rest. "{}" ∷ rest) (braces-append s t))
  | inr e ↦ rw (cons-append c s t, braces, e) (braces-append s t)
]

encode-calls :
    (slug : String) (p : Option UsagePeriod) (r : Option ℤ) (g : Option GrantTemplate) (t : String)
    → encode slug p r g ≡ some t
    → (t ≡ "{}")
      × (record { feature_slug = slug; usage_period = p; rollover = r; grant = g } ≡ calls_entry)
encode-calls slug none none none t e = elim (Bool-cases (slug == "calls")) [
  | inl same ↦ (
    sym (some_inj (rw same at e)),
    ap (λ s. record { feature_slug = s; usage_period = none; rollover = none; grant = none })
        ((eq_iff slug "calls").0 same),
  )
  | inr other ↦ absurd (none≢some (rw other at e))
]
encode-calls slug none none (some g) t e = absurd (none≢some e)
encode-calls slug none (some r) g t e = absurd (none≢some e)
encode-calls slug (some p) r g t e = absurd (none≢some e)

encoded :
    (e : PlanEntry) (t : String) → codec.encode_entry e ≡ some t → (t ≡ "{}") × (e ≡ calls_entry)
unfolding codec
encoded e t h = encode-calls e.feature_slug e.usage_period e.rollover e.grant t h

braces-join :
    (es : List PlanEntry) (ts : List String)
    → each codec.encode_entry es ≡ some ts
    → braces (join ts) ≡ ts
unfolding braces join
braces-join [] ts h = rw (← some_inj h) refl
braces-join (e ∷ es) ts h = elim (Option-cases (codec.encode_entry e)) [
  | inl n ↦ absurd (none≢some (rw (n, each) at h))
  | inr (t, o) ↦ elim (Option-cases (each codec.encode_entry es)) [
    | inl n ↦ absurd (none≢some (rw (o, n, each) at h))
    | inr (rest, r) ↦
        let same : t ∷ rest ≡ ts = some_inj (rw (o, r, each) at h) in
        let first : braces t ≡ t ∷ [] = rw ((encoded e t o).0) refl in
        rw (← same) (behind t rest first (braces-join es rest r))
  ]
]
  where
    behind :
        (t : String) (rest : List String)
        → braces t ≡ t ∷ []
        → braces (join rest) ≡ rest
        → braces (join (t ∷ rest)) ≡ t ∷ rest
    behind t [] first others = first
    behind t (s ∷ rest) first others =
        braces-append t (str_append "," (join (s ∷ rest)))
        ∙ ap (λ x. x ++ braces (str_append "," (join (s ∷ rest)))) first
        ∙ ap (λ x. t ∷ x) (braces-append "," (join (s ∷ rest)) ∙ others)

codec-ReadsBack : ReadsBack codec
unfolding codec braces
codec-ReadsBack = record {
  entry = λ e t h. rw ((encoded e t h).0, (encoded e t h).1) refl;
  no_entries = refl;
  array = λ es ts h. ap some (
      braces-append "[" (str_append (join ts) "]")
      ∙ braces-append (join ts) "]"
      ∙ ap (λ x. x ++ []) (braces-join es ts h)
      ∙ append-nil ts);
}

abbrev env : Env
env = record {
  clock = λ n. pos (30 * day);
  ulid = λ n. if ltb n 1 then "01A" else "01B";
  driver = sqlite;
  encode_states = λ states. "[]";
  decode_states = λ text. some [];
  aggregate = λ name param events. some (pos 0);
}

abbrev calls : Feature
calls = record {
  id = "f1";
  slug = "calls";
  name = "Calls";
  meter_id = none;
  created_at = pos 0;
  archived_at = none;
}

abbrev basic : String → PlanRow
basic slug = record {
  id = "01A";
  slug = slug;
  name = "Basic";
  entries = "[{}]";
  recurrence_interval = some "P1M";
  recurrence_anchor = none;
  metadata = some "m";
  created_at = pos (30 * day);
  archived_at = none;
}

abbrev older : PlanRow
older = record (basic "older") { id = "00A" }

abbrev tables : List PlanRow → Db
tables plans = record {
  customers = [];
  meters = [];
  features = calls ∷ [];
  entitlements = [];
  grants = [];
  events = [];
  snapshots = [];
  plans = plans;
  subscriptions = [];
  users = [];
}

abbrev request : CreatePlanRequest String
request = record {
  slug = "basic";
  name = "Basic";
  entries = calls_entry ∷ [];
  recurrence = some (record { interval = "P1M"; anchor = none });
  metadata = some "m";
}

abbrev answer : Plan String
answer = record {
  id = "01A";
  slug = "basic";
  name = "Basic";
  entries = calls_entry ∷ [];
  recurrence = some (record { interval = "P1M"; anchor = none });
  created_at = pos (30 * day);
  archived_at = none;
  metadata = some "m";
}

abbrev before : World
before = record { db = tables (older ∷ []); reads = 0; serial = 0 }

abbrev after : World
after = record { db = tables (older ∷ basic "basic" ∷ []); reads = 1; serial = 1 }

created : create_plan codec env request before ≡ (ok answer, after)
unfolding create_plan check_features get_feature store_plan insert_plan plan_row_to_proto new_ulid
    now_second truncate_second try_modify plan_entries_to_json plan_entries_from_json codec braces
    join Plans.create_plan
created = refl

get_plan-create_plan_example :
    (get_plan codec "basic" after ≡ (ok answer, after))
    × (answer.slug ≡ "basic")
    × (answer.entries ≡ calls_entry ∷ [])
get_plan-create_plan_example =
    get_plan-create_plan codec codec-ReadsBack env request answer before after refl created
