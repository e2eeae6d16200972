-- ===== src/Web/Plans.antt =====
-- The pages of plans.
use Prim.Native.String.{◌++◌ as str_append}
use metery.Prelude.{
  ℕ, pos, false, not, Option, none, some, String, List, [], ◌∷◌, map, ◌==◌, if◌then◌else◌,
}
use metery.Store.Rows.{User, PlanRow}
use metery.Store.Table.{is_none}
use metery.Store.Db.{◌>>=◌, pure}
use metery.Store.Plans.{get_plan, list_plans}
use metery.Store.Subscriptions.{count_subscriptions_for_plan}
use metery.Service.Rpc.{or_nil}
use metery.Web.{Handler, rows_of, text_of, time_of}
use metery.Web.Pages.{
  Display, GrantJson, EntryJson, PlanLine, PlanEntryView, http_not_found, plans_html,
  plan_detail_html,
}

-- `strings.Join(slugs, ", ")`.
unfoldable pub join_slugs : List String → String
join_slugs [] = ""
join_slugs (s ∷ []) = s
join_slugs (s ∷ t ∷ slugs) = str_append s (str_append ", " (join_slugs (t ∷ slugs)))

abbrev pub amount_of : Option GrantJson → String
amount_of none = ""
amount_of (some g) = g.amount

abbrev pub expiration_of : Option GrantJson → String
expiration_of none = ""
expiration_of (some g) = text_of g.expiration

module _ (display : Display) where
  -- Nothing is shown of a text that does not decode.
  unfoldable pub plan_feature_slugs : String → List String
  plan_feature_slugs entries_json =
      if entries_json == "" then [] else rows_of (display.unmarshal_slugs entries_json)

  abbrev pub plan_line : PlanRow → PlanLine
  plan_line p = record {
    id = p.id;
    slug = p.slug;
    name = p.name;
    features = join_slugs (plan_feature_slugs p.entries);
    recurrence = text_of p.recurrence_interval;
    created_at = display.format p.created_at;
  }

  unfoldable pub plans_page : User → Handler
  plans_page user = do
    ps ← or_nil (list_plans false (pos 50) "")
    pure (
        plans_html (record {
          layout = record { active_tab = "plans"; title = "Plans"; user = user };
          plans = map plan_line (rows_of ps);
        }))

  abbrev pub priority_of : Option GrantJson → String
  priority_of none = ""
  priority_of (some g) = elim g.priority [ none ↦ "" | some n ↦ display.itoa n ]

  abbrev pub entry_view : EntryJson → PlanEntryView
  entry_view e = record {
    feature_slug = e.feature_slug;
    usage_period = text_of e.usage_period;
    grant_amount = amount_of e.grant;
    priority = priority_of e.grant;
    expiration = expiration_of e.grant;
    rollover = text_of e.rollover;
  }

  unfoldable pub plan_entry_views : String → List PlanEntryView
  plan_entry_views entries_json =
      if entries_json == ""
      then []
      else map entry_view (rows_of (display.unmarshal_entries entries_json))

  abbrev pub counts_of : Option (ℕ × ℕ) → ℕ × ℕ
  counts_of none = (0, 0)
  counts_of (some counts) = counts

  unfoldable pub plan_page : User → Option PlanRow → Handler
  plan_page user none = pure http_not_found
  plan_page user (some p) = do
    counted ← or_nil (count_subscriptions_for_plan p.id)
    pure (
        plan_detail_html (record {
          layout = record { active_tab = "plans"; title = p.name; user = user };
          id = p.id;
          slug = p.slug;
          name = p.name;
          recurrence = text_of p.recurrence_interval;
          recurrence_at = time_of display p.recurrence_anchor;
          created_at = display.format p.created_at;
          archived_at = time_of display p.archived_at;
          archived = not (is_none p.archived_at);
          entries = plan_entry_views p.entries;
          sub_count = (counts_of counted).0;
          active_subs = (counts_of counted).1;
        }))

  unfoldable pub plan_detail : String → User → Handler
  plan_detail id_or_slug user = or_nil (get_plan id_or_slug) >>= plan_page user
