-- ===== src/Web/Dashboards/Tests.antt =====
-- Dashboards exported and imported, and the theorems at them.
use upstat.Common.{
  ◌≡◌, refl, true, false, some, [], ◌∷◌, arith, nat_eq, string_eq, ◌==◌, All, ok, err, other,
}
use upstat.Common.Int.{pos}
use upstat.Web.Json.{Json, null, text, object, no_fields, field, field_of, Codec}
use upstat.Web.Dashboards.{
  Widget, Dashboard, Portable, vars_fields, layout_fields, dashboard_to_portable_json,
}
use upstat.Web.Dashboards.Parse.{
  good, refused, off_grid, title_not_string, all_string_arrays, parse_portable_dashboard,
  parse_widget,
}
use upstat.Web.Dashboards.Placed.{IsSound, parse_portable_dashboard_lem}
use upstat.Web.Dashboards.RoundTrip.{
  IsProper, without_ids, parse_portable_dashboard-dashboard_to_portable_json,
}
use upstat.Web.Dashboards.Import.{Client, create, update, remove, send, import_json}
use upstat.Web.Dashboards.Rollback.{Imported, import_json-Imported}

-- Texts that are the values they stand for.
abbrev plain : Codec
plain = record { Text = Json; stringify = λ j. j; parse = λ j. some j; parse-stringify = λ j. refl }

abbrev latency : Widget
latency = record {
  id = "wid_1";
  dashboard_id = "dash_x";
  type = "timeseries";
  title = "p95 latency";
  query = null;
  query_string = some "metric:http.request.duration_ms | p95()";
  viz_options = field "display" (text "line") no_fields;
  layout = record { x = pos 0; y = pos 0; w = pos 8; h = pos 3 };
}

abbrev overview : Dashboard
overview = record {
  id = "dash_x";
  name = "Service overview";
  template_vars = ("env", "prod" ∷ "staging" ∷ []) ∷ [];
  widgets = latency ∷ [];
}

abbrev overview_portable : Portable
overview_portable = record {
  name = "Service overview";
  template_vars = vars_fields overview.template_vars;
  widgets = without_ids latency ∷ [];
}

-- A layout that reaches past the grid's twelfth column, and a title that is no string.
past_the_grid :
    parse_widget (
      object (
        field "type" (text "slo") (
          field "layout"
            (object (layout_fields (record { x = pos 8; y = pos 0; w = pos 6; h = pos 3 })))
            no_fields)))
    ≡ refused off_grid
unfolding parse_widget
past_the_grid = refl

null_title :
    parse_widget (object (field "type" (text "slo") (field "title" null no_fields)))
    ≡ refused title_not_string
unfolding parse_widget
null_title = refl

proper : IsProper latency
unfolding field_of
proper = record {
  known_type = refl;
  on_grid =
      (0, 0, 8, 3, refl, refl, refl, refl, omega arith, omega arith, omega arith, omega arith);
  markdown = refl;
}

parse_portable_dashboard-dashboard_to_portable_json_example :
    parse_portable_dashboard plain (dashboard_to_portable_json plain overview)
    ≡ good overview_portable
parse_portable_dashboard-dashboard_to_portable_json_example =
    parse_portable_dashboard-dashboard_to_portable_json plain overview refl (proper, tt)

parse_portable_dashboard_lem_example :
    ((overview_portable.name == "") ≡ false)
    × (all_string_arrays overview_portable.template_vars ≡ true)
    × All IsSound overview_portable.widgets
parse_portable_dashboard_lem_example =
    parse_portable_dashboard_lem plain (dashboard_to_portable_json plain overview) overview_portable
      (parse_portable_dashboard-dashboard_to_portable_json plain overview refl (proper, tt))

-- The creation and the widget are answered; the reply to the update is lost, so the new dashboard is
-- removed, and the error of the removal is not the one that is thrown.
abbrev lost : Client
lost = record {
  calls = [];
  replies = ok "dash_1" ∷ err (other "fetch failed") ∷ err (other "not found") ∷ [];
}

import_lost : import_json plain (dashboard_to_portable_json plain overview) lost ≡ (
  err (other "fetch failed"),
  record {
    calls =
        create "Service overview"
        ∷ update "dash_1" (vars_fields overview.template_vars)
        ∷ remove "dash_1"
        ∷ [];
    replies = [];
  },
)
unfolding import_json send parse_portable_dashboard dashboard_to_portable_json
import_lost = refl

import_json-Imported_example :
    Imported plain
      (dashboard_to_portable_json plain overview)
      lost
      (import_json plain (dashboard_to_portable_json plain overview) lost)
import_json-Imported_example =
    import_json-Imported plain (dashboard_to_portable_json plain overview) lost
