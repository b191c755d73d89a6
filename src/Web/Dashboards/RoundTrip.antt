-- ===== src/Web/Dashboards/RoundTrip.antt =====
-- Exporting a dashboard and importing it: web/src/controllers/dashboards.ts.
use upstat.Common.{
  ℕ, ◌+◌, ◌≤◌, String, ◌≡◌, refl, true, false, Option, none, some, List, [], ◌∷◌, map, arith,
  nat_eq, string_eq, ◌==◌, All, includes, Dict,
}
use upstat.Common.Int.{pos}
use upstat.Web.Json.{text, field_of, items_of, Codec}
use upstat.Web.Dashboards.{
  Widget, WidgetLayout, Dashboard, PortableWidget, widget_types, widget_json, layout_fields,
  vars_fields, portable_json, dashboard_to_portable_json,
}
use upstat.Web.Dashboards.Parse.{
  good, all_strings, all_string_arrays, is_markdown_text, is_placed, parse_widget, parse_widgets,
  parse_object, parse_portable_dashboard,
}

-- A placement inside the grid.
abbrev pub IsOnGrid : WidgetLayout → Type 0
IsOnGrid l =
    (x : ℕ) × (y : ℕ) × (w : ℕ) × (h : ℕ) × (l.x ≡ pos x)
    × (l.y ≡ pos y)
    × (l.w ≡ pos w)
    × (l.h ≡ pos h)
    × (1 ≤ w)
    × (x + w ≤ 12)
    × (1 ≤ h)
    × (h ≤ 24)

-- A widget as the application makes them.
pub record IsProper (w : Widget) : Type 0 where
  pub known_type : includes w.type widget_types ≡ true
  pub on_grid : IsOnGrid w.layout
  pub markdown : is_markdown_text w.type w.viz_options ≡ true

-- What an export keeps: all but the ids.
abbrev pub without_ids : Widget → PortableWidget
without_ids w = record {
  type = w.type;
  title = w.title;
  query = w.query;
  query_string = w.query_string;
  viz_options = w.viz_options;
  layout = layout_fields w.layout;
}

layout_placed : (l : WidgetLayout) → IsOnGrid l → is_placed (layout_fields l) ≡ true
unfolding is_placed field_of
layout_placed l (x, y, w, h, ex, ey, ew, eh, w1, xw, h1, h24) =
    rw (ex, ey, ew, eh) (ground (arith, w1, xw, h1, h24))

parse_widget_of :
    (w : Widget) (q : Option String)
    → IsProper w
    → let v : Widget = record w { query_string = q } in
      parse_widget (widget_json v) ≡ good (without_ids v)
unfolding parse_widget field_of
parse_widget_of w none p =
    rw p.known_type (rw p.markdown (rw (layout_placed w.layout p.on_grid) refl))
parse_widget_of w (some q) p =
    rw p.known_type (rw p.markdown (rw (layout_placed w.layout p.on_grid) refl))

parse_widgets-items_of :
    (ws : List Widget)
    → All IsProper ws
    → parse_widgets (items_of widget_json ws) ≡ good (map without_ids ws)
unfolding parse_widgets
parse_widgets-items_of [] h = refl
parse_widgets-items_of (w ∷ ws) (p, h) =
    rw (parse_widget_of w w.query_string p, parse_widgets-items_of ws h) refl

all_strings-items_of : (values : List String) → all_strings (items_of text values) ≡ true
unfolding all_strings
all_strings-items_of [] = refl
all_strings-items_of (v ∷ values) = all_strings-items_of values

all_string_arrays-vars_fields :
    (vars : Dict (List String)) → all_string_arrays (vars_fields vars) ≡ true
unfolding all_string_arrays
all_string_arrays-vars_fields [] = refl
all_string_arrays-vars_fields ((name, values) ∷ vars) =
    rw (all_strings-items_of values, all_string_arrays-vars_fields vars) refl

-- An export is imported as it was: parsing the text of a dashboard that has a name and proper
-- widgets gives its name, its template variables, and its widgets in order without their ids.
pub parse_portable_dashboard-dashboard_to_portable_json :
    (c : Codec) (d : Dashboard)
    → (d.name == "") ≡ false
    → All IsProper d.widgets
    → parse_portable_dashboard c (dashboard_to_portable_json c d)
      ≡ good (record {
        name = d.name;
        template_vars = vars_fields d.template_vars;
        widgets = map without_ids d.widgets;
      })
unfolding parse_portable_dashboard parse_object dashboard_to_portable_json field_of
parse_portable_dashboard-dashboard_to_portable_json c d named proper =
    rw (c.parse-stringify (portable_json d)) (
      rw named (
        rw (all_string_arrays-vars_fields d.template_vars)
          (rw (parse_widgets-items_of d.widgets proper) refl)))
