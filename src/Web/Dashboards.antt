-- ===== src/Web/Dashboards.antt =====
-- Dashboards as portable JSON: web/src/controllers/dashboards.ts and web/src/models/dashboards.ts.
pub mod Parse
pub mod Grid
pub mod Placed
pub mod RoundTrip
pub mod Import
pub mod Rollback
mod Tests
use upstat.Common.{
  ℕ, zero, suc, ◌+◌, ◌-◌, ◌*◌, ◌/◌, ◌%◌, ◌≤◌, ◌<◌, min, max, String, ◌≡◌, refl, sym, ap, ◌∙◌, ◌≢◌,
  ◌↔◌, ◌⊎◌, inl, inr, Bool, true, false, not, ◌&&◌, ◌||◌, Option, none, some, List, [], ◌∷◌, ◌++◌,
  map, arith, eq_iff, eq_refl, ltb, leb, nat_beq, if◌then◌else◌, nat_beq_iff, Eq, nat_eq, ltb→lt,
  lt→ltb, leb→le, string_eq, ◌==◌, Bool-cases, Option-cases, or_else, is_some, length, get_elem?,
  filter, total, take, length-take, take_all, take-take, take-append_take, length-append,
  total-append, All, All-append, All-take, includes, ApiError, Failure, Result, Action, and_then,
  ◌>>=◌, ◌>>◌, return, throw, caught, try, Result-cases, and_then_ok, and_then_err, caught_quiet,
  caught_state, ok, err, api, other, Dict, get, put, delete, has, get-put, get-delete, length-put,
  get-filter_of_false, get-filter_of_true, get-put_self, Entries, Entries-put, Entries-get, IsMap,
  put-IsMap, get_of_mem,
}
use upstat.Common.Int.{ℤ, pos, negsuc}
use upstat.Web.Json.{
  Json, null, boolean, integer, fraction, text, array, object, Items, no_items, item, Fields,
  no_fields, field, field_of, items_of, Codec,
}

abbrev pub widget_types : List String
widget_types =
    "timeseries" ∷ "query_value" ∷ "toplist" ∷ "table" ∷ "heatmap" ∷ "logstream" ∷ "trace_latency"
    ∷ "slo" ∷ "status" ∷ "servicemap" ∷ "markdown" ∷ []

pub record WidgetLayout : Type 0 where
  pub x : ℤ
  pub y : ℤ
  pub w : ℤ
  pub h : ℤ

pub record Widget : Type 0 where
  pub id : String
  pub dashboard_id : String
  pub type : String
  pub title : String
  pub query : Json
  pub query_string : Option String
  pub viz_options : Fields
  pub layout : WidgetLayout

pub record Dashboard : Type 0 where
  pub id : String
  pub name : String
  pub template_vars : Dict (List String)
  pub widgets : List Widget

-- PortableDashboard and its widgets, as the parser returns them: objects are kept whole.
pub record PortableWidget : Type 0 where
  pub type : String
  pub title : String
  pub query : Json
  pub query_string : Option String
  pub viz_options : Fields
  pub layout : Fields

pub record Portable : Type 0 where
  pub name : String
  pub template_vars : Fields
  pub widgets : List PortableWidget

abbrev pub layout_fields : WidgetLayout → Fields
layout_fields l =
    field "x" (integer l.x)
      (field "y" (integer l.y) (field "w" (integer l.w) (field "h" (integer l.h) no_fields)))

-- JSON.stringify leaves out what is undefined.
abbrev optional : String → Option String → Fields → Fields
optional name none rest = rest
optional name (some s) rest = field name (text s) rest

abbrev pub widget_json : Widget → Json
widget_json w = object (
    field "type" (text w.type) (
      field "title" (text w.title) (
        field "query" w.query (
          optional "query_string" w.query_string (
            field "viz_options" (object w.viz_options)
              (field "layout" (object (layout_fields w.layout)) no_fields))))))

abbrev pub vars_fields : Dict (List String) → Fields
vars_fields [] = no_fields
vars_fields ((name, values) ∷ vars) = field name (array (items_of text values)) (vars_fields vars)

abbrev pub portable_json : Dashboard → Json
portable_json d = object (
    field "version" (integer (pos 1)) (
      field "name" (text d.name) (
        field "template_vars" (object (vars_fields d.template_vars))
          (field "widgets" (array (items_of widget_json d.widgets)) no_fields))))

-- dashboardToPortableJson.
unfoldable pub dashboard_to_portable_json : (c : Codec) → Dashboard → c.Text
dashboard_to_portable_json c d = c.stringify (portable_json d)
