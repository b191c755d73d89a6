-- ===== src/Web/Dashboards/Placed.antt =====
-- What the parser lets through: web/src/controllers/dashboards.ts, parsePortableDashboard.
use upstat.Common.{
  String, ◌≡◌, refl, inl, inr, Bool, true, false, Option, none, some, List, [], ◌∷◌, arith, nat_eq,
  string_eq, ◌==◌, Bool-cases, or_else, All, includes,
}
use mathlib.Core.Path.{subst}
use upstat.Web.Json.{
  Json, null, boolean, integer, fraction, text, array, object, Items, no_items, item, Fields,
  no_fields, field, field_of, Codec,
}
use upstat.Web.Dashboards.{PortableWidget, Portable, widget_types}
use upstat.Web.Dashboards.Parse.{
  Refusal, Parsed, good, refused, title_not_string, query_string_not_string,
  markdown_text_not_string, version_unsupported, ◌>>>◌, demand, is_version_one, name_of, array_of,
  all_string_arrays, vars_of, type_of, string_of, viz_options_of, is_markdown_text, parse_value,
  layout_of, parse_widget, parse_widgets, parse_object, parse_portable_dashboard,
}
use upstat.Web.Dashboards.Grid.{IsPlaced, layout_of_lem}

-- A successful chain, taken apart.
>>>-eq-good {ℓ κ} :
    {A : Type ℓ} {B : Type κ} (m : Parsed A) (f : A → Parsed B) {b : B}
    → (m >>> f) ≡ good b
    → (a : A) × (m ≡ good a) × (f a ≡ good b)
>>>-eq-good (good a) f h = (a, refl, h)
>>>-eq-good (refused r) f h = cc

demand-eq-good : (t : Bool) (r : Refusal) {u : Unit {0}} → demand t r ≡ good u → t ≡ true
demand-eq-good true r h = refl
demand-eq-good false r h = cc

-- A widget that can be rendered: a known type, a place on the grid, and for markdown no text that
-- is not a string.
pub record IsSound (w : PortableWidget) : Type 0 where
  pub known_type : includes w.type widget_types ≡ true
  pub placed : IsPlaced w.layout
  pub markdown : is_markdown_text w.type w.viz_options ≡ true

type_of_lem : (o : Option Json) (s : String) → type_of o ≡ good s → includes s widget_types ≡ true
type_of_lem (some (text t)) s h = elim (Bool-cases (includes t widget_types)) [
  | inl known ↦
      let same : t ≡ s = ground (arith, known) in
      subst (λ u. includes u widget_types ≡ true) same known
  | inr not_known ↦ absurd (ground (arith, not_known))
]
type_of_lem none s h = cc
type_of_lem (some null) s h = cc
type_of_lem (some (boolean b)) s h = cc
type_of_lem (some (integer z)) s h = cc
type_of_lem (some (fraction t)) s h = cc
type_of_lem (some (array js)) s h = cc
type_of_lem (some (object fs)) s h = cc

parse_widget-IsSound : (j : Json) (w : PortableWidget) → parse_widget j ≡ good w → IsSound w
unfolding parse_widget
parse_widget-IsSound (object o) w h =
    let (type, et, h1) = >>>-eq-good (type_of (field_of "type" o)) _ h in
    let (title, e1, h2) = >>>-eq-good (string_of title_not_string (field_of "title" o)) _ h1 in
    let (query, e2, h3) =
      >>>-eq-good (string_of query_string_not_string (field_of "query_string" o)) _ h2 in
    let (options, e3, h4) = >>>-eq-good (viz_options_of (field_of "viz_options" o)) _ h3 in
    let (u, e4, h5) =
      >>>-eq-good (demand (is_markdown_text type options) markdown_text_not_string) _ h4 in
    let (layout, e5, h6) = >>>-eq-good (layout_of (field_of "layout" o)) _ h5 in
    let r : PortableWidget = record {
      type = type;
      title = or_else title type;
      query = or_else (field_of "query" o) null;
      query_string = query;
      viz_options = options;
      layout = layout;
    } in
    let same : r ≡ w = cc h6 in
    let sound : IsSound r = record {
      known_type = type_of_lem (field_of "type" o) type et;
      placed = layout_of_lem (field_of "layout" o) layout e5;
      markdown = demand-eq-good (is_markdown_text type options) markdown_text_not_string e4;
    } in
    subst IsSound same sound
parse_widget-IsSound null w h = cc
parse_widget-IsSound (boolean b) w h = cc
parse_widget-IsSound (integer z) w h = cc
parse_widget-IsSound (fraction t) w h = cc
parse_widget-IsSound (text t) w h = cc
parse_widget-IsSound (array js) w h = cc

parse_widgets-IsSound :
    (js : Items) (ws : List PortableWidget) → parse_widgets js ≡ good ws → All IsSound ws
unfolding parse_widgets
parse_widgets-IsSound no_items [] h = tt
parse_widgets-IsSound no_items (w ∷ ws) h = absurd (ground (arith, h))
parse_widgets-IsSound (item j js) ws h =
    let (w, e, h1) = >>>-eq-good (parse_widget j) _ h in
    let (rest, e1, h2) = >>>-eq-good (parse_widgets js) _ h1 in
    let same : w ∷ rest ≡ ws = cc h2 in
    subst (All IsSound) same (parse_widget-IsSound j w e, parse_widgets-IsSound js rest e1)

name_of_lem : (o : Option Json) (s : String) → name_of o ≡ good s → (s == "") ≡ false
name_of_lem (some (text t)) s h = elim (Bool-cases (t == "")) [
  | inl blank ↦ absurd (ground (arith, blank))
  | inr filled ↦
      let same : t ≡ s = ground (arith, filled) in subst (λ u. (u == "") ≡ false) same filled
]
name_of_lem none s h = cc
name_of_lem (some null) s h = cc
name_of_lem (some (boolean b)) s h = cc
name_of_lem (some (integer z)) s h = cc
name_of_lem (some (fraction t)) s h = cc
name_of_lem (some (array js)) s h = cc
name_of_lem (some (object fs)) s h = cc

vars_of_lem : (o : Option Json) (fs : Fields) → vars_of o ≡ good fs → all_string_arrays fs ≡ true
unfolding all_string_arrays
vars_of_lem none no_fields h = refl
vars_of_lem none (field k v fs) h = absurd (ground (arith, h))
vars_of_lem (some (object o)) fs h = elim (Bool-cases (all_string_arrays o)) [
  | inl all ↦
      let same : o ≡ fs = ground (arith, all) in
      subst (λ (k : Fields). all_string_arrays k ≡ true) same all
  | inr odd ↦ absurd (ground (arith, odd))
]
vars_of_lem (some null) s h = cc
vars_of_lem (some (boolean b)) s h = cc
vars_of_lem (some (integer z)) s h = cc
vars_of_lem (some (fraction t)) s h = cc
vars_of_lem (some (text t)) s h = cc
vars_of_lem (some (array js)) s h = cc

parse_value_lem :
    (o : Option Json) (p : Portable)
    → parse_value o ≡ good p
    → ((p.name == "") ≡ false) × (all_string_arrays p.template_vars ≡ true) × All IsSound p.widgets
unfolding parse_object
parse_value_lem none p h = cc
parse_value_lem (some null) p h = cc
parse_value_lem (some (boolean b)) p h = cc
parse_value_lem (some (integer z)) p h = cc
parse_value_lem (some (fraction t)) p h = cc
parse_value_lem (some (text t)) p h = cc
parse_value_lem (some (array js)) p h = cc
parse_value_lem (some (object o)) p h =
    let (u, e, h1) =
      >>>-eq-good (demand (is_version_one (field_of "version" o)) version_unsupported) _ h in
    let (name, e1, h2) = >>>-eq-good (name_of (field_of "name" o)) _ h1 in
    let (items, e2, h3) = >>>-eq-good (array_of (field_of "widgets" o)) _ h2 in
    let (vars, e3, h4) = >>>-eq-good (vars_of (field_of "template_vars" o)) _ h3 in
    let (widgets, e4, h5) = >>>-eq-good (parse_widgets items) _ h4 in
    let r : Portable = record { name = name; template_vars = vars; widgets = widgets } in
    let same : r ≡ p = cc h5 in
    subst
      (λ (q : Portable).
        ((q.name == "") ≡ false)
        × (all_string_arrays q.template_vars ≡ true)
        × All IsSound q.widgets)
      same
      (
        name_of_lem (field_of "name" o) name e1,
        vars_of_lem (field_of "template_vars" o) vars e3,
        parse_widgets-IsSound items widgets e4,
      )

-- Nothing is imported that cannot be rendered: what the parser returns has a name that is not
-- empty, template variables that are arrays of strings, and only widgets of a known type, inside
-- the grid of twelve columns and one to 24 rows high, with no markdown text that is not a string.
pub parse_portable_dashboard_lem :
    (c : Codec) (t : c.Text) (p : Portable)
    → parse_portable_dashboard c t ≡ good p
    → ((p.name == "") ≡ false) × (all_string_arrays p.template_vars ≡ true) × All IsSound p.widgets
unfolding parse_portable_dashboard
parse_portable_dashboard_lem c t p h = parse_value_lem (c.parse t) p h
