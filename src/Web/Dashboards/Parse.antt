-- ===== src/Web/Dashboards/Parse.antt =====
-- parsePortableDashboard: web/src/controllers/dashboards.ts. Its errors are told apart, without
-- their wording.
use upstat.Common.{
  ◌+◌, String, Bool, true, false, not, ◌&&◌, ◌||◌, Option, none, some, List, [], ◌∷◌, leb,
  if◌then◌else◌, nat_eq, string_eq, ◌==◌, or_else, includes,
}
use upstat.Common.Int.{ℤ, pos}
use upstat.Web.Json.{
  Json, null, integer, text, array, object, Items, no_items, item, Fields, no_fields, field,
  field_of, Codec,
}
use upstat.Web.Dashboards.{PortableWidget, Portable, widget_types}

pub data Refusal : Type 0 where
  not_json version_unsupported name_required widgets_not_array bad_template_vars : Refusal
  unknown_type title_not_string query_string_not_string viz_options_not_object : Refusal
  markdown_text_not_string off_grid : Refusal

pub data Parsed {ℓ} (A : Type ℓ) : Type ℓ where
  good : A → Parsed A
  refused : Refusal → Parsed A

infixl 5 ◌>>>◌
abbrev pub ◌>>>◌ {ℓ κ} : {A : Type ℓ} {B : Type κ} → Parsed A → (A → Parsed B) → Parsed B
good a >>> f = f a
refused r >>> f = refused r

abbrev pub demand : Bool → Refusal → Parsed (Unit {0})
demand true r = good tt
demand false r = refused r

abbrev pub is_version_one : Option Json → Bool
is_version_one (some (integer (pos n))) = n == 1
is_version_one j = false

abbrev pub name_of : Option Json → Parsed String
name_of (some (text s)) = if s == "" then refused name_required else good s
name_of j = refused name_required

abbrev pub array_of : Option Json → Parsed Items
array_of (some (array js)) = good js
array_of j = refused widgets_not_array

-- `values.some((v) => typeof v !== "string")`, and not.
unfoldable pub all_strings : Items → Bool
all_strings no_items = true
all_strings (item (text s) js) = all_strings js
all_strings (item j js) = false

unfoldable pub all_string_arrays : Fields → Bool
unfolding all_strings
all_string_arrays no_fields = true
all_string_arrays (field k (array js) fs) = all_strings js && all_string_arrays fs
all_string_arrays (field k j fs) = false

-- `obj.template_vars ?? {}`, once it is checked.
abbrev pub vars_of : Option Json → Parsed Fields
vars_of none = good no_fields
vars_of (some (object fs)) = if all_string_arrays fs then good fs else refused bad_template_vars
vars_of (some j) = refused bad_template_vars

abbrev pub type_of : Option Json → Parsed String
type_of (some (text s)) = if includes s widget_types then good s else refused unknown_type
type_of j = refused unknown_type

-- A field that is undefined or a string.
abbrev pub string_of : Refusal → Option Json → Parsed (Option String)
string_of r none = good none
string_of r (some (text s)) = good (some s)
string_of r (some j) = refused r

abbrev pub viz_options_of : Option Json → Parsed Fields
viz_options_of none = good no_fields
viz_options_of (some (object fs)) = good fs
viz_options_of (some j) = refused viz_options_not_object

abbrev pub is_text : Option Json → Bool
is_text none = true
is_text (some (text s)) = true
is_text (some j) = false

-- `viz_options.text` of a markdown widget.
abbrev pub is_markdown_text : String → Fields → Bool
is_markdown_text type options = not (type == "markdown") || is_text (field_of "text" options)

abbrev pub integer_of : Option Json → Option ℤ
integer_of (some (integer z)) = some z
integer_of j = none

-- `x >= 0 && w >= 1 && x + w <= 12 && y >= 0 && h >= 1 && h <= 24` of four integers.
abbrev pub in_grid : Option ℤ → Option ℤ → Option ℤ → Option ℤ → Bool
in_grid (some (pos x)) (some (pos y)) (some (pos w)) (some (pos h)) =
    leb 1 w && leb (x + w) 12 && leb 1 h && leb h 24
in_grid x y w h = false

unfoldable pub is_placed : Fields → Bool
unfolding field_of
is_placed l =
    in_grid (integer_of (field_of "x" l)) (integer_of (field_of "y" l))
      (integer_of (field_of "w" l)) (integer_of (field_of "h" l))

abbrev pub layout_of : Option Json → Parsed Fields
layout_of (some (object l)) = if is_placed l then good l else refused off_grid
layout_of j = refused off_grid

-- One round of the loop, and the widget that it leads to.
unfoldable pub parse_widget : Json → Parsed PortableWidget
unfolding field_of is_placed
parse_widget (object w) = type_of (field_of "type" w) >>> λ type.
    string_of title_not_string (field_of "title" w) >>> λ title.
    string_of query_string_not_string (field_of "query_string" w) >>> λ query_string.
    viz_options_of (field_of "viz_options" w) >>> λ viz_options.
    demand (is_markdown_text type viz_options) markdown_text_not_string >>> λ _.
    layout_of (field_of "layout" w) >>> λ layout. good (record {
      type = type;
      title = or_else title type;
      query = or_else (field_of "query" w) null;
      query_string = query_string;
      viz_options = viz_options;
      layout = layout;
    })
parse_widget j = refused unknown_type

unfoldable pub parse_widgets : Items → Parsed (List PortableWidget)
unfolding parse_widget
parse_widgets no_items = good []
parse_widgets (item j js) = parse_widget j >>> λ w. parse_widgets js >>> λ ws. good (w ∷ ws)

unfoldable pub parse_object : Fields → Parsed Portable
unfolding parse_widgets all_string_arrays
parse_object obj = demand (is_version_one (field_of "version" obj)) version_unsupported >>> λ _.
    name_of (field_of "name" obj) >>> λ name. array_of (field_of "widgets" obj) >>> λ items.
    vars_of (field_of "template_vars" obj) >>> λ vars. parse_widgets items >>> λ widgets.
    good (record { name = name; template_vars = vars; widgets = widgets })

abbrev pub parse_value : Option Json → Parsed Portable
parse_value none = refused not_json
parse_value (some (object obj)) = parse_object obj
parse_value (some j) = refused version_unsupported

unfoldable pub parse_portable_dashboard : (c : Codec) → c.Text → Parsed Portable
unfolding parse_object
parse_portable_dashboard c t = parse_value (c.parse t)
