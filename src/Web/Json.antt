-- ===== src/Web/Json.antt =====
-- The values that JSON.parse returns, as the web application (web/src) reads them.
use upstat.Common.{
  String, ◌≡◌, Bool, Option, none, some, List, [], ◌∷◌, if◌then◌else◌, nat_eq, string_eq, ◌==◌,
}
use upstat.Common.Int.{ℤ}

-- A number is an integer, or known by its text; an object has each name once.
mutual
  pub data Json : Type 0 where
    null : Json
    boolean : Bool → Json
    integer : ℤ → Json
    fraction : String → Json
    text : String → Json
    array : Items → Json
    object : Fields → Json

  pub data Items : Type 0 where
    no_items : Items
    item : Json → Items → Items

  pub data Fields : Type 0 where
    no_fields : Fields
    field : String → Json → Fields → Fields

-- `object.name`; `none` is undefined.
unfoldable pub field_of : String → Fields → Option Json
field_of name no_fields = none
field_of name (field k v rest) = if k == name then some v else field_of name rest

abbrev pub items_of {ℓ} : {A : Type ℓ} → (A → Json) → List A → Items
items_of f [] = no_items
items_of f (x ∷ xs) = item (f x) (items_of f xs)

-- JSON.stringify and JSON.parse, on texts that are not looked into; `none` for a SyntaxError.
pub record Codec : Type 1 where
  pub Text : Type 0
  pub stringify : Json → Text
  pub parse : Text → Option Json
  pub parse-stringify : (j : Json) → parse (stringify j) ≡ some j
