-- ===== src/Events.antt =====
-- events/events.service.ts: the vocabulary and the validation of one event.
pub mod Batch
pub mod Valid
pub mod Accepts
pub mod Allowed
pub mod Http
pub mod Private
pub mod Poisoned
mod Tests
use upstat.Common.{
  ℕ, zero, suc, ◌+◌, ◌-◌, ◌*◌, ◌/◌, ◌%◌, ◌≤◌, ◌<◌, min, max, String, ◌≡◌, refl, sym, ap, ◌∙◌, ◌≢◌,
  ◌↔◌, ◌⊎◌, inl, inr, Bool, true, false, not, ◌&&◌, ◌||◌, Option, none, some, List, [], ◌∷◌, ◌++◌,
  map, arith, eq_iff, eq_refl, ltb, leb, nat_beq, if◌then◌else◌, nat_beq_iff, Eq, nat_eq, ltb→lt,
  lt→ltb, leb→le, string_eq, ◌==◌, Bool-cases, Option-cases, or_else, is_some, length, get_elem?,
  filter, total, length-append, total-append, All, All-append, includes, ApiError, Failure, Result,
  Action, and_then, ◌>>=◌, ◌>>◌, return, throw, caught, try, Result-cases, and_then_ok,
  and_then_err, caught_quiet, caught_state, ok, err, api, other, Dict, get, put, delete, has,
  get-put, get-delete, length-put, get-filter_of_false, get-filter_of_true, get-put_self, Entries,
  Entries-put, Entries-get, IsMap, put-IsMap, get_of_mem,
}
use Prim.Native.String
use Prim.Native.String.{◌∷◌ as push, [] as nil}
use Prim.Native.Char.{code}
use upstat.Common.Int.{ℤ, pos, after, before_by}
use upstat.Common.Text.{is_empty}
use upstat.ConfigCache.{RegistryEvent, Library}

-- What JSON.parse returns. A number is known by whether it is finite and by its text; an object's
-- fields come in the order of Object.entries, each name once.
mutual
  pub data Json : Type 0 where
    null : Json
    boolean : Bool → Json
    number : Bool → String → Json
    text : String → Json
    array : Items → Json
    object : Fields → Json

  pub data Items : Type 0 where
    no_items : Items
    item : Json → Items → Items

  pub data Fields : Type 0 where
    no_fields : Fields
    field : String → Json → Fields → Fields

-- `object.name`; `none` is undefined.
unfoldable pub field_of : String → Fields → Option Json
field_of name no_fields = none
field_of name (field k v rest) = if k == name then some v else field_of name rest

pub data Code : Type 0 where
  unknown_event unknown_dim ts_out_of_range bad_shape : Code

pub record Event : Type 0 where
  pub name : String
  pub ts : ℤ
  pub dims : Dict String
  pub value : Option String
  pub ineligible : Bool

-- A step of the validation: the value that it passes on, or the code of a rejection.
pub data Checked (A : Type 0) : Type 0 where
  rejected : Code → Checked A
  passed : A → Checked A

abbrev pub browser_dims : List String
browser_dims = "path" ∷ "referrer_host" ∷ "device_class" ∷ "country" ∷ []

abbrev pub devices : List String
devices = "mobile" ∷ "desktop" ∷ "tablet" ∷ []

-- The names that every object literal inherits: none of their values can be iterated.
abbrev pub inherited : List String
inherited =
    "constructor" ∷ "__defineGetter__" ∷ "__defineSetter__" ∷ "hasOwnProperty" ∷ "__lookupGetter__"
    ∷ "__lookupSetter__" ∷ "isPrototypeOf" ∷ "propertyIsEnumerable" ∷ "toString" ∷ "valueOf"
    ∷ "__proto__" ∷ "toLocaleString" ∷ []

-- `BUILT_IN[name]` in its own three properties.
unfoldable pub built_in : String → Option (List String)
built_in name =
    if name == "page_view"
    then some []
    else if name == "web_vital"
    then some ("metric" ∷ [])
    else if name == "js_error"
    then some ("fingerprint" ∷ "message" ∷ [])
    else none

abbrev pub past_ms : ℕ
past_ms = 172_800_000

abbrev pub future_ms : ℕ
future_ms = 300_000

-- `v.length`: UTF-16 units.
abbrev pub utf16_length : String → ℕ
utf16_length nil = 0
utf16_length (push c s) = (if ltb 65_535 (code c) then 2 else 1) + utf16_length s

abbrev pub is_upper : ℕ → Bool
is_upper c = leb b'A' c && leb c b'Z'

-- `/^[A-Z]{2}$/`.
abbrev pub is_country : String → Bool
is_country (push c (push d nil)) = is_upper (code c) && is_upper (code d)
is_country _ = false

-- A text that is allowed as the value of a dimension.
unfoldable pub fits_dim : String → String → Bool
fits_dim k v =
    leb (utf16_length v) 512
    && (not (k == "device_class") || includes v devices)
    && (not (k == "country") || is_country v)

unfoldable pub check_dim : List String → String → Json → Checked String
unfolding fits_dim
check_dim allowed k (text v) =
    if not (includes k allowed)
    then rejected unknown_dim
    else if fits_dim k v
    then passed v
    else rejected bad_shape
check_dim allowed k _ =
    if not (includes k allowed) then rejected unknown_dim else rejected bad_shape

-- The loop over `event.dims`.
unfoldable pub dims_from : List String → Dict String → Fields → Checked (Dict String)
unfolding check_dim
dims_from allowed dims no_fields = passed dims
dims_from allowed dims (field k v rest) = elim (check_dim allowed k v) [
  | rejected c ↦ rejected c
  | passed s ↦ dims_from allowed (put dims k s) rest
]

abbrev pub check_dims : List String → Option Json → Checked (Dict String)
check_dims allowed none = passed []
check_dims allowed (some (object fields)) = dims_from allowed [] fields
check_dims allowed (some _) = rejected bad_shape

abbrev pub check_value : Option Json → Checked (Option String)
check_value none = passed none
check_value (some (number true shown)) = passed (some shown)
check_value (some _) = rejected bad_shape

-- `ts`: `none` is NaN.
abbrev pub instant_of : Library → ℕ → Option Json → Option ℤ
instant_of lib now none = some (pos now)
instant_of lib now (some (text s)) = lib.date_parse s
instant_of lib now (some _) = none

abbrev pub in_range : ℕ → ℤ → Bool
in_range now ts = not (before_by ts past_ms now) && not (after ts (now + future_ms))

abbrev pub dims_of : Option RegistryEvent → List String
dims_of none = []
dims_of (some r) = r.dims

abbrev pub is_ineligible : Option RegistryEvent → Bool
is_ineligible none = false
is_ineligible (some r) = r.unique_ineligible

abbrev pub allowed_dims : Option RegistryEvent → Option (List String) → List String
allowed_dims registered built = browser_dims ++ dims_of registered ++ or_else built []

abbrev pub then_check : {A B : Type 0} → Checked A → (A → Checked B) → Checked B
then_check (rejected c) f = rejected c
then_check (passed a) f = f a

-- The part of `validate` after the vocabulary is known.
unfoldable pub check_event :
    Library → ℕ → String → Option RegistryEvent → List String → Fields → Checked Event
unfolding field_of dims_from
check_event lib now name registered allowed fields =
    elim (instant_of lib now (field_of "ts" fields)) [
      | none ↦ rejected bad_shape
      | some ts ↦
          if not (in_range now ts)
          then rejected ts_out_of_range
          else then_check (check_dims allowed (field_of "dims" fields)) (λ dims.
            then_check (check_value (field_of "value" fields)) (λ value. passed (record {
              name = name;
              ts = ts;
              dims = dims;
              value = value;
              ineligible = is_ineligible registered;
            })))
    ]

abbrev pub not_iterable : Failure
not_iterable = other "TypeError: builtIn is not iterable"

-- `validate` of an object with a name, once the registry was asked. An inherited name passes
-- `!builtIn`, and spreading its value throws.
unfoldable pub check_named :
    Library → ℕ → String → Option RegistryEvent → Fields → Result (Checked Event)
unfolding built_in check_event
check_named lib now name registered fields =
    if includes name inherited
    then err not_iterable
    else if not (is_some registered) && not (is_some (built_in name))
    then ok (rejected unknown_event)
    else ok (check_event lib now name registered (allowed_dims registered (built_in name)) fields)

abbrev pub name_of : Option Json → Option String
name_of (some (text s)) = if is_empty s then none else some s
name_of _ = none

unfoldable pub validate :
    Library → (String → Option RegistryEvent) → ℕ → Json → Result (Checked Event)
unfolding field_of check_named
validate lib event now (object fields) = elim (name_of (field_of "name" fields)) [
  | none ↦ ok (rejected bad_shape)
  | some name ↦ check_named lib now name (event name) fields
]
validate lib event now _ = ok (rejected bad_shape)
