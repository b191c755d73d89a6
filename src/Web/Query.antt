-- ===== src/Web/Query.antt =====
-- The query bar: web/src/controllers/explorer.ts, splitQuery and joinQuery.
pub mod Reading
pub mod Words
pub mod Pills
pub mod RoundTrip
pub mod Explorer
mod Tests
use upstat.Common.{
  ℕ, zero, suc, ◌+◌, ◌-◌, ◌*◌, ◌/◌, ◌%◌, ◌≤◌, ◌<◌, min, max, String, ◌≡◌, refl, sym, ap, ◌∙◌, ◌≢◌,
  ◌↔◌, ◌⊎◌, inl, inr, Bool, true, false, not, ◌&&◌, ◌||◌, Option, none, some, List, [], ◌∷◌, ◌++◌,
  map, arith, eq_iff, eq_refl, ltb, leb, nat_beq, if◌then◌else◌, nat_beq_iff, Eq, nat_eq, ltb→lt,
  lt→ltb, leb→le, string_eq, ◌==◌, Bool-cases, Option-cases, or_else, is_some, length, get_elem?,
  filter, total, take, length-take, take_all, take-take, take-append_take, length-append,
  total-append, All, All-append, All-take, includes, ApiError, Failure, Result, Action, and_then,
  ◌>>=◌, ◌>>◌, return, throw, caught, try, Result-cases, and_then_ok, and_then_err, caught_quiet,
  caught_state, ok, err, api, other, Dict, get, put, delete, has, get-put, get-delete, length-put,
  get-filter_of_false, get-filter_of_true, get-put_self, Entries, Entries-put, Entries-get, IsMap,
  put-IsMap, get_of_mem,
}
use Prim.Native.Char.{Char, code}
use Prim.Native.String
use upstat.Common.Text.{is_space, is_empty, trim}

abbrev pub append : String → String → String
append String.[] t = t
append (String.◌∷◌ c s) t = String.◌∷◌ c (append s t)

-- QueryFilter.
pub record Pill : Type 0 where
  pub facet : String
  pub value : String
  pub negated : Bool

abbrev pub starts_word : String → Bool
starts_word String.[] = false
starts_word (String.◌∷◌ c s) = not (is_space (code c))

abbrev pub attach : Char → Bool → List String → List String
attach c true (w ∷ ws) = String.◌∷◌ c w ∷ ws
attach c true [] = String.◌∷◌ c String.[] ∷ []
attach c false ws = String.◌∷◌ c String.[] ∷ ws

-- `s.split(/\s+/).filter(Boolean)`.
unfoldable pub words : String → List String
words String.[] = []
words (String.◌∷◌ c s) =
    let rest = words s in if is_space (code c) then rest else attach c (starts_word s) rest

-- `[filterPart, ...aggParts] = q.split("|")` with `aggParts.join("|")`: what comes before the first
-- bar, and after it, if there is one.
abbrev put_first : Char → String × Option String → String × Option String
put_first c (front, back) = (String.◌∷◌ c front, back)

unfoldable pub cut : String → String × Option String
cut String.[] = (String.[], none)
cut (String.◌∷◌ c s) =
    let rest = put_first c (cut s) in if code c == b'|' then (String.[], some s) else rest

-- The term on both sides of its first colon.
abbrev put_facet : Char → Option (String × String) → Option (String × String)
put_facet c none = none
put_facet c (some (f, v)) = some (String.◌∷◌ c f, v)

unfoldable pub at_colon : String → Option (String × String)
at_colon String.[] = none
at_colon (String.◌∷◌ c s) =
    let rest = put_facet c (at_colon s) in if code c == b':' then some (String.[], s) else rest

-- `idx > 0`.
abbrev pill_at : Bool → Option (String × String) → Option Pill
pill_at negated none = none
pill_at negated (some (f, v)) =
    if is_empty f then none else some (record { facet = f; value = v; negated = negated })

-- The pill that a word stands for, if it does.
unfoldable pub pill_of : String → Option Pill
unfolding at_colon
pill_of String.[] = none
pill_of (String.◌∷◌ c s) =
    if code c == b'-' then pill_at true (at_colon s) else pill_at false (at_colon (String.◌∷◌ c s))

abbrev add_pill_of : Option Pill → List Pill → List Pill
add_pill_of none ps = ps
add_pill_of (some p) ps = p ∷ ps

unfoldable pub pills_of : List String → List Pill
unfolding pill_of
pills_of [] = []
pills_of (w ∷ ws) = add_pill_of (pill_of w) (pills_of ws)

abbrev pub is_free : String → Bool
is_free w = not (is_some (pill_of w))

-- `list.join(" ")`, and `list.filter(Boolean).join(" ")`.
unfoldable pub unwords : List String → String
unwords [] = ""
unwords (w ∷ []) = w
unwords (w ∷ v ∷ ws) = append w (String.◌∷◌ " " (unwords (v ∷ ws)))

abbrev pub join_filled : String → String → String
join_filled s t = if is_empty s then t else if is_empty t then s else append s (String.◌∷◌ " " t)

abbrev pub tail_of : Option String → String
tail_of none = ""
tail_of (some agg) = append "| " (trim agg)

pub record Split : Type 0 where
  pub pills : List Pill
  pub text : String

unfoldable pub split_query : String → Split
unfolding words cut pills_of unwords trim
split_query q =
    let (front, back) = cut q in
    let terms = words front in
    record {
      pills = pills_of terms;
      text = trim (join_filled (unwords (filter is_free terms)) (tail_of back));
    }

abbrev pub render : Pill → String
render p = append (if p.negated then "-" else "") (append p.facet (String.◌∷◌ ":" p.value))

unfoldable pub join_query : List Pill → String → String
unfolding unwords trim
join_query pills text = trim (join_filled (unwords (map render pills)) (trim text))
