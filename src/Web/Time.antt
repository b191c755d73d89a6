-- ===== src/Web/Time.antt =====
-- The global time range: web/src/controllers/time-range.tsx. Instants are milliseconds since the
-- earliest one that a Date can hold, so that they are natural numbers; the code only compares them
-- and adds and subtracts spans.
pub mod Provider
pub mod Restored
pub mod History
pub mod Zoom
mod Tests
use upstat.Common.{
  ℕ, zero, suc, ◌+◌, ◌-◌, ◌*◌, ◌/◌, ◌%◌, ◌≤◌, ◌<◌, min, max, String, ◌≡◌, refl, sym, ap, ◌∙◌, ◌≢◌,
  ◌↔◌, ◌⊎◌, inl, inr, Bool, true, false, not, ◌&&◌, ◌||◌, Option, none, some, List, [], ◌∷◌, ◌++◌,
  map, arith, eq_iff, eq_refl, ltb, leb, nat_beq, if◌then◌else◌, nat_beq_iff, Eq, nat_eq, ltb→lt,
  lt→ltb, leb→le, string_eq, ◌==◌, Bool-cases, Option-cases, or_else, is_some, length, get_elem?,
  filter, total, take, length-take, take_all, take-take, take-append_take, length-append,
  total-append, All, All-append, All-take, includes, ApiError, Failure, Result, Action, and_then,
  ◌>>=◌, ◌>>◌, return, throw, caught, try, Result-cases, and_then_ok, and_then_err, caught_quiet,
  caught_state, ok, err, api, other, Dict, get, put, delete, has, get-put, get-delete, length-put,
  get-filter_of_false, get-filter_of_true, get-put_self, Entries, Entries-put, Entries-get, IsMap,
  put-IsMap, get_of_mem,
}
use upstat.Events.{inherited}
use upstat.Web.Url.{Params, set, filled}

abbrev pub minute : ℕ
minute = 60000

abbrev pub hour : ℕ
hour = 60 * minute

abbrev pub day : ℕ
day = 24 * hour

-- `PRESET_MS[preset]`, where that is a number.
unfoldable pub preset_ms : String → Option ℕ
preset_ms p =
    if p == "15m"
    then some (15 * minute)
    else if p == "1h"
    then some hour
    else if p == "4h"
    then some (4 * hour)
    else if p == "1d"
    then some day
    else if p == "1w"
    then some (7 * day)
    else none

-- `range in PRESET_MS`, which is also true of the names that every object inherits.
unfoldable pub in_presets : String → Bool
unfolding preset_ms
in_presets p = is_some (preset_ms p) || includes p inherited

pub record Window : Type 0 where
  pub from_ms : ℕ
  pub to_ms : ℕ

-- What `parseUrl` returns and `writeUrl` takes. The preset is one of the names, or "custom".
pub record Choice : Type 0 where
  pub preset : String
  pub window : Option Window
  pub live : Bool

-- The browser's Date: `Date.parse`, `none` for NaN, and `toISOString`.
pub record Dates : Type 0 where
  pub parse : String → Option ℕ
  pub iso : ℕ → String
  pub parse-iso : (t : ℕ) → parse (iso t) ≡ some t
  pub iso_filled : (t : ℕ) → (iso t == "") ≡ false

abbrev pub preset_of : Option String → String
preset_of none = "1h"
preset_of (some range) = if in_presets range then range else "1h"

module _ (dates : Dates) where
  abbrev ordered : Option ℕ → Option ℕ → Option Window
  ordered none to = none
  ordered (some f) none = none
  ordered (some f) (some t) = if ltb f t then some (record { from_ms = f; to_ms = t }) else none

  abbrev window_of : Option String → Option String → Option Window
  window_of none to = none
  window_of (some f) none = none
  window_of (some f) (some t) = ordered (dates.parse f) (dates.parse t)

  abbrev chosen : Bool → Option Window → Option String → Choice
  chosen live (some w) range = record { preset = "custom"; window = some w; live = live }
  chosen live none range = record { preset = preset_of range; window = none; live = live }

  abbrev is_one : Option String → Bool
  is_one none = false
  is_one (some v) = v == "1"

  unfoldable pub parse_url : Params → Choice
  parse_url m =
      chosen (is_one (get m "live")) (window_of (filled (get m "from")) (filled (get m "to")))
        (filled (get m "range"))

  abbrev pub without_time : Params → Params
  without_time m = delete (delete (delete (delete m "range") "from") "to") "live"

  abbrev with_window : Option Window → String → Params → Params
  with_window (some w) preset m = set (set m "from" (dates.iso w.from_ms)) "to" (dates.iso w.to_ms)
  with_window none preset m = if preset == "custom" then m else set m "range" preset

  -- The parameters that `writeUrl` writes.
  unfoldable pub write_url : Choice → Params → Params
  write_url next m =
      let timed = with_window next.window next.preset (without_time m) in
      if next.live then set timed "live" "1" else timed
