-- ===== src/Web/Keyboard.antt =====
-- The keyboard map: web/src/controllers/keyboard.ts. Time is in milliseconds.
pub mod Chords
mod Tests
use upstat.Common.{
  ℕ, zero, suc, ◌+◌, ◌-◌, ◌*◌, ◌/◌, ◌%◌, ◌≤◌, ◌<◌, min, max, String, ◌≡◌, refl, sym, ap, ◌∙◌, ◌≢◌,
  ◌↔◌, ◌⊎◌, inl, inr, Bool, true, false, not, ◌&&◌, ◌||◌, Option, none, some, List, [], ◌∷◌, ◌++◌,
  map, arith, eq_iff, eq_refl, ltb, leb, nat_beq, if◌then◌else◌, nat_beq_iff, Eq, nat_eq, ltb→lt,
  lt→ltb, leb→le, string_eq, ◌==◌, Bool-cases, Option-cases, or_else, is_some, length, get_elem?,
  filter, total, take, length-take, take_all, take-take, take-append_take, length-append,
  total-append, All, All-append, All-take, includes, ApiError, Failure, Result, Action, and_then,
  ◌>>=◌, ◌>>◌, return, throw, caught, try, Result-cases, and_then_ok, and_then_err, caught_quiet,
  caught_state, ok, err, api, other, Dict, get, put, delete, has, get-put, get-delete, length-put,
  get-filter_of_false, get-filter_of_true, get-put_self, Entries, Entries-put, Entries-get, IsMap,
  put-IsMap, get_of_mem,
}
use upstat.Common.Text.{eq_lower}

abbrev pub sequence_timeout_ms : ℕ
sequence_timeout_ms = 800

-- GO_TARGETS, as the paths of its entries.
abbrev pub go_targets : Dict String
go_targets =
    ("h", "/dashboard")
    ∷ ("d", "/dashboard/dashboards")
    ∷ ("e", "/dashboard/metrics")
    ∷ ("l", "/dashboard/logs")
    ∷ ("t", "/dashboard/traces")
    ∷ ("u", "/dashboard/uptime")
    ∷ ("m", "/dashboard/monitors")
    ∷ ("i", "/dashboard/incidents")
    ∷ ("s", "/dashboard/slos")
    ∷ []

-- A KeyboardEvent: its key, `e.key.toLowerCase()`, its modifiers, and whether its target is one
-- that is typed into.
pub record Key : Type 0 where
  pub key : String
  pub lower : String
  pub meta : Bool
  pub ctrl : Bool
  pub alt : Bool
  pub typing : Bool

-- The hook's state: the palette, the cheatsheet, and when the timer of a pending `g` fires.
pub record Keyboard : Type 0 where
  pub palette_open : Bool
  pub cheatsheet_open : Bool
  pub pending_g : Option ℕ

-- What a key press did besides: whether it was prevented, and where the router was sent.
pub record Effect : Type 0 where
  pub prevented : Bool
  pub pushed : Option String

abbrev pub nothing : Effect
nothing = record { prevented = false; pushed = none }

-- `GO_TARGETS[key]`, where that is not an inherited value.
unfoldable pub target_of : String → Option String
unfolding get
target_of key = get go_targets key

-- The timers that are due fire before a key press at `now`.
abbrev pub elapsed : ℕ → Option ℕ → Option ℕ
elapsed now none = none
elapsed now (some t) = if leb t now then none else some t

unfoldable pub tick : ℕ → Keyboard → Keyboard
tick now s = record s { pending_g = elapsed now s.pending_g }

abbrev pub chord : Option String → Effect
chord none = nothing
chord (some href) = record { prevented = true; pushed = some href }

abbrev pub first_key : ℕ → Key → Keyboard → Keyboard × Effect
first_key now e s =
    if e.key == "g"
    then (record s { pending_g = some (now + sequence_timeout_ms) }, nothing)
    else if e.key == "/"
    then (record s { palette_open = true }, record { prevented = true; pushed = none })
    else if e.key == "?"
    then (
      record s { cheatsheet_open = not s.cheatsheet_open },
      record { prevented = true; pushed = none },
    )
    else (s, nothing)

-- The listener, once the guards have passed.
abbrev pub plain_key : ℕ → Key → Keyboard → Option ℕ → Keyboard × Effect
plain_key now e s none = first_key now e s
plain_key now e s (some t) = (record s { pending_g = none }, chord (target_of e.lower))

unfoldable pub on_key_down : ℕ → Key → Keyboard → Keyboard × Effect
on_key_down now e s =
    if e.lower == "k" && (e.meta || e.ctrl)
    then (
      record s { palette_open = not s.palette_open },
      record { prevented = true; pushed = none },
    )
    else if e.meta || e.ctrl || e.alt
    then (s, nothing)
    else if e.typing
    then (s, nothing)
    else plain_key now e s s.pending_g

-- A key press at `now`, after the timers.
unfoldable pub press : ℕ → Key → Keyboard → Keyboard × Effect
unfolding tick on_key_down
press now e s = on_key_down now e (tick now s)
