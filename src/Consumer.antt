-- ===== src/Consumer.antt =====
-- config-cache/config-consumer.service.ts: messages of the shared lane, and the connection's retries.
-- The parser, the contract's schemas and the object store are parameters.
pub mod Safe
mod Tests
use upstat.Common.{
  ℕ, zero, suc, ◌+◌, ◌-◌, ◌*◌, ◌/◌, ◌%◌, ◌≤◌, ◌<◌, min, max, String, ◌≡◌, refl, sym, ap, ◌∙◌, ◌≢◌,
  ◌↔◌, ◌⊎◌, inl, inr, Bool, true, false, not, ◌&&◌, ◌||◌, Option, none, some, List, [], ◌∷◌, ◌++◌,
  map, arith, eq_iff, eq_refl, ltb, leb, nat_beq, if◌then◌else◌, nat_beq_iff, Eq, nat_eq, ltb→lt,
  lt→ltb, leb→le, string_eq, ◌==◌, Bool-cases, Option-cases, or_else, is_some, length, get_elem?,
  filter, total, length-append, total-append, All, All-append, includes, ApiError, Failure, Result,
  Action, and_then, ◌>>=◌, ◌>>◌, return, throw, caught, try, Result-cases, and_then_ok,
  and_then_err, caught_quiet, caught_state, ok, err, api, other, Dict, get, put, delete, has,
  get-put, get-delete, length-put, get-filter_of_false, get-filter_of_true, get-put_self, Entries,
  Entries-put, Entries-get, IsMap, put-IsMap, get_of_mem,
}
use Prim.Native.String
use upstat.Common.Text.{is_empty}
use upstat.ConfigCache.{Cache, Library, Fetch, found, missing, broken, reload}
use upstat.Events.{Json, Fields, null, boolean, number, text, object, field_of}

abbrev pub config_changed : String
config_changed = "upstat.config.changed"

abbrev pub retry_first_ms : ℕ
retry_first_ms = 2_000

abbrev pub retry_max_ms : ℕ
retry_max_ms = 60_000

pub record Contract : Type 0 where
  pub parse : String → Option Json
  pub valid_envelope : Json → Bool
  pub valid_data : Json → Bool

-- `value.name` of a value that JSON.parse returned; `none` is undefined.
abbrev pub member : String → Json → Option Json
member name (object fields) = field_of name fields
member name _ = none

abbrev pub text_of : Option Json → Option String
text_of (some (text s)) = some s
text_of _ = none

abbrev pub parsed_text : Contract → Fetch → Option Json
parsed_text c (found raw) = c.parse raw
parsed_text c missing = some null
parsed_text c (broken message) = none

abbrev pub is_truthy : Option Json → Bool
is_truthy none = false
is_truthy (some null) = false
is_truthy (some (boolean b)) = b
is_truthy (some (number finite shown)) = not (shown == "0")
is_truthy (some (text s)) = not (is_empty s)
is_truthy (some _) = true

-- The data of a message: by reference from the store, or inline. `none` is a throw.
abbrev pub data_of : Contract → Fetch → Json → Option Json
data_of c stored envelope =
    if is_truthy (member "data_ref" envelope) then parsed_text c stored else member "data" envelope

abbrev pub is_config_changed : Option Json → Bool
is_config_changed (some (text s)) = s == config_changed
is_config_changed _ = false

abbrev pub valid_kind : Contract → Option Json → Option String
valid_kind c none = none
valid_kind c (some sent) = if c.valid_data sent then text_of (member "kind" sent) else none

-- The kind that a message asks to reload; `none` for a message that is not for this service or
-- that is skipped with a logged error.
unfoldable pub kind_of : Contract → Fetch → Option String → Option String
unfolding field_of
kind_of c stored value = elim (c.parse (or_else value "null")) [
  | none ↦ none
  | some envelope ↦
      if is_config_changed (member "type" envelope) && c.valid_envelope envelope
      then valid_kind c (data_of c stored envelope)
      else none
]

-- `handle`: it never fails, whatever the message.
unfoldable pub handle : Library → Contract → ℕ → Fetch → Fetch → Option String → Cache → Cache
unfolding kind_of
handle lib c now stored snapshot value s = elim (kind_of c stored value) [
  | none ↦ s
  | some kind ↦ (reload lib kind now snapshot s).1
]

-- The consumer; `retry` is the delay of the timer that is set.
pub record Consumer : Type 0 where
  pub running : Bool
  pub stopped : Bool
  pub retry : Option ℕ

-- `start`: `connected` says how the attempt ended, `stopping` whether onModuleDestroy ran during it.
unfoldable pub start : ℕ → Bool → Bool → Consumer → Consumer
start delay connected stopping s =
    if s.stopped
    then s
    else if connected
    then record s { running = true; retry = none; stopped = stopping }
    else if stopping
    then record s { stopped = true; retry = none }
    else record s { retry = some delay }

abbrev pub next_delay : ℕ → ℕ
next_delay delay = min (delay * 2) retry_max_ms

-- The delay of the timer after a number of failed attempts in a row.
pub delay_after : ℕ → ℕ
delay_after zero = retry_first_ms
delay_after (suc n) = next_delay (delay_after n)
