-- ===== src/Web/Tail.antt =====
-- The live tail of the log explorer: web/src/controllers/logs.ts.
mod Pauses
mod Distinct
mod Tidy
mod Tests
use upstat.Common.{
  ℕ, zero, suc, ◌+◌, ◌-◌, ◌*◌, ◌/◌, ◌%◌, ◌≤◌, ◌<◌, min, max, String, ◌≡◌, refl, sym, ap, ◌∙◌, ◌≢◌,
  ◌↔◌, ◌⊎◌, inl, inr, Bool, true, false, not, ◌&&◌, ◌||◌, Option, none, some, List, [], ◌∷◌, ◌++◌,
  map, arith, eq_iff, eq_refl, ltb, leb, nat_beq, if◌then◌else◌, nat_beq_iff, Eq, nat_eq, ltb→lt,
  lt→ltb, leb→le, string_eq, ◌==◌, Bool-cases, Option-cases, or_else, is_some, length, get_elem?,
  filter, total, take, length-take, take_all, take-take, take-append_take, length-append,
  total-append, All, All-append, All-take, includes, ApiError, Failure, Result, Action, and_then,
  ◌>>=◌, ◌>>◌, return, throw, caught, try, Result-cases, and_then_ok, and_then_err, caught_quiet,
  caught_state, ok, err, api, other, Dict, get, put, delete, has, get-put, get-delete, length-put,
  get-filter_of_false, get-filter_of_true, get-put_self, Entries, Entries-put, Entries-get, IsMap,
  put-IsMap, get_of_mem,
}

abbrev pub tail_max : ℕ
tail_max = 400

-- A LogEvent: its id, and the rest of it.
pub record LogEvent (T : Type 0) : Type 0 where
  pub id : String
  pub rest : T

-- The hook's state between two events, when React has rendered. `entry` numbers the runs of the
-- effect: a run's polls have its number, and are dropped as `stopped` once it has ended.
pub record Tail (T : Type 0) : Type 0 where
  pub live : Bool
  pub active_query : String
  pub tail : List (LogEvent T)
  pub paused : Bool
  pub buffered : List (LogEvent T)
  pub seen : List String
  pub entry : ℕ

abbrev pub initial : {T : Type 0} → String → Tail T
initial q = record {
  live = false;
  active_query = q;
  tail = [];
  paused = false;
  buffered = [];
  seen = [];
  entry = 0;
}

module _ {T : Type 0} where
  -- `page.events.filter((e) => !seen.current.has(e.id))`.
  unfoldable pub fresh_of : List String → List (LogEvent T) → List (LogEvent T)
  fresh_of seen page = filter (λ e. not (includes e.id seen)) page

  abbrev pub ids : List (LogEvent T) → List String
  ids [] = []
  ids (e ∷ es) = e.id ∷ ids es

  -- What `poll(first)` does with a page that a run still in force received.
  unfoldable pub received : Bool → List (LogEvent T) → Tail T → Tail T
  unfolding fresh_of
  received first page s =
      let fresh = fresh_of s.seen page in
      let known = record s { seen = ids fresh ++ s.seen } in
      if first
      then record known { tail = take tail_max fresh; buffered = []; paused = false }
      else if s.paused
      then record known { buffered = fresh ++ s.buffered }
      else record known { tail = take tail_max (fresh ++ s.tail) }

  -- A new run of the effect.
  abbrev entered : Tail T → Tail T
  entered s = record s { seen = []; entry = suc s.entry }

  unfoldable pub set_live : Bool → Tail T → Tail T
  set_live on s =
      if on
      then (if s.live then s else entered (record s { live = true }))
      else record s { live = false; entry = suc s.entry }

  unfoldable pub pause : Tail T → Tail T
  pause s = record s { paused = true }

  unfoldable pub resume : Tail T → Tail T
  resume s = record s { tail = take tail_max (s.buffered ++ s.tail); buffered = []; paused = false }

  -- The state writes of `submitQuery`, and the effect's new run when the query is another one.
  unfoldable pub submit_query : String → Tail T → Tail T
  submit_query q s =
      let cleared = record s { active_query = q; tail = []; buffered = []; seen = [] } in
      if s.live && not (q == s.active_query) then entered cleared else cleared

  -- The answer of a poll: `none` when the query threw.
  unfoldable pub answered : ℕ → Bool → Option (List (LogEvent T)) → Tail T → Tail T
  unfolding received
  answered run first none s = s
  answered run first (some page) s = if s.live && s.entry == run then received first page s else s

-- What happens to the hook.
pub data Event (T : Type 0) : Type 0 where
  live : Bool → Event T
  answer : ℕ → Bool → Option (List (LogEvent T)) → Event T
  scroll_away : Event T
  click_buffered : Event T
  submit : String → Event T

module _ {T : Type 0} where
  unfoldable pub step : Event T → Tail T → Tail T
  unfolding set_live answered pause resume submit_query
  step (live on) s = set_live on s
  step (answer n first page) s = answered n first page s
  step scroll_away s = pause s
  step click_buffered s = resume s
  step (submit q) s = submit_query q s

  unfoldable pub run : List (Event T) → Tail T → Tail T
  run [] s = s
  run (e ∷ es) s = run es (step e s)
