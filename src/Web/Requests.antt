-- ===== src/Web/Requests.antt =====
-- Data loading: web/src/controllers/use-request.ts, and the query runs of
-- web/src/controllers/explorer.ts.
mod Tests
use upstat.Common.{
  ℕ, zero, suc, ◌+◌, ◌-◌, ◌*◌, ◌/◌, ◌%◌, ◌≤◌, ◌<◌, min, max, String, ◌≡◌, refl, sym, ap, ◌∙◌, ◌≢◌,
  ◌↔◌, ◌⊎◌, inl, inr, Bool, true, false, not, ◌&&◌, ◌||◌, Option, none, some, List, [], ◌∷◌, ◌++◌,
  map, arith, eq_iff, eq_refl, ltb, leb, nat_beq, if◌then◌else◌, nat_beq_iff, Eq, nat_eq, ltb→lt,
  lt→ltb, leb→le, string_eq, ◌==◌, Bool-cases, Option-cases, or_else, is_some, length, get_elem?,
  filter, total, length-append, total-append, All, All-append, includes, ApiError, Failure, Result,
  Action, and_then, ◌>>=◌, ◌>>◌, return, throw, caught, try, Result-cases, and_then_ok,
  and_then_err, caught_quiet, caught_state, ok, err, api, other, Dict, get, put, delete, has,
  get-put, get-delete, length-put, get-filter_of_false, get-filter_of_true, get-put_self, Entries,
  Entries-put, Entries-get, IsMap, put-IsMap, get_of_mem,
}
use upstat.Web.Latest
use upstat.Web.Latest.{Turn, call, answer, Hook}

-- RequestState, with the counter that `useRef(0)` holds. What a promise throws is kept as it is.
pub record Request (T : Type 0) : Type 0 where
  pub loaded : Option T
  pub loading : Bool
  pub error : Option Failure
  pub seq : ℕ

-- The head of `reload`.
abbrev pub reload : {T : Type 0} → Request T → Request T
reload s = record s { seq = suc s.seq; loading = true; error = none }

-- What the rest of `reload` does when its own number is the latest.
abbrev pub loaded_or_failed : {T : Type 0} → Result T → Request T → Request T
loaded_or_failed (ok v) s = record s { loaded = some v; loading = false }
loaded_or_failed (err e) s = record s { error = some e; loading = false }

pub seq-loaded_or_failed :
    {T : Type 0} (r : Result T) (s : Request T) → (loaded_or_failed r s).seq ≡ s.seq
seq-loaded_or_failed (ok v) s = refl
seq-loaded_or_failed (err e) s = refl

-- useRequest.
abbrev pub use_request : {T : Type 0} → Hook T
use_request {T} = record {
  State = Request T;
  seq = λ s. s.seq;
  begin = reload;
  settle = loaded_or_failed;
  seq-begin = λ s. refl;
  seq-settle = seq-loaded_or_failed;
}

-- The state of the metrics explorer that `runQuery` writes.
pub record Explorer (T : Type 0) : Type 0 where
  pub result : Option T
  pub running : Bool
  pub syntax_error : Option String
  pub seq : ℕ

abbrev pub run_query : {T : Type 0} → Explorer T → Explorer T
run_query s = record s { seq = suc s.seq; running = true }

-- An ApiError with the code `invalid_query` and any other Error both show their message.
abbrev pub message_of : Failure → String
message_of (api e) = if e.code == "invalid_query" then e.message else e.message
message_of (other m) = m

abbrev pub shown_or_refused : {T : Type 0} → Result T → Explorer T → Explorer T
shown_or_refused (ok v) s = record s { result = some v; syntax_error = none; running = false }
shown_or_refused (err e) s = record s { syntax_error = some (message_of e); running = false }

pub seq-shown_or_refused :
    {T : Type 0} (r : Result T) (s : Explorer T) → (shown_or_refused r s).seq ≡ s.seq
seq-shown_or_refused (ok v) s = refl
seq-shown_or_refused (err e) s = refl

-- useMetricsExplorerController's runQuery.
abbrev pub use_query : {T : Type 0} → Hook T
use_query {T} = record {
  State = Explorer T;
  seq = λ s. s.seq;
  begin = run_query;
  settle = shown_or_refused;
  seq-begin = λ s. refl;
  seq-settle = seq-shown_or_refused;
}

-- What a result holds: its value, or else what was there; and its failure.
abbrev pub value_or : {T : Type 0} → Result T → Option T → Option T
value_or (ok v) old = some v
value_or (err e) old = old

abbrev pub failure_of : {T : Type 0} → Result T → Option Failure
failure_of (ok v) = none
failure_of (err e) = some e

-- The message that a result's failure shows.
abbrev pub refusal : {T : Type 0} → Result T → Option String
refusal (ok v) = none
refusal (err e) = some (message_of e)

settled_request :
    {T : Type 0} (r : Result T) (s : Request T)
    → let t = loaded_or_failed r (reload s) in
      (t.loading ≡ false) × (t.loaded ≡ value_or r s.loaded) × (t.error ≡ failure_of r)
settled_request (ok v) s = (refl, refl, refl)
settled_request (err e) s = (refl, refl, refl)

settled_query :
    {T : Type 0} (r : Result T) (s : Explorer T)
    → let t = shown_or_refused r (run_query s) in
      (t.running ≡ false) × (t.result ≡ value_or r s.result) × (t.syntax_error ≡ refusal r)
settled_query (ok v) s = (refl, refl, refl)
settled_query (err e) s = (refl, refl, refl)

module _ {T : Type 0} (xs before after : List (Turn T)) (r : Result T) where
  -- A request shows the answer of the latest reload, whatever else was asked and answered: after
  -- any turns `xs`, while the latest reload is open and only older answers come in, the request is
  -- loading with no error; from its own answer on, with only older answers after it, it is not
  -- loading, and shows the value with no error, or the error beside the value it showed before.
  pub use_request-latest :
      (s : Request T)
      → let old = Latest.run use_request xs s in
        All (Latest.Other use_request (suc old.seq)) before
        → All (Latest.Other use_request (suc old.seq)) after
        → let waiting = Latest.run use_request (xs ++ call ∷ before) s in
          let last =
            Latest.run use_request (xs ++ call ∷ (before ++ answer (suc old.seq) r ∷ after)) s in
          (waiting.loading ≡ true)
          × (waiting.error ≡ none)
          × (last.loading ≡ false)
          × (last.loaded ≡ value_or r old.loaded)
          × (last.error ≡ failure_of r)
  use_request-latest s hb ha =
      let (e, f) = Latest.run-latest use_request xs before after r s hb ha in
      let (idle, shown, refused) = settled_request r (Latest.run use_request xs s) in
      (
        ap (λ t. t.loading) e,
        ap (λ t. t.error) e,
        ap (λ t. t.loading) f ∙ idle,
        ap (λ t. t.loaded) f ∙ shown,
        ap (λ t. t.error) f ∙ refused,
      )

  -- The metrics explorer shows the answer of the latest query: after any turns `xs`, while it runs
  -- and only older answers come in, the chart and the message of the query before it stay; from
  -- its own answer on, with only older answers after it, nothing runs, and the explorer shows the
  -- result with no message, or the failure's message beside the result of the query before.
  pub use_query-latest :
      (s : Explorer T)
      → let old = Latest.run use_query xs s in
        All (Latest.Other use_query (suc old.seq)) before
        → All (Latest.Other use_query (suc old.seq)) after
        → let waiting = Latest.run use_query (xs ++ call ∷ before) s in
          let last =
            Latest.run use_query (xs ++ call ∷ (before ++ answer (suc old.seq) r ∷ after)) s in
          (waiting.running ≡ true)
          × (waiting.result ≡ old.result)
          × (waiting.syntax_error ≡ old.syntax_error)
          × (last.running ≡ false)
          × (last.result ≡ value_or r old.result)
          × (last.syntax_error ≡ refusal r)
  use_query-latest s hb ha =
      let (e, f) = Latest.run-latest use_query xs before after r s hb ha in
      let (idle, shown, refused) = settled_query r (Latest.run use_query xs s) in
      (
        ap (λ t. t.running) e,
        ap (λ t. t.result) e,
        ap (λ t. t.syntax_error) e,
        ap (λ t. t.running) f ∙ idle,
        ap (λ t. t.result) f ∙ shown,
        ap (λ t. t.syntax_error) f ∙ refused,
      )
