-- ===== src/Net/Ingress.antt =====
-- net/ingress.service.ts: a body is read only after its caller is accepted, with a cap on how
-- many large bodies are in memory at once.
pub mod Body
pub mod Slots
mod Tests
use upstat.Common.{
  ℕ, zero, suc, ◌+◌, ◌-◌, ◌*◌, ◌/◌, ◌%◌, ◌≤◌, ◌<◌, min, max, String, ◌≡◌, refl, sym, ap, ◌∙◌, ◌≢◌,
  ◌↔◌, ◌⊎◌, inl, inr, Bool, true, false, not, ◌&&◌, ◌||◌, Option, none, some, List, [], ◌∷◌, ◌++◌,
  map, arith, eq_iff, eq_refl, ltb, leb, nat_beq, if◌then◌else◌, nat_beq_iff, Eq, ◌==◌, nat_eq,
  string_eq, ltb→lt, lt→ltb, leb→le, Bool-cases, Option-cases, or_else, is_some, length, get_elem?,
  filter, total, length-append, total-append, All, All-append, includes, ApiError, Failure, Result,
  Action, and_then, ◌>>=◌, ◌>>◌, return, throw, caught, try, ok, err, api, other, Dict, get, put,
  delete, has, get-put, get-delete, length-put, get-filter_of_false, get-filter_of_true,
}
use Prim.Native.String
use upstat.Common.Text.{to_string}
use upstat.Errors.{api_error}

abbrev pub small_body_bytes : ℕ
small_body_bytes = 65_536

unfoldable pub too_large : ℕ → Failure
too_large max_bytes =
    api_error 413 "payload_too_large"
      (String.◌++◌ "The body is over " (String.◌++◌ (to_string max_bytes) " bytes")) none

abbrev max_safe_integer : ℕ
max_safe_integer = 9_007_199_254_740_991

abbrev if_safe : Option ℕ → Option ℕ
if_safe none = none
if_safe (some n) = if leb n max_safe_integer then some n else none

-- `declaredLength`: the header, and what `Number` makes of it where that is an integer >= 0, if it
-- is a safe one.
unfoldable pub declared_length : (String → Option ℕ) → Option String → Option ℕ
declared_length number none = none
declared_length number (some raw) = if_safe (number raw)

abbrev pub Buffer : Type 0
Buffer = List ℕ

-- The events of a request stream. `close` says whether the request was complete.
pub data BodyEvent : Type 0 where
  bytes : Buffer → BodyEvent
  finished : BodyEvent
  failed : BodyEvent
  closed : Bool → BodyEvent

-- A promise that has not settled, or its result.
pub data Reading : Type 0 where
  pending : Reading
  settled : Result Buffer → Reading

-- `Buffer.concat(chunks, size)`: cut off or padded with zeros at `size`.
abbrev pub flat : List Buffer → Buffer
flat [] = []
flat (c ∷ cs) = c ++ flat cs

abbrev pub resized : ℕ → Buffer → Buffer
resized zero b = []
resized (suc n) [] = 0 ∷ resized n []
resized (suc n) (x ∷ b) = x ∷ resized n b

unfoldable pub concat : List Buffer → ℕ → Buffer
concat chunks size = resized size (flat chunks)

-- The listeners of `readBody`; `done` takes them off, so what follows is not heard.
unfoldable pub read_from : ℕ → List Buffer → ℕ → List BodyEvent → Reading
unfolding too_large
read_from max_bytes chunks size [] = pending
read_from max_bytes chunks size (bytes chunk ∷ es) =
    let rest = read_from max_bytes (chunks ++ chunk ∷ []) (size + length chunk) es in
    if ltb max_bytes (size + length chunk) then settled (err (too_large max_bytes)) else rest
read_from max_bytes chunks size (finished ∷ es) = settled (ok (concat chunks size))
read_from max_bytes chunks size (failed ∷ es) =
    settled (err (api_error 400 "bad_request" "The body could not be read" none))
read_from max_bytes chunks size (closed complete ∷ es) =
    let rest = read_from max_bytes chunks size es in
    if complete
    then rest
    else settled (err (api_error 400 "bad_request" "The request was cut short" none))

unfoldable pub read_body : ℕ → List BodyEvent → Reading
unfolding read_from
read_body max_bytes es = read_from max_bytes [] 0 es

pub record Ingress : Type 0 where
  pub inflight : ℕ

abbrev pub busy : Failure
busy = api_error 503 "unavailable" "Ingest is busy; retry" (some 1)

abbrev take_slot : ℕ → Ingress → Result Bool × Ingress
take_slot max_concurrent s =
    if leb max_concurrent s.inflight
    then (err busy, s)
    else (ok true, record { inflight = s.inflight + 1 })

-- `receive` between the check and the reading: whether a slot is held.
unfoldable pub admit : ℕ → ℕ → Option ℕ → Ingress → Result Bool × Ingress
unfolding too_large
admit max_concurrent max_bytes none s = take_slot max_concurrent s
admit max_concurrent max_bytes (some declared) s =
    if ltb max_bytes declared
    then (err (too_large max_bytes), s)
    else if ltb small_body_bytes declared
    then take_slot max_concurrent s
    else (ok false, s)

-- The `finally` of `receive`.
abbrev pub release : Bool → Ingress → Ingress
release held s = if held then record { inflight = s.inflight - 1 } else s

-- A refusal also sets `Connection: close`. `waiting` is a reading that has not settled.
pub data Received (T : Type 0) : Type 0 where
  received : T → Buffer → Received T
  refused : Failure → Received T
  waiting : Received T

abbrev settle : {T : Type 0} → T → Bool → Reading → Ingress → Received T × Ingress
settle t held pending s = (waiting, s)
settle t held (settled (ok body)) s = (received t body, release held s)
settle t held (settled (err e)) s = (refused e, release held s)

abbrev read_admitted :
    {T : Type 0} → ℕ → T → List BodyEvent → Result Bool × Ingress → Received T × Ingress
read_admitted max_bytes t es (err e, s) = (refused e, s)
read_admitted max_bytes t es (ok held, s) = settle t held (read_body max_bytes es) s

-- One request alone: `checked` is what its pre-body check gave, `es` what its stream sends.
unfoldable pub receive :
    {T : Type 0} → ℕ → ℕ → Result T → Option ℕ → List BodyEvent → Ingress → Received T × Ingress
unfolding admit read_body
receive max_concurrent max_bytes (err e) declared es s = (refused e, s)
receive max_concurrent max_bytes (ok t) declared es s =
    read_admitted max_bytes t es (admit max_concurrent max_bytes declared s)
