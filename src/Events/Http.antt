-- ===== src/Events/Http.antt =====
-- events/events.controller.ts: one batch over HTTP.
use upstat.Common.{
  refl, get, ℕ, ◌≤◌, String, ◌≡◌, inl, inr, Bool, true, not, ◌||◌, Option, none, some, List, [],
  ◌∷◌, arith, if◌then◌else◌, nat_eq, string_eq, Bool-cases, or_else, is_some, length, Failure,
  Result, Action, Result-cases, ok, err,
}
use upstat.Common.Text.{eq_lower, trim, is_empty, first}
use upstat.Errors.{api_error}
use upstat.Valkey.{Redis}
use upstat.Net.Ingress.{Ingress, BodyEvent, Received, receive, declared_length}
use upstat.Net.Ingress.Body.{receive-bounded, receive-body_of, body_of}
use upstat.Net.ClientIp.{resolve_client_ip}
use upstat.ConfigCache.{IngestKey, property_key, rum}
use upstat.ConfigCache.Sound.{IsLive}
use upstat.Collector.{Buffer}
use upstat.Gateway.{Gateway, Env}
use upstat.Otlp.Http.{HttpEnv, Http, bearer, Received-cases}
use upstat.Events.{Json}
use upstat.Events.Batch.{Context, Draws, Accepted, authenticate, allows_origin, accept}
use upstat.Events.Allowed.{authenticate-allows}

abbrev pub events_max_bytes : ℕ
events_max_bytes = 262_144

pub data Encoding : Type 0 where
  plain gzip deflate : Encoding

-- The Content-Encoding, trimmed and in lower case, among the ones that are read.
unfoldable pub encoding_of : Option String → Option Encoding
unfolding trim eq_lower
encoding_of header =
    let text = trim (or_else header "") in
    if is_empty text || eq_lower text "identity"
    then some plain
    else if eq_lower text "gzip"
    then some gzip
    else if eq_lower text "deflate"
    then some deflate
    else none

-- What the platform gives: zlib with its cap on the output, and JSON.parse of UTF-8.
pub record Decoders : Type 0 where
  pub gunzip : ℕ → Buffer → Option Buffer
  pub inflate : ℕ → Buffer → Option Buffer
  pub parse : Buffer → Option Json

abbrev bad_encoding : Failure
bad_encoding = api_error 400 "bad_shape" "The body could not be decoded" none

abbrev bad_json : Failure
bad_json = api_error 400 "bad_shape" "The body is not valid JSON" none

abbrev not_json : Failure
not_json = api_error 415 "unsupported_media_type" "Events are application/json" none

abbrev unknown_encoding : Failure
unknown_encoding =
    api_error 415 "unsupported_media_type" "Content-Encoding is gzip, deflate or none" none

abbrev decoded : Option Buffer → Result Buffer
decoded none = err bad_encoding
decoded (some body) = ok body

-- `decode`.
unfoldable pub decode : Decoders → Encoding → Buffer → Result Buffer
decode d gzip body = decoded (d.gunzip events_max_bytes body)
decode d deflate body = decoded (d.inflate events_max_bytes body)
decode d plain body = ok body

abbrev parsed : Option Json → Result Json
parsed none = err bad_json
parsed (some json) = ok json

abbrev parse_of : Decoders → Result Buffer → Result Json
parse_of d (err e) = err e
parse_of d (ok text) = parsed (d.parse text)

-- `JSON.parse(decode(...))` with its catch.
unfoldable pub json_of : Decoders → Encoding → Buffer → Result Json
unfolding decode
json_of d encoding body = parse_of d (decode d encoding body)

-- `/^application\/json/i`.
unfoldable pub is_json : Option String → Bool
unfolding first eq_lower
is_json content_type = eq_lower (first 16 (or_else content_type "")) "application/json"

pub record EventsRequest : Type 0 where
  pub content_type : Option String
  pub authorization : Option String
  pub content_encoding : Option String
  pub origin : Option String
  pub user_agent : Option String
  pub forwarded_for : Option String
  pub content_length : Option String
  pub peer : String
  pub stream : List BodyEvent

pub data Response : Type 0 where
  answered : Result Accepted → Response
  open_request : Response

-- `origin || undefined`.
abbrev pub origin_of : Option String → Option String
origin_of none = none
origin_of (some origin) = if is_empty origin then none else some origin

module _ {R : Redis} (env : Env R) (draws : Draws) (http : HttpEnv) (decoders : Decoders)
    (now : ℕ) where
  abbrev pub context_of : EventsRequest → Context
  context_of req = record {
    plain_key = or_else (bearer req.authorization) "";
    origin = origin_of req.origin;
    ip = resolve_client_ip http.is_ip http.proxy req.forwarded_for req.peer;
    user_agent = or_else req.user_agent "";
  }

  -- What `receive` runs before the body: the content type, the encoding, then the key.
  abbrev pub pre_body : EventsRequest → Action (Gateway R.Store) IngestKey
  pre_body req g =
      if not (is_json req.content_type)
      then (err not_json, g)
      else if not (is_some (encoding_of req.content_encoding))
      then (err unknown_encoding, g)
      else authenticate env (context_of req) g

  abbrev pub process :
      IngestKey → EventsRequest → Buffer → Result Json → Action (Gateway R.Store) Accepted
  process key req body (err e) g = (err e, g)
  process key req body (ok json) g = accept env draws key json (length body) (context_of req) now g

  abbrev pub respond :
      EventsRequest → Received IngestKey × Ingress → Gateway R.Store → Response × Http R.Store
  respond req (Received.waiting, i) g = (open_request, record { ingress = i; gateway = g })
  respond req (Received.refused e, i) g = (answered (err e), record { ingress = i; gateway = g })
  respond req (Received.received key body, i) g =
      let done =
        process key req body
          (json_of decoders (or_else (encoding_of req.content_encoding) plain) body) g in
      (answered done.0, record { ingress = i; gateway = done.1 })

  abbrev pub received_of : EventsRequest → Http R.Store → Received IngestKey × Ingress
  received_of req h =
      receive http.max_concurrent events_max_bytes (pre_body req h.gateway).0
        (declared_length http.number req.content_length) req.stream h.ingress

  -- `accept` of the controller.
  unfoldable pub accept_request : EventsRequest → Http R.Store → Response × Http R.Store
  unfolding bearer is_json encoding_of json_of
  accept_request req h = respond req (received_of req h) (pre_body req h.gateway).1

  is_some_lem :
      (o : Option Encoding) → is_some o ≡ true → (encoding : Encoding) × (o ≡ some encoding)
  is_some_lem (some encoding) h = (encoding, refl)
  is_some_lem none h = cc

  pre_body-passed :
      (req : EventsRequest) (g : Gateway R.Store) (key : IngestKey)
      → (pre_body req g).0 ≡ ok key
      → (is_json req.content_type ≡ true)
        × ((encoding : Encoding) × (encoding_of req.content_encoding ≡ some encoding))
        × (pre_body req g ≡ authenticate env (context_of req) g)
  pre_body-passed req g key h = elim (Bool-cases (is_json req.content_type)) [
    | inr wrong ↦ absurd (ground (arith, wrong))
    | inl right ↦ elim (Bool-cases (is_some (encoding_of req.content_encoding))) [
      | inr wrong ↦ absurd (ground (arith, right, wrong))
      | inl known ↦
          (right, is_some_lem (encoding_of req.content_encoding) known, rw (right, known) refl)
    ]
  ]

  -- A batch is accepted only for a JSON request in a known encoding, whose key of the authorization
  -- is a property key that is live in the copy of the keys that the authentication leaves, with an
  -- allowlist that names the Origin if one was sent, and whose stream was read to its end, with a
  -- body of at most 256 KiB that decodes in that encoding and parses; the answer is what `accept`
  -- returned for that key and that document.
  pub accept_request_sound :
      (req : EventsRequest) (h : Http R.Store) (answer : Accepted)
      → (accept_request req h).0 ≡ answered (ok answer)
      → (key : IngestKey) × (body : Buffer) × (json : Json) × (encoding : Encoding) × (is_json
            req.content_type
          ≡ true)
        × (encoding_of req.content_encoding ≡ some encoding)
        × (get (pre_body req h.gateway).1.cache.keys (env.library.sha256 (context_of req).plain_key)
            ≡ some key)
        × IsLive env.library
            (env.library.sha256 (context_of req).plain_key)
            property_key
            (rum ∷ [])
            env.at.lookup
            key
        × (allows_origin key (origin_of req.origin) ≡ true)
        × (body_of req.stream ≡ some body)
        × (length body ≤ events_max_bytes)
        × (json_of decoders encoding body ≡ ok json)
        × ((accept env draws key json
              (length body)
              (context_of req)
              now
              (pre_body req h.gateway).1).0
            ≡ ok answer)
  unfolding accept_request
  accept_request_sound req h answer e = elim (Received-cases env http (received_of req h).0) [
    | inr (inl (x, q)) ↦ absurd (ground (arith, q))
    | inr (inr q) ↦ absurd (ground (arith, q))
    | inl (key, body, q) ↦
        let (accepted, short, _) =
          receive-bounded http.max_concurrent events_max_bytes (pre_body req h.gateway).0
            (declared_length http.number req.content_length) req.stream h.ingress key body q in
        let (right, (encoding, known), asked) = pre_body-passed req h.gateway key accepted in
        let (held, fit, allowed) =
          authenticate-allows env (context_of req) h.gateway key (rw asked at accepted) in
        let whole =
          receive-body_of http.max_concurrent events_max_bytes (pre_body req h.gateway).0
            (declared_length http.number req.content_length) req.stream h.ingress key body q in
        let text = json_of decoders encoding body in
        elim (Result-cases text) [
          | inl (x, unread) ↦ absurd (ground (arith, q, known, unread))
          | inr (json, read) ↦ (
            key,
            body,
            json,
            encoding,
            right,
            known,
            rw asked held,
            fit,
            allowed,
            whole,
            short,
            read,
            ground (arith, q, known, read),
          )
        ]
  ]
