-- ===== src/Otlp/Http.antt =====
-- otlp/otlp.controller.ts: one export over HTTP, from its headers and its stream to the response.
use upstat.Common.{
  ℕ, ◌≤◌, String, ◌≡◌, refl, ◌⊎◌, inl, inr, Bool, true, not, ◌&&◌, ◌||◌, Option, none, some, List,
  [], ◌∷◌, arith, if◌then◌else◌, nat_eq, string_eq, Bool-cases, or_else, is_some, length, get_elem?,
  Failure, Result, Action, ok, err, get,
}
use upstat.Common.Text.{split, eq_lower, trim, is_empty, strip_prefix}
use upstat.Errors.{api_error}
use upstat.Valkey.{Redis}
use upstat.Net.ClientIp.{Proxy, resolve_client_ip}
use upstat.Net.Ingress.{Ingress, BodyEvent, Received, receive, declared_length}
use upstat.Net.Ingress.Body.{receive-bounded, receive-body_of, body_of}
use upstat.ConfigCache.{IngestKey, ingestion_token, otlp}
use upstat.ConfigCache.Sound.{IsLive}
use upstat.Collector.{Signal, Buffer, Forwarded}
use upstat.Gateway.{Gateway, Env}
use upstat.Otlp.{authenticate, ingest}
use upstat.Otlp.Allowed.{authenticate-IsLive}

-- The two parts of a header that `split(" ")` gives first.
abbrev bearer_of : Option String → Option String → Option String
bearer_of (some scheme) (some token) =
    if eq_lower scheme "bearer" && not (is_empty token) then some (trim token) else none
bearer_of _ _ = none

-- `bearer`.
unfoldable pub bearer : Option String → Option String
unfolding split eq_lower trim
bearer header =
    let parts = split b' ' (or_else header "") in bearer_of (get_elem? parts 0) (get_elem? parts 1)

-- `/^application\/(x-protobuf|protobuf|json)/`.
unfoldable pub is_otlp : String → Bool
unfolding strip_prefix
is_otlp content_type =
    is_some (strip_prefix "application/x-protobuf" content_type)
    || is_some (strip_prefix "application/protobuf" content_type)
    || is_some (strip_prefix "application/json" content_type)

pub record HttpRequest : Type 0 where
  pub content_type : Option String
  pub ingest_key : Option String
  pub authorization : Option String
  pub content_encoding : Option String
  pub forwarded_for : Option String
  pub content_length : Option String
  pub peer : String
  pub stream : List BodyEvent

pub record HttpEnv : Type 0 where
  pub is_ip : String → Bool
  pub number : String → Option ℕ
  pub proxy : Proxy
  pub max_body_bytes : ℕ
  pub max_concurrent : ℕ
  pub bytes_per_second : ℕ

-- The response of a request; a body that has not ended has none.
pub data Response : Type 0 where
  answered : Result Forwarded → Response
  open_request : Response

pub record Http (S : Type 0) : Type 0 where
  pub ingress : Ingress
  pub gateway : Gateway S

abbrev unsupported : Failure
unsupported =
    api_error 415 "unsupported_media_type" "OTLP is application/x-protobuf or application/json" none

abbrev pub type_of : HttpRequest → String
type_of req = or_else req.content_type "application/x-protobuf"

abbrev pub plain_key_of : HttpRequest → String
plain_key_of req = or_else req.ingest_key (or_else (bearer req.authorization) "")

module _ {R : Redis} (env : Env R) (http : HttpEnv) where
  abbrev pub ip_of : HttpRequest → String
  ip_of req = resolve_client_ip http.is_ip http.proxy req.forwarded_for req.peer

  -- What `receive` runs before the body: the content type, then the key.
  abbrev pub pre_body : HttpRequest → Action (Gateway R.Store) IngestKey
  pre_body req g =
      if is_otlp (type_of req)
      then authenticate env (plain_key_of req) (ip_of req) true g
      else (err unsupported, g)

  abbrev pub respond :
      Signal
      → HttpRequest
      → Received IngestKey × Ingress
      → Gateway R.Store
      → Response × Http R.Store
  respond signal req (Received.waiting, i) g = (open_request, record { ingress = i; gateway = g })
  respond signal req (Received.refused e, i) g =
      (answered (err e), record { ingress = i; gateway = g })
  respond signal req (Received.received key body, i) g =
      let done =
        ingest env http.bytes_per_second signal body key (type_of req) req.content_encoding g in
      (answered done.0, record { ingress = i; gateway = done.1 })

  abbrev pub received_of : HttpRequest → Http R.Store → Received IngestKey × Ingress
  received_of req h =
      receive http.max_concurrent http.max_body_bytes (pre_body req h.gateway).0
        (declared_length http.number req.content_length) req.stream h.ingress

  -- `export`.
  unfoldable pub export : Signal → HttpRequest → Http R.Store → Response × Http R.Store
  unfolding bearer is_otlp
  export signal req h = respond signal req (received_of req h) (pre_body req h.gateway).1

  pub Received-cases :
      (r : Received IngestKey)
      → ((key : IngestKey) × (body : Buffer) × (r ≡ Received.received key body))
        ⊎ ((e : Failure) × (r ≡ Received.refused e))
        ⊎ (r ≡ Received.waiting)
  Received-cases (Received.received key body) = inl (key, body, refl)
  Received-cases (Received.refused e) = inr (inl (e, refl))
  Received-cases Received.waiting = inr (inr refl)

  pre_body-passed :
      (req : HttpRequest) (g : Gateway R.Store) (key : IngestKey)
      → (pre_body req g).0 ≡ ok key
      → (is_otlp (type_of req) ≡ true)
        × (pre_body req g ≡ authenticate env (plain_key_of req) (ip_of req) true g)
  pre_body-passed req g key h = elim (Bool-cases (is_otlp (type_of req))) [
    | inl right ↦ ground (arith, right)
    | inr wrong ↦ absurd (ground (arith, wrong))
  ]

  -- A response of the collector reaches the sender only for a request whose content type is OTLP's,
  -- whose stream was read to its end, with a body within the limit, and whose token names a key
  -- that is live in the copy of the keys that the authentication leaves; it is what `ingest`
  -- returned for that key and that body.
  pub export_sound :
      (signal : Signal) (req : HttpRequest) (h : Http R.Store) (out : Forwarded)
      → (export signal req h).0 ≡ answered (ok out)
      → (key : IngestKey) × (body : Buffer) × (is_otlp (type_of req) ≡ true)
        × (get (pre_body req h.gateway).1.cache.keys (env.library.sha256 (plain_key_of req))
            ≡ some key)
        × IsLive env.library
            (env.library.sha256 (plain_key_of req))
            ingestion_token
            (otlp ∷ [])
            env.at.lookup
            key
        × (body_of req.stream ≡ some body)
        × (length body ≤ http.max_body_bytes)
        × ((ingest env http.bytes_per_second signal body key
              (type_of req)
              req.content_encoding
              (pre_body req h.gateway).1).0
            ≡ ok out)
  unfolding export
  export_sound signal req h out e = elim (Received-cases (received_of req h).0) [
    | inr (inl (x, q)) ↦ absurd (ground (arith, q))
    | inr (inr q) ↦ absurd (ground (arith, q))
    | inl (key, body, q) ↦
        let (accepted, short, _) =
          receive-bounded http.max_concurrent http.max_body_bytes (pre_body req h.gateway).0
            (declared_length http.number req.content_length) req.stream h.ingress key body q in
        let (right, asked) = pre_body-passed req h.gateway key accepted in
        let (held, fit) =
          authenticate-IsLive env (plain_key_of req) (ip_of req) true h.gateway key
            (rw asked at accepted) in
        (
          key,
          body,
          right,
          rw asked held,
          fit,
          receive-body_of http.max_concurrent http.max_body_bytes (pre_body req h.gateway).0
              (declared_length http.number req.content_length) req.stream h.ingress key body q,
          short,
          ground (arith, q),
        )
  ]
