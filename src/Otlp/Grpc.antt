-- ===== src/Otlp/Grpc.antt =====
-- otlp/grpc.server.ts: the interceptor and the export of one call.
use upstat.Common.{
  ℕ, zero, suc, ◌<◌, String, ◌≡◌, inl, inr, Bool, true, false, ◌||◌, Option, none, some, arith, leb,
  if◌then◌else◌, nat_eq, string_eq, ◌==◌, or_else, Failure, Result, and_then, Result-cases, ok, err,
  api, other,
}
use upstat.Common.Text.{trim, is_empty, eq_lower, first, to_string}
use upstat.Valkey.{Redis}
use upstat.Net.ClientIp.{Proxy, resolve_client_ip}
use upstat.ConfigCache.{IngestKey}
use upstat.Collector.{Signal, Buffer, Forwarded}
use upstat.Usage.{◌&◌}
use upstat.Gateway.{Gateway, Env}
use upstat.Otlp.{authenticate, ingest}
use upstat.Config.{Config, Number, integer, http, grpc, both}
use upstat.Common.Int.{pos}

pub data Status : Type 0 where
  unauthenticated permission_denied resource_exhausted unavailable invalid_argument internal :
      Status

-- `STATUS[status] ?? INTERNAL`.
unfoldable pub status_of : ℕ → Status
status_of status =
    if status == 401
    then unauthenticated
    else if status == 403
    then permission_denied
    else if status == 413 || status == 429
    then resource_exhausted
    else if status == 503
    then unavailable
    else internal

pub record StatusObject : Type 0 where
  pub code : Status
  pub details : String

-- `failure`.
unfoldable pub failure : Failure → StatusObject
unfolding status_of
failure (api e) = record { code = status_of e.status; details = e.message }
failure (other message) = record { code = internal; details = "internal" }

-- `port`: 0 where no gRPC is served.
unfoldable pub port_of : Config → Number
port_of c = elim c.transport [ http ↦ integer (pos 0) | grpc ↦ c.port | both ↦ c.grpc_port ]

-- The call's metadata, with the first value of each key.
pub record Metadata : Type 0 where
  pub authorization : Option String
  pub ingest_key : Option String
  pub forwarded_for : Option String

abbrev drop : ℕ → String → String
drop zero s = s
drop (suc n) String.[] = ""
drop (suc n) (String.◌∷◌ c s) = drop n s

-- The bearer token of `authorization`: what follows its first seven characters.
unfoldable pub bearer_key : String → String
unfolding eq_lower first trim
bearer_key auth = if eq_lower (first 7 auth) "bearer " then trim (drop 7 auth) else ""

-- An empty text counts as absent.
abbrev pub non_empty : Option String → Option String
non_empty none = none
non_empty (some s) = if is_empty s then none else some s

unfoldable pub key_of : Metadata → String
unfolding bearer_key
key_of md = or_else (non_empty md.ingest_key) (bearer_key (or_else md.authorization ""))

module _ {R : Redis} (env : Env R) (is_ip : String → Bool) (proxy : Proxy)
    (bytes_per_second : ℕ) where
  abbrev pub ip_of : Metadata → String → String
  ip_of md peer = resolve_client_ip is_ip proxy (non_empty md.forwarded_for) peer

  -- The interceptor: `none` lets the message be read.
  unfoldable pub gate : Metadata → String → Gateway R.Store → Option StatusObject × Gateway R.Store
  unfolding key_of failure
  gate md peer g =
      let done = authenticate env (key_of md) (ip_of md peer) true g in
      (elim done.0 [ ok key ↦ none | err e ↦ some (failure e) ], done.1)

  abbrev pub outcome : Result Forwarded → Option StatusObject
  outcome (err e) = some (failure e)
  outcome (ok out) =
      if leb 300 out.status
      then some (record { code = invalid_argument; details = "collector " & to_string out.status })
      else none

  -- `export`: `none` is the empty response.
  unfoldable pub export :
      Signal → Metadata → String → Buffer → Gateway R.Store → Option StatusObject × Gateway R.Store
  unfolding failure
  export signal md peer body g =
      let done =
        and_then (authenticate env (key_of md) (ip_of md peer) false g)
          (λ key. ingest env bytes_per_second signal body key "application/x-protobuf" none) in
      (outcome done.0, done.1)

  pub export-taken :
      (signal : Signal) (md : Metadata) (peer : String) (body : Buffer) (g : Gateway R.Store)
      → (export signal md peer body g).0 ≡ none
      → (key : IngestKey) × (out : Forwarded) × ((authenticate env
            (key_of md)
            (ip_of md peer)
            false
            g).0
          ≡ ok key)
        × ((ingest env bytes_per_second signal body key "application/x-protobuf" none
              (authenticate env (key_of md) (ip_of md peer) false g).1).0
            ≡ ok out)
        × (out.status < 300)
  unfolding export
  export-taken signal md peer body g e =
      let known = authenticate env (key_of md) (ip_of md peer) false g in
      elim (Result-cases known.0) [
        | inl (x, failed) ↦ absurd (ground (arith, failed))
        | inr (key, passed) ↦
            elim (Result-cases
              (ingest env bytes_per_second signal body key "application/x-protobuf" none
                known.1).0) [
                  | inl (x, failed) ↦ absurd (ground (arith, passed, failed))
                  | inr (out, took) ↦ (key, out, passed, took, ground (arith, passed, took))
                ]
      ]

  -- A whole call: the interceptor, and where it lets the message be read, the export of it.
  unfoldable pub call :
      Signal → Metadata → String → Buffer → Gateway R.Store → Option StatusObject × Gateway R.Store
  unfolding gate export
  call signal md peer body g =
      let gated = gate md peer g in
      elim gated.0 [
        | some status ↦ (some status, gated.1)
        | none ↦ export signal md peer body gated.1
      ]
