-- ===== src/Collector.antt =====
-- collector/: the hop to the OpenTelemetry Collector and the ID tokens that it carries. The
-- network is a queue of the replies to come and a log of what was sent.

pub mod Signer
pub mod Headers
pub mod Tokens
mod Tests
use upstat.Common.{
  ℕ, zero, suc, ◌+◌, ◌-◌, ◌*◌, ◌/◌, ◌%◌, ◌≤◌, ◌<◌, min, max, String, ◌≡◌, refl, sym, ap, ◌∙◌, ◌≢◌,
  ◌↔◌, ◌⊎◌, inl, inr, Bool, true, false, not, ◌&&◌, ◌||◌, Option, none, some, List, [], ◌∷◌, ◌++◌,
  map, arith, eq_iff, eq_refl, ltb, leb, nat_beq, if◌then◌else◌, nat_beq_iff, Eq, nat_eq, ltb→lt,
  lt→ltb, leb→le, string_eq, ◌==◌, Bool-cases, Option-cases, or_else, is_some, length, get_elem?,
  filter, total, length-append, total-append, All, All-append, includes, ApiError, Failure, Result,
  Action, and_then, ◌>>=◌, ◌>>◌, return, throw, caught, try, Result-cases, and_then_ok,
  and_then_err, caught_quiet, caught_state, ok, err, api, other, Dict, get, put, delete, has,
  get-put, get-delete, length-put, get-filter_of_false, get-filter_of_true, get-put_self, Entries,
  Entries-put, Entries-get, IsMap, put-IsMap, get_of_mem,
}
use Prim.Native.String
use upstat.Common.Int.{ℤ, times, show_int}
use upstat.Common.Text.{trim, is_empty, to_string}

abbrev pub Buffer : Type 0
Buffer = List ℕ

pub data Signal : Type 0 where
  traces metrics logs : Signal

abbrev pub signal_text : Signal → String
signal_text traces = "traces"
signal_text metrics = "metrics"
signal_text logs = "logs"

-- One row of the gateway's own: a time in milliseconds and its attributes.
pub record LogRecord : Type 0 where
  pub time : ℤ
  pub attributes : Dict String

-- An OTLP/JSON log record as `logs` builds it.
pub record OtlpRecord : Type 0 where
  pub time_unix_nano : String
  pub severity_text : String
  pub body : String
  pub attributes : List (String × String)

-- What is sent: bytes as they came, or the document that `logs` builds.
pub data Payload : Type 0 where
  raw : Buffer → Payload
  log_rows : String → List OtlpRecord → Payload

pub record Outgoing : Type 0 where
  pub url : String
  pub headers : Dict String
  pub body : Payload

-- What the network answers to one call: a response, or a failure (also a timeout).
pub data Reply : Type 0 where
  response : ℕ → Buffer → Option String → Reply
  unreachable : String → Reply

-- What the metadata server answers: its status and text, or a failure.
pub data Metadata : Type 0 where
  identity : ℕ → String → Metadata
  no_metadata : String → Metadata

pub record Token : Type 0 where
  pub token : String
  pub expires : ℕ

pub record Collector : Type 0 where
  pub tokens : Dict Token
  pub sent : List Outgoing
  pub replies : List Reply
  pub metadata : List Metadata
  pub asked : List String  -- the audiences that the metadata server was asked for

pub record Config : Type 0 where
  pub collector_url : String
  pub on_cloud_run : Bool

pub record Forwarded : Type 0 where
  pub status : ℕ
  pub body : Buffer
  pub content_type : String

-- `response.ok`.
abbrev pub is_ok : ℕ → Bool
is_ok status = leb 200 status && ltb status 300

abbrev pub minute_ms : ℕ
minute_ms = 60_000

abbrev next_metadata : List Metadata → Metadata × List Metadata
next_metadata [] = (no_metadata "fetch failed", [])
next_metadata (m ∷ ms) = (m, ms)

abbrev keep_token : String → ℕ → Metadata → Action Collector String
keep_token audience now (no_metadata message) s = (err (other message), s)
keep_token audience now (identity status text) s =
    if is_ok status
    then (
      ok (trim text),
      record s {
        tokens =
            put s.tokens audience (record { token = trim text; expires = now + 55 * minute_ms });
      },
    )
    else (err (other (String.◌++◌ "metadata identity status " (to_string status))), s)

-- `hit && hit.expires - now > 5 * 60_000`.
abbrev pub valid_token : Option Token → ℕ → Option String
valid_token none now = none
valid_token (some hit) now = if ltb (now + 5 * minute_ms) hit.expires then some hit.token else none

-- IdTokenSigner's `token`.
unfoldable pub token : String → ℕ → Action Collector String
unfolding trim
token audience now s = elim (valid_token (get s.tokens audience) now) [
  | some t ↦ (ok t, s)
  | none ↦
      let (m, rest) = next_metadata s.metadata in
      keep_token audience now m (record s { metadata = rest; asked = s.asked ++ audience ∷ [] })
]

-- IdTokenSigner's `headers`.
unfoldable pub signer_headers : Config → ℕ → Action Collector (Dict String)
unfolding token
signer_headers cfg now s =
    if cfg.on_cloud_run
    then (do
      t ← token cfg.collector_url now
      return (("Authorization", String.◌++◌ "Bearer " t) ∷ []))
        s
    else (ok [], s)

abbrev add_encoding : Option String → Dict String → Dict String
add_encoding none h = h
add_encoding (some encoding) h = if is_empty encoding then h else put h "Content-Encoding" encoding

unfoldable pub forward_headers : Dict String → String → String → Option String → Bool → Dict String
forward_headers signed org_id content_type encoding internal =
    let fixed = put (put signed "Content-Type" content_type) "X-Upstat-Org-Id" org_id in
    let encoded = add_encoding encoding fixed in
    if internal then put encoded "X-Upstat-Source" "internal" else encoded

abbrev pub next_reply : List Reply → Reply × List Reply
next_reply [] = (unreachable "fetch failed", [])
next_reply (r ∷ rs) = (r, rs)

abbrev pub received : String → Reply → Result Forwarded
received content_type (unreachable message) = err (other message)
received content_type (response status body type) =
    ok (record { status = status; body = body; content_type = or_else type content_type })

-- `fetch`.
abbrev pub post : Outgoing → String → Action Collector Forwarded
post out content_type s = (
  received content_type (next_reply s.replies).0,
  record s { replies = (next_reply s.replies).1; sent = s.sent ++ out ∷ [] },
)

module _ (cfg : Config) where
  unfoldable pub forward :
      ℕ → Signal → Payload → String → String → Option String → Bool → Action Collector Forwarded
  unfolding signer_headers forward_headers
  forward now signal body org_id content_type encoding internal = do
    signed ← signer_headers cfg now
    post
        (record {
          url = String.◌++◌ (String.◌++◌ cfg.collector_url "/v1/") (signal_text signal);
          headers = forward_headers signed org_id content_type encoding internal;
          body = body;
        })
        content_type

  abbrev pub otlp_record : String → LogRecord → OtlpRecord
  otlp_record service r = record {
    time_unix_nano = show_int (times r.time 1_000_000);
    severity_text = "INFO";
    body = service;
    attributes = r.attributes;
  }

  abbrev check_status : Forwarded → Action Collector (Unit {0})
  check_status answer s =
      if leb 300 answer.status
      then (err (other (String.◌++◌ "collector answered " (to_string answer.status))), s)
      else (ok tt, s)

  -- `logs`.
  unfoldable pub send_logs : ℕ → String → String → List LogRecord → Action Collector (Unit {0})
  unfolding forward
  send_logs now org_id service [] s = (ok tt, s)
  send_logs now org_id service (r ∷ rs) s =
      (do
        answer ←
            forward now logs (log_rows service (map (otlp_record service) (r ∷ rs))) org_id
              "application/json" none true
        check_status answer)
        s
