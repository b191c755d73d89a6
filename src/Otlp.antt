-- ===== src/Otlp.antt =====
-- otlp/otlp.service.ts: authenticate the ingest key, meter its bytes, forward the payload unparsed.
pub mod Answers
pub mod Allowed
pub mod Http
pub mod Grpc
pub mod Calls
mod Tests
use upstat.Common.{
  ℕ, zero, suc, ◌+◌, ◌-◌, ◌*◌, ◌/◌, ◌%◌, ◌≤◌, ◌<◌, min, max, String, ◌≡◌, refl, sym, ap, ◌∙◌, ◌≢◌,
  ◌↔◌, ◌⊎◌, inl, inr, Bool, true, false, not, ◌&&◌, ◌||◌, Option, none, some, List, [], ◌∷◌, ◌++◌,
  map, arith, eq_iff, eq_refl, ltb, leb, nat_beq, if◌then◌else◌, nat_beq_iff, Eq, nat_eq, ltb→lt,
  lt→ltb, leb→le, string_eq, ◌==◌, Bool-cases, Option-cases, or_else, is_some, length, get_elem?,
  filter, total, length-append, total-append, All, All-append, includes, ApiError, Failure, Result,
  Action, and_then, ◌>>=◌, ◌>>◌, return, throw, caught, try, Result-cases, and_then_ok,
  and_then_err, caught_quiet, caught_state, ok, err, api, other, Dict, get, put, delete, has,
  get-put, get-delete, length-put, get-filter_of_false, get-filter_of_true, get-put_self, Entries,
  Entries-put, Entries-get, IsMap, put-IsMap, get_of_mem,
}
use Prim.Native.String
use upstat.Errors.{api_error, unavailable}
use upstat.Valkey.{Redis}
use upstat.Quota.{Verdict, take}
use upstat.ConfigCache.{IngestKey, KeyKind, Scope, ingestion_token, otlp}
use upstat.ConfigCache.Lookup.{Lookup, live, wrong_scope, unknown}
use upstat.Collector.{Signal, signal_text, Buffer, Forwarded, raw, forward}
use upstat.Gateway.{
  Gateway, Env, on_quota, on_collector, take_source, find_key, count_usage, flush_usage,
}

abbrev pub preauth_per_minute : ℕ
preauth_per_minute = 1000

abbrev pub rate_limited : ℕ → Failure
rate_limited retry_after = api_error 429 "rate_limited" "Too many requests" (some retry_after)

abbrev pub no_token : Failure
no_token = api_error 401 "unauthorized" "Send your ingestion token in Upstat-Ingest-Key" none

abbrev pub scope_mismatch : Failure
scope_mismatch = api_error 403 "key_scope_mismatch" "This key is not scoped for OTLP" none

abbrev pub bad_token : Failure
bad_token = api_error 401 "unauthorized" "Unknown or revoked ingestion token" none

abbrev pub quota_exceeded : ℕ → Failure
quota_exceeded retry_after =
    api_error 429 "quota_exceeded" "This key is over its byte quota" (some retry_after)

-- `!forwarded || status >= 500 || status === 429`: what is answered as a retryable 503.
abbrev pub is_retryable : ℕ → Bool
is_retryable status = leb 500 status || status == 429

-- `key.quotas?.bytes_per_second ?? config.bytesPerSecond`.
abbrev pub byte_limit : ℕ → Option (Dict ℕ) → ℕ
byte_limit default none = default
byte_limit default (some quotas) = or_else (get quotas "bytes_per_second") default

module _ {R : Redis} (env : Env R) where
  abbrev pub within_source : Verdict → Action (Gateway R.Store) (Unit {0})
  within_source verdict g =
      if verdict.ok then (ok tt, g) else (err (rate_limited verdict.retry_after), g)

  abbrev pub check_source : Bool → String → Action (Gateway R.Store) (Unit {0})
  check_source false ip = return tt
  check_source true ip = do verdict ← take_source env ip preauth_per_minute; within_source verdict

  abbrev pub key_of : Lookup → Action (Gateway R.Store) IngestKey
  key_of (live key) = return key
  key_of wrong_scope = throw scope_mismatch
  key_of unknown = throw bad_token

  abbrev pub check_key : String → Action (Gateway R.Store) IngestKey
  check_key plain g =
      if plain == ""
      then (err no_token, g)
      else (do found ← find_key env plain ingestion_token (otlp ∷ []); key_of found) g

  unfoldable pub authenticate : String → String → Bool → Action (Gateway R.Store) IngestKey
  authenticate plain ip preauth = do check_source preauth ip; check_key plain

  abbrev pub within_quota : Verdict → Action (Gateway R.Store) (Unit {0})
  within_quota verdict g =
      if verdict.ok then (ok tt, g) else (err (quota_exceeded verdict.retry_after), g)

  -- Metering after a delivery: a failure to count is only logged.
  unfoldable pub meter : String → String → String → ℕ → ℕ → Action (Gateway R.Store) (Unit {0})
  meter org_id key_id pillar bytes items = do
    try (count_usage env org_id key_id pillar bytes items) (λ e. return tt)
    flush_usage env

  abbrev pub finish : Signal → ℕ → IngestKey → Forwarded → Action (Gateway R.Store) Forwarded
  finish signal size key answer g =
      if is_retryable answer.status
      then (err (unavailable 5), g)
      else if ltb answer.status 300
      then (do meter key.org_id key.id (signal_text signal) size 0; return answer) g
      else (ok answer, g)

  -- `default` is the configured byte quota.
  unfoldable pub ingest :
      ℕ → Signal → Buffer → IngestKey → String → Option String → Action (Gateway R.Store) Forwarded
  ingest default signal body key content_type encoding = do
    verdict ← on_quota (
        take R env.valkey env.spend_link (String.◌++◌ "key:" key.id) (length body)
          (byte_limit default key.quotas) 1 env.at.spend)
    within_quota verdict
    answer ←
        try
          (on_collector (
            forward env.collector env.at.forward signal (raw body) key.org_id content_type encoding
              false))
          (λ e. throw (unavailable 5))
    finish signal (length body) key answer
