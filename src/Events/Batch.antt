-- ===== src/Events/Batch.antt =====
-- events/events.service.ts: authenticate, authorize and accept.
use upstat.Common.{
  ℕ, ◌+◌, String, Bool, true, false, not, ◌&&◌, Option, none, some, List, [], ◌∷◌, leb,
  if◌then◌else◌, nat_eq, string_eq, ◌==◌, or_else, length, includes, Failure, Action, and_then,
  ◌>>=◌, ◌>>◌, return, throw, try, ok, err, Dict, put,
}
use upstat.Common.Int.{ℤ}
use upstat.Common.Text.{to_string, is_empty, first}
use upstat.Errors.{api_error, unavailable}
use upstat.Valkey.{Redis, Link}
use upstat.Quota.{Verdict, take, salt}
use upstat.ConfigCache.{IngestKey, Cache, property_key, rum, ensure_fresh, settle, is_stale, Fetch}
use upstat.ConfigCache.Lookup
use upstat.ConfigCache.Lookup.{Lookup, live, wrong_scope, unknown}
use upstat.Collector.{LogRecord, send_logs}
use upstat.Usage.{◌&◌}
use upstat.Usage.Flush
use upstat.Usage.Flush.{flush_due}
use upstat.Gateway.{Gateway, Env, on_quota, on_meter, on_collector, take_source, find_key}
use upstat.Otlp.{within_source, preauth_per_minute}
use upstat.Events.{
  Json, Items, no_items, item, array, object, field_of, Code, Event, rejected, passed, browser_dims,
  validate,
}

abbrev pub max_batch : ℕ
max_batch = 100

abbrev pub in_batch : ℕ → Bool
in_batch n = leb 1 n && leb n max_batch

abbrev pub events_per_minute : ℕ
events_per_minute = 1200

pub record Rejection : Type 0 where
  pub index : ℕ
  pub code : Code

pub record Accepted : Type 0 where
  pub accepted : ℕ
  pub rejected : ℕ
  pub rejections : List Rejection

pub record Context : Type 0 where
  pub plain_key : String
  pub origin : Option String
  pub ip : String
  pub user_agent : String

-- What one batch takes from outside: `iso_day` is the day that toISOString names, and each event
-- that needs a salt draws bytes and meets the store anew.
pub record Draws : Type 0 where
  pub registry_fetch : Fetch
  pub iso_day : ℤ → String
  pub random : ℕ → String
  pub salt_link : ℕ → Link

abbrev pub no_key : Failure
no_key = api_error 401 "unauthorized" "Send your property key as a Bearer token" none

abbrev pub not_for_events : Failure
not_for_events = api_error 403 "key_scope_mismatch" "This key is not scoped for events" none

abbrev pub bad_key : Failure
bad_key = api_error 401 "unauthorized" "Unknown or revoked property key" none

abbrev pub bad_origin : Failure
bad_origin =
    api_error 403 "origin_not_allowed" "This origin is not on the property's allowlist" none

abbrev pub bad_batch : Failure
bad_batch = api_error 400 "bad_shape" ("events is an array of 1-" & to_string max_batch) none

abbrev pub over_rate : ℕ → Failure
over_rate after = api_error 429 "rate_limited" "This property is over its event rate" (some after)

abbrev pub allows_origin : IngestKey → Option String → Bool
allows_origin key none = true
allows_origin key (some origin) =
    not (origin == "null") && includes origin (or_else key.allowed_origins [])

-- `Array.isArray` of `body?.events`.
abbrev pub items_of : Option Json → Option Items
items_of (some (array items)) = some items
items_of _ = none

abbrev pub events_of : Json → Option Items
events_of (object fields) = items_of (field_of "events" fields)
events_of _ = none

unfoldable pub count_of : Items → ℕ
count_of no_items = 0
count_of (item j rest) = 1 + count_of rest

-- `Boolean(ctx.origin)`.
abbrev pub is_browser : Option String → Bool
is_browser none = false
is_browser (some origin) = not (is_empty origin)

abbrev pub dim_key : String → String
dim_key k = if includes k browser_dims then k else "dim." & k

unfoldable pub put_dims : Dict String → Dict String → Dict String
put_dims attributes [] = attributes
put_dims attributes ((k, v) ∷ dims) = put_dims (put attributes (dim_key k) v) dims

unfoldable pub attributes_of : IngestKey → Event → Dict String
unfolding put_dims
attributes_of key e =
    put_dims
      (("upstat.kind", "event")
        ∷ ("property_id", key.id)
        ∷ ("name", e.name)
        ∷ ("value", or_else e.value "0")
        ∷ [])
      e.dims

abbrev pub Rows : Type 0
Rows = List Rejection × List LogRecord

module _ {R : Redis} (env : Env R) where
  abbrev pub authorized : IngestKey → Option String → Action (Gateway R.Store) IngestKey
  authorized key origin g = if allows_origin key origin then (ok key, g) else (err bad_origin, g)

  abbrev pub key_of : Option String → Lookup → Action (Gateway R.Store) IngestKey
  key_of origin (live key) = authorized key origin
  key_of origin wrong_scope = throw not_for_events
  key_of origin unknown = throw bad_key

  unfoldable pub authorize : Context → Action (Gateway R.Store) IngestKey
  authorize ctx g =
      if is_empty ctx.plain_key
      then (err no_key, g)
      else (do found ← find_key env ctx.plain_key property_key (rum ∷ []); key_of ctx.origin found)
          g

  unfoldable pub authenticate : Context → Action (Gateway R.Store) IngestKey
  unfolding authorize
  authenticate ctx = do
    verdict ← take_source env ctx.ip preauth_per_minute
    within_source env verdict
    authorize ctx

module _ {R : Redis} (env : Env R) (draws : Draws) where
  -- The hash of one visitor on one day.
  abbrev pub visitor_hash : IngestKey → Context → String → String
  visitor_hash key ctx salted =
      first 32 (env.library.sha256 (salted & (key.id & ctx.ip & ctx.user_agent)))

  abbrev pub salt_of : ℕ → ℕ → ℤ → Action (Gateway R.Store) String
  salt_of now index ts = on_quota (
      salt env.platform R env.valkey (draws.salt_link index) (draws.iso_day ts) now
        (draws.random index))

  -- The record of a valid event; one from a browser carries the visitor's hash.
  unfoldable pub record_of :
      IngestKey → Context → ℕ → ℕ → Event → Action (Gateway R.Store) LogRecord
  unfolding attributes_of salt first
  record_of key ctx now index e g =
      if is_browser ctx.origin && not e.ineligible
      then (do
        salted ← salt_of now index e.ts
        return (record {
          time = e.ts;
          attributes = put (attributes_of key e) "visitor_hash" (visitor_hash key ctx salted);
        }))
          g
      else (ok (record { time = e.ts; attributes = attributes_of key e }), g)

  abbrev pub reject_at : ℕ → Code → Rows → Rows
  reject_at index code (rejections, records) =
      (record { index = index; code = code } ∷ rejections, records)

  abbrev pub record_at : LogRecord → Rows → Rows
  record_at r (rejections, records) = (rejections, r ∷ records)

  -- The loop over the events from `index` on.
  unfoldable pub rows_from : IngestKey → Context → ℕ → ℕ → Items → Action (Gateway R.Store) Rows
  unfolding validate record_of
  rows_from key ctx now index no_items g = (ok ([], []), g)
  rows_from key ctx now index (item raw rest) g =
      elim (validate env.library (λ name. Lookup.event key.org_id name g.cache) now raw) [
        | err e ↦ (err e, g)
        | ok (rejected code) ↦
            and_then (rows_from key ctx now (index + 1) rest g)
              (λ rows. return (reject_at index code rows))
        | ok (passed e) ↦ and_then (record_of key ctx now index e g) (λ r h.
            and_then (rows_from key ctx now (index + 1) rest h) (λ rows. return (record_at r rows)))
      ]

  -- Forwarding and metering, for a batch that has records.
  unfoldable pub deliver : IngestKey → ℕ → ℕ → List LogRecord → Action (Gateway R.Store) (Unit {0})
  deliver key bytes now [] = return tt
  deliver key bytes now (r ∷ rs) = do
    try (on_collector (send_logs env.collector env.at.forward key.org_id "upstat.events" (r ∷ rs)))
        (λ e. throw (unavailable 5))
    try
        (on_meter (
          Flush.add env.hashes env.integer env.collector env.valkey env.usage_links env.at.forward
            key.org_id key.id "rum" bytes (length (r ∷ rs)) now))
        (λ e. return tt)
    on_meter (
        flush_due env.hashes env.integer env.collector env.valkey env.usage_links env.at.forward
          now)

  -- `ensureFresh("registry")` with the read that it may wait for.
  abbrev pub fresh_registry : ℕ → Cache → Cache
  fresh_registry now s =
      if is_stale "registry" now s
      then settle env.library "registry" draws.registry_fetch (ensure_fresh "registry" now s)
      else s

  abbrev pub within_rate : Verdict → Action (Gateway R.Store) (Unit {0})
  within_rate verdict g =
      if verdict.ok then (ok tt, g) else (err (over_rate verdict.retry_after), g)

  abbrev pub answer : Rows → Accepted
  answer (rejections, records) = record {
    accepted = length records;
    rejected = length rejections;
    rejections = rejections;
  }

  unfoldable pub accept_items :
      IngestKey → ℕ → Context → ℕ → Items → Action (Gateway R.Store) Accepted
  unfolding rows_from deliver count_of
  accept_items key bytes ctx now items = do
    verdict ← on_quota (
        take R env.valkey env.spend_link ("events:" & key.id) (count_of items) events_per_minute 60
          now)
    within_rate verdict
    rows ← rows_from key ctx now 0 items
    deliver key bytes now rows.1
    return (answer rows)

  unfoldable pub accept : IngestKey → Json → ℕ → Context → ℕ → Action (Gateway R.Store) Accepted
  unfolding accept_items field_of
  accept key body bytes ctx now g =
      let fresh = record g { cache = fresh_registry now g.cache } in
      elim (events_of body) [
        | none ↦ (err bad_batch, fresh)
        | some items ↦
            if in_batch (count_of items)
            then accept_items key bytes ctx now items fresh
            else (err bad_batch, fresh)
      ]
