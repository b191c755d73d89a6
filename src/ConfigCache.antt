-- ===== src/ConfigCache.antt =====
-- config-cache/config-cache.service.ts: the gateway's copy of the ingest keys and the event
-- registry. A read of the snapshot takes turns of the event loop, so `refresh` starts it and
-- `settle` ends it, and `lookup_fresh` is split at its await. SHA-256, Date.parse, JSON.parse and
-- the object storage are parameters.
pub mod Lookup
pub mod Sound
pub mod Fresh
pub mod Misses
pub mod Answers
mod Tests
use upstat.Common.{
  ℕ, zero, suc, ◌+◌, ◌-◌, ◌*◌, ◌/◌, ◌%◌, ◌≤◌, ◌<◌, min, max, String, ◌≡◌, refl, sym, ap, ◌∙◌, ◌≢◌,
  ◌↔◌, ◌⊎◌, inl, inr, Bool, true, false, not, ◌&&◌, ◌||◌, Option, none, some, List, [], ◌∷◌, ◌++◌,
  map, arith, eq_iff, eq_refl, ltb, leb, nat_beq, if◌then◌else◌, nat_beq_iff, Eq, ◌==◌, nat_eq,
  string_eq, ltb→lt, lt→ltb, leb→le, Bool-cases, Option-cases, or_else, is_some, length, get_elem?,
  filter, total, length-append, total-append, All, All-append, includes, ApiError, Failure, Result,
  Action, and_then, ◌>>=◌, ◌>>◌, return, throw, caught, try, ok, err, api, other, Dict, get, put,
  delete, has, get-put, get-delete, length-put, get-filter_of_false, get-filter_of_true,
}
use upstat.Common.Int.{ℤ, before}

pub data KeyKind : Type 0 where
  ingestion_token property_key : KeyKind

pub data Scope : Type 0 where
  otlp rum statsd all : Scope

abbrev pub kind_beq : KeyKind → KeyKind → Bool
kind_beq ingestion_token ingestion_token = true
kind_beq property_key property_key = true
kind_beq _ _ = false

abbrev pub scope_beq : Scope → Scope → Bool
scope_beq otlp otlp = true
scope_beq rum rum = true
scope_beq statsd statsd = true
scope_beq all all = true
scope_beq _ _ = false

pub kind_beq_iff : (a b : KeyKind) → (kind_beq a b ≡ true) ↔ (a ≡ b)
kind_beq_iff a b = ground arith

pub scope_beq_iff : (a b : Scope) → (scope_beq a b ≡ true) ↔ (a ≡ b)
scope_beq_iff a b = ground arith

instance abbrev pub kind_eq : Eq KeyKind
kind_eq = record { same = kind_beq; same_iff = kind_beq_iff }

instance abbrev pub scope_eq : Eq Scope
scope_eq = record { same = scope_beq; same_iff = scope_beq_iff }

pub record IngestKey : Type 0 where
  pub id : String
  pub org_id : String
  pub kind : KeyKind
  pub scope : Scope
  pub hash : String
  pub previous_hash : Option String
  pub previous_expires_at : Option String
  pub status : String
  pub allowed_origins : Option (List String)
  pub quotas : Option (Dict ℕ)

pub record RegistryEvent : Type 0 where
  pub org_id : String
  pub name : String
  pub dims : List String
  pub unique_ineligible : Bool

pub record Cache : Type 0 where
  pub keys : Dict IngestKey
  pub registry : Dict (Dict RegistryEvent)
  pub versions : Dict ℕ
  pub next_check_at : Dict ℕ
  pub inflight : Dict ℕ  -- the kinds being read, with the instant of their refresh
  pub missed_at : Dict ℕ
  pub last_miss_refresh_at : ℕ
  pub max_age_ms : ℕ
  pub loaded : Bool

abbrev pub miss_floor_ms : ℕ
miss_floor_ms = 30_000

abbrev pub miss_global_floor_ms : ℕ
miss_global_floor_ms = 1_000

abbrev pub failure_retry_ms : ℕ
failure_retry_ms = 5_000

abbrev pub miss_memory : ℕ
miss_memory = 10_000

-- A snapshot as JSON.parse returns it; `items` may be missing or null.
pub record Snapshot (A : Type 0) : Type 0 where
  pub version : ℕ
  pub items : Option (List A)

-- What storage answers: the object's text, no object, or a failure.
pub data Fetch : Type 0 where
  found : String → Fetch
  missing : Fetch
  broken : String → Fetch

pub record Library : Type 0 where
  pub sha256 : String → String
  pub date_parse : String → Option ℤ
  pub parse_keys : String → Option (Snapshot IngestKey)
  pub parse_registry : String → Option (Snapshot RegistryEvent)

abbrev pub add_previous : Dict IngestKey → IngestKey → Option String → Dict IngestKey
add_previous m k none = m
add_previous m k (some h) = if h == "" then m else put m h k

abbrev pub add_key : Dict IngestKey → IngestKey → Dict IngestKey
add_key m k = add_previous (put m k.hash k) k k.previous_hash

unfoldable pub keys_from : Dict IngestKey → List IngestKey → Dict IngestKey
keys_from m [] = m
keys_from m (k ∷ ks) = keys_from (add_key m k) ks

abbrev pub add_event : Dict (Dict RegistryEvent) → RegistryEvent → Dict (Dict RegistryEvent)
add_event m e = put m e.org_id (put (or_else (get m e.org_id) []) e.name e)

unfoldable pub registry_from :
    Dict (Dict RegistryEvent) → List RegistryEvent → Dict (Dict RegistryEvent)
registry_from m [] = m
registry_from m (e ∷ es) = registry_from (add_event m e) es

-- `known === undefined || doc.version >= known`.
abbrev pub is_newer : Option ℕ → ℕ → Bool
is_newer none version = true
is_newer (some known) version = leb known version

abbrev pub parsed : {A : Type 0} → (String → Option (Snapshot A)) → Fetch → Result (Snapshot A)
parsed parse (found text) = elim (parse text) [
  | none ↦ err (other "Unexpected token in JSON")
  | some doc ↦ ok doc
]
parsed parse missing = ok (record { version = 0; items = some [] })
parsed parse (broken message) = err (other message)

-- `refresh`: joins the read that is under way, or starts one.
unfoldable pub refresh : String → ℕ → Cache → Cache
refresh kind now s =
    if has s.inflight kind then s else record s { inflight = put s.inflight kind now }

abbrev pub is_stale : String → ℕ → Cache → Bool
is_stale kind now s = leb (or_else (get s.next_check_at kind) 0) now

-- `ensureFresh` up to its await.
unfoldable pub ensure_fresh : String → ℕ → Cache → Cache
unfolding refresh
ensure_fresh kind now s = if is_stale kind now s then refresh kind now s else s

module _ (lib : Library) where
  abbrev pub apply_keys : ℕ → Result (Snapshot IngestKey) → Action Cache (Unit {0})
  apply_keys now (err e) s = (err e, s)
  apply_keys now (ok doc) s =
      let t =
        if is_newer (get s.versions "ingest_keys") doc.version
        then record s {
          versions = put s.versions "ingest_keys" doc.version;
          keys = keys_from [] (or_else doc.items []);
        }
        else s in
      (ok tt, record t { next_check_at = put t.next_check_at "ingest_keys" (now + t.max_age_ms) })

  abbrev pub apply_registry : ℕ → Result (Snapshot RegistryEvent) → Action Cache (Unit {0})
  apply_registry now (err e) s = (err e, s)
  apply_registry now (ok doc) s =
      let t =
        if is_newer (get s.versions "registry") doc.version
        then record s {
          versions = put s.versions "registry" doc.version;
          registry = registry_from [] (or_else doc.items []);
        }
        else s in
      (ok tt, record t { next_check_at = put t.next_check_at "registry" (now + t.max_age_ms) })

  -- `reload` from the moment that storage answers; other kinds are ignored. A snapshot whose items
  -- are not of the contract's types, on which `apply` throws after it set the version, is left out.
  unfoldable pub reload : String → ℕ → Fetch → Action Cache (Unit {0})
  unfolding keys_from registry_from
  reload kind now fetch s =
      if kind == "ingest_keys"
      then apply_keys now (parsed lib.parse_keys fetch) s
      else if kind == "registry"
      then apply_registry now (parsed lib.parse_registry fetch) s
      else (ok tt, s)

  abbrev pub settled_with : String → ℕ → Result (Unit {0}) × Cache → Cache
  settled_with kind started (ok _, s) = record s { inflight = delete s.inflight kind }
  settled_with kind started (err e, s) = record s {
    next_check_at = put s.next_check_at kind (started + min failure_retry_ms s.max_age_ms);
    inflight = delete s.inflight kind;
  }

  -- The read that is under way ends: `reload`, then `catch` and `finally`.
  unfoldable pub settle : String → Fetch → Cache → Cache
  unfolding reload
  settle kind fetch s = elim (get s.inflight kind) [
    | none ↦ s
    | some started ↦ settled_with kind started (reload kind started fetch s)
  ]

  -- `load`, with the two answers of storage.
  unfoldable pub load : ℕ → ℕ → Fetch → Fetch → Action Cache (Unit {0})
  unfolding reload
  load now₁ now₂ keys events = do
    reload "ingest_keys" now₁ keys
    reload "registry" now₂ events
    λ s. (ok tt, record s { loaded = true })
