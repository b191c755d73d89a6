-- ===== src/ConfigCache/Tests.antt =====
-- A key with a previous hash in its grace, a snapshot that revokes it, and a run of lookups.
use upstat.Common.{
  ℕ, ◌-◌, ◌/◌, ◌≤◌, ◌≡◌, refl, ◌≢◌, ◌↔◌, true, none, some, List, [], ◌∷◌, arith, nat_eq, string_eq,
  or_else, get, put,
}
use upstat.Common.Int.{pos}
use mathlib.Core.List.{Memᴰ}
use upstat.ConfigCache.{
  IngestKey, Cache, Library, Snapshot, found, missing, ingestion_token, otlp, settle,
}
use upstat.ConfigCache.Lookup.{live, unknown, lookup}
use upstat.ConfigCache.Sound.{IsLive, Names, lookup-live_iff, lookup-settled}
use upstat.ConfigCache.Fresh.{Call}
use upstat.ConfigCache.Misses.{Turn, call, answer, extra_reads, extra_reads-throttled}

abbrev rotated : IngestKey
rotated = record {
  id = "k1";
  org_id = "org";
  kind = ingestion_token;
  scope = otlp;
  hash = "new";
  previous_hash = some "old";
  previous_expires_at = some "tomorrow";
  status = "active";
  allowed_origins = none;
  quotas = none;
}

abbrev doc : Snapshot IngestKey
doc = record { version = 3; items = some (rotated ∷ []) }

-- The plaintext is its own hash, every date is 9,000 and every text is the same snapshot.
abbrev lib : Library
lib = record {
  sha256 = λ s. s;
  date_parse = λ s. some (pos 9000);
  parse_keys = λ s. some doc;
  parse_registry = λ s. none;
}

abbrev cold : Cache
cold = record {
  keys = [];
  registry = [];
  versions = put [] "ingest_keys" 2;
  next_check_at = [];
  inflight = put [] "ingest_keys" 1000;
  missed_at = [];
  last_miss_refresh_at = 0;
  max_age_ms = 60_000;
  loaded = true;
}

abbrev warm : Cache
warm = settle lib "ingest_keys" (found "keys") cold

lookup-live_iff_example :
    (lookup lib "old" ingestion_token (otlp ∷ []) 8000 warm ≡ live rotated) ↔ (
      (get warm.keys (lib.sha256 "old") ≡ some rotated)
      × IsLive lib (lib.sha256 "old") ingestion_token (otlp ∷ []) 8000 rotated)
lookup-live_iff_example = lookup-live_iff lib "old" ingestion_token (otlp ∷ []) 8000 warm rotated

in_grace : lookup lib "old" ingestion_token (otlp ∷ []) 8000 warm ≡ live rotated
unfolding lookup settle get put
in_grace = refl

after_grace : lookup lib "old" ingestion_token (otlp ∷ []) 9001 warm ≡ unknown
unfolding lookup settle get put
after_grace = refl

lookup-settled_example :
    Memᴰ rotated (or_else doc.items [])
    × Names (lib.sha256 "old") rotated
    × (rotated.status ≢ "revoked")
unfolding lookup settle get put
lookup-settled_example =
    lookup-settled lib "keys" doc 1000 cold "old" ingestion_token (otlp ∷ []) 8000 rotated refl refl
      refl refl

abbrev ask : ℕ → Call
ask now = record { plain = "nobody"; kind = ingestion_token; scopes = otlp ∷ []; now = now }

abbrev run : List Turn
run = answer (found "keys") ∷ call (ask 2000) ∷ call (ask 2500) ∷ answer missing ∷ []

extra_reads-throttled_example : extra_reads lib run cold ≤ (3000 - cold.last_miss_refresh_at) / 1000
extra_reads-throttled_example =
    extra_reads-throttled lib run cold 3000 (tt, (omega arith, (omega arith, (tt, tt))))
      (omega arith)
