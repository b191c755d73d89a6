-- ===== src/Gateway/Example.antt =====
-- A gateway with one ingestion token, a collector that is down and no shared store.
use upstat.Common.{true, false, none, some, [], ◌∷◌, if◌then◌else◌, nat_eq, string_eq, ◌==◌, put}
use upstat.Common.Int.{pos}
use upstat.Valkey.{Hashes}
use upstat.Valkey.Memory.{Store, memory, empty_store, up, no_valkey}
use upstat.ConfigCache.{IngestKey, missing, ingestion_token, otlp}
use upstat.Collector.{response}
use upstat.Gateway.{Gateway, Env}

abbrev pub no_hashes : Hashes Store
no_hashes = record {
  hincrby = λ k f n s. s;
  hgetall = λ k s. [];
  hdel = λ k f s. s;
  hlen = λ k s. 0;
  sadd = λ k m s. s;
  srem = λ k m s. s;
  smembers = λ k s. [];
  set_nx = λ k ttl s. (true, s);
  expire = λ k ttl s. s;
  del = λ k s. s;
}

abbrev pub env : Env memory
env = record {
  library = record {
    sha256 = λ s. s;
    date_parse = λ s. some (pos 9000);
    parse_keys = λ s. none;
    parse_registry = λ s. none;
  };
  platform = record {
    to_base64 = λ b. b;
    from_base64 = λ t. t;
    day_start = λ day. if day == "2026-01-01" then some 1_767_225_600_000 else none;
  };
  hashes = no_hashes;
  integer = λ s. none;
  valkey = no_valkey;
  source_link = up;
  spend_link = up;
  salt_link = up;
  usage_links = record { add = up; list_windows = up; claim = λ w. up; ack = λ w. up };
  keys_fetch = missing;
  collector = record { collector_url = "http://collector"; on_cloud_run = false };
  at = record {
    source = 100_000;
    lookup = 100_000;
    spend = 100_000;
    forward = 100_000;
    count = 100_000;
    flush = 100_000;
  };
}

abbrev pub key : IngestKey
key = record {
  id = "k1";
  org_id = "org";
  kind = ingestion_token;
  scope = otlp;
  hash = "new";
  previous_hash = none;
  previous_expires_at = none;
  status = "active";
  allowed_origins = none;
  quotas = some (put [] "bytes_per_second" 3);
}

abbrev pub start : Gateway memory.Store
start = record {
  cache = record {
    keys = put [] "new" key;
    registry = [];
    versions = [];
    next_check_at = put [] "ingest_keys" 160_000;
    inflight = [];
    missed_at = [];
    last_miss_refresh_at = 0;
    max_age_ms = 60_000;
    loaded = true;
  };
  slots = [];
  salts = [];
  usage = record { local = []; next_check_at = 200_000 };
  collector = record {
    tokens = [];
    sent = [];
    replies = response 503 [] none ∷ [];
    metadata = [];
    asked = [];
  };
  store = empty_store;
}
