-- ===== src/Config/Tests.antt =====
-- An environment that loads, and an empty one.
use upstat.Common.{
  String, ◌≡◌, refl, false, none, [], ◌∷◌, if◌then◌else◌, nat_eq, string_eq, ◌==◌, Result, ok, err,
  get,
}
use upstat.Common.Int.{pos}
use upstat.Config.{
  Number, integer, nan, Config, Environment, trimmed, required, positive, transport_of, complain,
}
use upstat.Config.Load.{load_config, check_env, invalid}
use upstat.Config.Valid.{IsRunnable, load_config-IsRunnable}

abbrev number : String → Number
number text = if text == "8" then integer (pos 8) else nan

abbrev local : Environment
local = get (
    ("KAFKA_BROKERS", "kafka:9092")
    ∷ ("STORAGE_BUCKET", "bucket")
    ∷ ("STORAGE_PREFIX", "upstat/dev")
    ∷ ("OTLP_LOADER_ENDPOINT", "http://collector:4318/")
    ∷ ("INGEST_MAX_CONCURRENT_BODIES", "8")
    ∷ [])

abbrev empty : Environment
empty name = none

abbrev loaded : Result Config
loaded = load_config number local

abbrev value : Result Config → Config
value (ok c) = c
value (err e) = record {
  port = nan;
  grpc_port = nan;
  transport = upstat.Config.Transport.http;
  collector_url = "";
  collector_timeout_ms = 0;
  kafka = record { brokers = []; username = ""; password = ""; ssl_ca = "" };
  storage = record {
    driver = upstat.Config.Driver.gcs;
    bucket = "";
    prefix = "";
    endpoint = "";
    access_key = "";
    secret_key = "";
    use_ssl = false;
  };
  redis = record {
    host = "";
    port = nan;
    username = "";
    password = "";
    tls = false;
    db = nan;
    prefix = "";
    required = false;
  };
  bytes_per_second = nan;
  config_max_age_ms = 0;
  max_body_bytes = 0;
  max_concurrent_bodies = 0;
  trust_proxy = false;
  trust_proxy_hops = 0;
  contract_dir = "";
}

load_config-IsRunnable_example : IsRunnable number local (value loaded)
unfolding load_config check_env get
load_config-IsRunnable_example = load_config-IsRunnable number local (value loaded) refl

fails : load_config number empty ≡ err (invalid number empty (check_env number empty []).1)
unfolding load_config check_env
fails = refl
