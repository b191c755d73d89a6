-- ===== src/Config/Load.antt =====
-- config/config.ts: loadConfig.
use upstat.Common.{
  ℕ, ◌*◌, String, Bool, not, ◌&&◌, ◌||◌, Option, none, some, List, [], ◌∷◌, if◌then◌else◌, nat_eq,
  string_eq, ◌==◌, or_else, is_some, Failure, Result, ok, err, other,
}
use upstat.Common.Text.{trim, is_empty, trim_slashes}
use upstat.Usage.{◌&◌}
use upstat.Config.{
  Number, Transport, Driver, Config, Environment, Check, complain, trimmed, required, list,
  positive, above_zero, is_set, driver_of, transport_of, is_both, is_s3, joined, flag, number_or,
}

-- The choice of the transport: INGEST_TRANSPORT, or else what GRPC_PORT implies.
unfoldable pub transport_text : Environment → Number → String
unfolding trimmed
transport_text env grpc_port =
    if is_empty (trimmed env "INGEST_TRANSPORT")
    then if above_zero grpc_port then "both" else "http"
    else trimmed env "INGEST_TRANSPORT"

-- The variables in the order in which they are read.
pub record Settings : Type 0 where
  pub brokers : String
  pub bucket : String
  pub prefix : String
  pub collector_url : String
  pub driver : Option Driver
  pub grpc_port : Number
  pub transport : Option Transport
  pub redis_host : String
  pub redis_required : Bool
  pub config_max_age : ℕ
  pub max_body_bytes : ℕ
  pub max_concurrent_bodies : ℕ
  pub trust_proxy_hops : ℕ
  pub collector_timeout_ms : ℕ

module _ (number : String → Number) (env : Environment) where
  abbrev pub on_cloud : Bool
  on_cloud = is_set (env "K_SERVICE")

  abbrev pub driver : Option Driver
  driver = driver_of (elim (env "STORAGE_DRIVER") [ none ↦ "gcs" | some raw ↦ trim raw ])

  abbrev pub grpc_port : Number
  grpc_port = number_or number (env "GRPC_PORT") 0

  abbrev pub redis_host : String
  redis_host = or_else (env "REDIS_HOST") ""

  abbrev pub redis_required : Bool
  redis_required = flag (env "REDIS_REQUIRED") (on_cloud || not (is_empty redis_host))

  -- The checks of `loadConfig`, each of which adds to what is missing.
  unfoldable pub check_env : Check Settings
  unfolding complain required positive transport_text transport_of
  check_env m₀ =
      let (brokers, m₁) = required env "KAFKA_BROKERS" m₀ in
      let (bucket, m₂) = required env "STORAGE_BUCKET" m₁ in
      let (prefix, m₃) = required env "STORAGE_PREFIX" m₂ in
      let (collector_url, m₄) = required env "OTLP_LOADER_ENDPOINT" m₃ in
      let m₅ = complain (not (is_some driver)) "STORAGE_DRIVER (gcs|s3)" m₄ in
      let m₆ = if is_s3 driver then (required env "STORAGE_ENDPOINT" m₅).1 else m₅ in
      let transport = transport_of (transport_text env grpc_port) in
      let m₇ = complain (not (is_some transport)) "INGEST_TRANSPORT (http|grpc|both)" m₆ in
      let m₈ =
        complain (is_both transport && not (above_zero grpc_port)) "GRPC_PORT (transport both)"
          m₇ in
      let m₉ = complain (redis_required && is_empty redis_host) "REDIS_HOST" m₈ in
      let (age, n₁) = positive number env "CONFIG_MAX_AGE_SECONDS" 30 m₉ in
      let (body, n₂) = positive number env "INGEST_MAX_BODY_BYTES" 16_777_216 n₁ in
      let (bodies, n₃) = positive number env "INGEST_MAX_CONCURRENT_BODIES" 8 n₂ in
      let (hops, n₄) = positive number env "TRUST_PROXY_HOPS" 1 n₃ in
      let (timeout, n₅) = positive number env "COLLECTOR_TIMEOUT_MS" 15_000 n₄ in
      (
        record {
          brokers = brokers;
          bucket = bucket;
          prefix = prefix;
          collector_url = collector_url;
          driver = driver;
          grpc_port = grpc_port;
          transport = transport;
          redis_host = redis_host;
          redis_required = redis_required;
          config_max_age = age;
          max_body_bytes = body;
          max_concurrent_bodies = bodies;
          trust_proxy_hops = hops;
          collector_timeout_ms = timeout;
        },
        n₅,
      )

  abbrev pub config_of : Settings → Driver → Transport → Config
  config_of s driver transport = record {
    port = number_or number (env "PORT") 8081;
    grpc_port = s.grpc_port;
    transport = transport;
    collector_url = trim_slashes s.collector_url;
    collector_timeout_ms = s.collector_timeout_ms;
    kafka = record {
      brokers = list s.brokers;
      username = or_else (env "KAFKA_USERNAME") "";
      password = or_else (env "KAFKA_PASSWORD") "";
      ssl_ca = or_else (env "KAFKA_SSL_CA") "";
    };
    storage = record {
      driver = driver;
      bucket = s.bucket;
      prefix = trim_slashes s.prefix;
      endpoint = or_else (env "STORAGE_ENDPOINT") "";
      access_key = or_else (env "STORAGE_ACCESS_KEY") "";
      secret_key = or_else (env "STORAGE_SECRET_KEY") "";
      use_ssl = not (or_else (env "STORAGE_USE_SSL") "true" == "false");
    };
    redis = record {
      host = s.redis_host;
      port = number_or number (env "REDIS_PORT") 6379;
      username = or_else (env "REDIS_USERNAME") "";
      password = or_else (env "REDIS_PASSWORD") "";
      tls = or_else (env "REDIS_TLS") "" == "true";
      db = number_or number (env "REDIS_DB") 0;
      prefix = or_else (env "REDIS_KEY_PREFIX") "upstat:";
      required = s.redis_required;
    };
    bytes_per_second = number_or number (env "INGEST_BYTES_PER_SECOND") 2_000_000;
    config_max_age_ms = s.config_max_age * 1000;
    max_body_bytes = s.max_body_bytes;
    max_concurrent_bodies = s.max_concurrent_bodies;
    trust_proxy = flag (env "TRUST_PROXY_HEADERS") on_cloud;
    trust_proxy_hops = s.trust_proxy_hops;
    contract_dir = or_else (env "CONTRACT_DIR") "contract";
  }

  abbrev pub invalid : List String → Failure
  invalid missing = other ("missing or invalid configuration: " & joined missing)

  -- With nothing missing, the driver and the transport are among the ones that the code names.
  abbrev pub conclude : Settings → List String → Result Config
  conclude s [] = elim s.driver [
    | none ↦ err (invalid [])
    | some d ↦ elim s.transport [ none ↦ err (invalid []) | some t ↦ ok (config_of s d t) ]
  ]
  conclude s (m ∷ ms) = err (invalid (m ∷ ms))

  -- `loadConfig`.
  unfoldable pub load_config : Result Config
  unfolding check_env list trim_slashes
  load_config = let (s, missing) = check_env [] in conclude s missing
